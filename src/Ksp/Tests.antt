-- ===== src/Ksp/Tests.antt =====
-- Two workers submit one order, which the gateway first limits and then accepts.
use bokser_app.Prelude.{◌+◌, ◌≤◌, ◌≡◌, refl, true, false, some, List, [], ◌∷◌, All, map, ◌⊎◌}
use bokser_app.Json.{Json, null, str, obj, end, field, get}
use bokser_app.Tokens.Provider.{strip, strip_left, strip_right}
use bokser_app.Ksp.Journal.{
  Digest, Binding, Mapping, Report, Db, State, acknowledged, find, find_event, stage, start_post,
  set_state, stage_packages, new_event,
}
use bokser_app.Ksp.Journal.Slots.{SpacedFrom, send_times, reserve_request_slot-SpacedFrom}
use bokser_app.Ksp.Journal.Packages.{IsStaged, stage_packages_lem, stage_packages_keeps}
use bokser_app.Ksp.Worker.{
  Event as Schedule, replied, gateway_error, submit, start, post, record_answer, read_binding,
  acknowledge, run, step, idle_world, no_db, text_of, accept_response, submit_step, start_step,
  post_step, record_step, read_step, acknowledge_step,
}
use bokser_app.Ksp.Worker.Safety.{posts_of, limited_of}
use bokser_app.Ksp.Worker.Once.{posted_once_unless_limited}

abbrev by_name : Digest
by_name = record { of_request = λ body m token. token; of_report = λ r. r.event_id }

abbrev allocation : Mapping
allocation = record { code = "K-1"; anchor_id = 5; warehouse_id = 2; lines = obj end }

abbrev sent_reply : Json
sent_reply =
    obj (field "code" (str "K-1") (field "orderId" (str " 77 ") (field "status" (str "sent") end)))

abbrev schedule : List Schedule
schedule =
    submit 1 null allocation "t"
    ∷ submit 2 null allocation "t"
    ∷ start 1
    ∷ start 2
    ∷ post 1 (gateway_error (some 429))
    ∷ post 2 (replied sent_reply)
    ∷ record_answer 1
    ∷ read_binding 2
    ∷ submit 2 null allocation "t"
    ∷ start 2
    ∷ post 2 (replied sent_reply)
    ∷ record_answer 2
    ∷ read_binding 2
    ∷ acknowledge 2 true
    ∷ []

schedule_posts : (run by_name schedule idle_world).posts ≡ "K-1" ∷ "K-1" ∷ []
unfolding run step submit_step stage start_step start_post post_step record_step read_step
    acknowledge_step accept_response text_of strip strip_left strip_right set_state find get
schedule_posts = refl

schedule_states :
    map {B = State} (λ (b : Binding). b.state) (run by_name schedule idle_world).db.bindings
    ≡ acknowledged ∷ []
unfolding run step submit_step stage start_step start_post post_step record_step read_step
    acknowledge_step accept_response text_of strip strip_left strip_right set_state find get
schedule_states = refl

posted_once_unless_limited_example :
    posts_of "K-1" (run by_name schedule idle_world)
    ≤ limited_of "K-1" (run by_name schedule idle_world) + 1
posted_once_unless_limited_example = posted_once_unless_limited by_name schedule "K-1"

reserve_request_slot-SpacedFrom_example :
    SpacedFrom 1050 0 (send_times 1050 (100 ∷ 200 ∷ 150 ∷ []) no_db)
reserve_request_slot-SpacedFrom_example =
    reserve_request_slot-SpacedFrom 1050 (100 ∷ 200 ∷ 150 ∷ []) no_db

abbrev first_package : Report
first_package = record { event_id = "p1"; content = null }

abbrev second_package : Report
second_package = record { event_id = "p2"; content = null }

stage_packages_lem_example :
    let (ok, db') = stage_packages by_name "K-1" (first_package ∷ second_package ∷ []) no_db in
    ((ok ≡ false) × (db' ≡ no_db))
    ⊎ ((ok ≡ true) × All (IsStaged by_name "K-1" db'.events) (first_package ∷ second_package ∷ []))
stage_packages_lem_example =
    stage_packages_lem by_name "K-1" (first_package ∷ second_package ∷ []) no_db
      ((refl, tt), (tt, tt))

abbrev one_package : Db
one_package = record no_db { events = new_event by_name "K-1" first_package ∷ [] }

first_found : find_event "p1" one_package.events ≡ some (new_event by_name "K-1" first_package)
unfolding find_event
first_found = refl

stage_packages_keeps_example :
    find_event "p1"
      (stage_packages by_name "K-1" (first_package ∷ second_package ∷ []) one_package).1.events
    ≡ some (new_event by_name "K-1" first_package)
stage_packages_keeps_example =
    stage_packages_keeps by_name "K-1" (first_package ∷ second_package ∷ []) one_package "p1"
      (new_event by_name "K-1" first_package) first_found

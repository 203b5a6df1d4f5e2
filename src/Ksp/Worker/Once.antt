-- ===== src/Ksp/Worker/Once.antt =====
-- Every event keeps the invariant, so no order code is posted again but after a 429.
use bokser_app.Prelude.{
  ℕ, ◌+◌, ◌≤◌, String, ◌≡◌, refl, Bool, true, false, Option, none, some, List, [], ◌∷◌, arith,
  str_eq, if◌then◌else◌, inl, inr, Bool-cases,
}
use bokser_app.Json.{Json}
use bokser_app.Ksp.Journal.{
  Digest, Mapping, Binding, State, ready, uncertain, pending, accepted, acknowledged, find,
}
use bokser_app.Ksp.Worker.{
  Answer, Phase, idle, staged, owner, answered, checking, rechecking, tracking, acknowledging,
  Event, submit, start, post, record_answer, begin_check, read_binding, track, acknowledge, crash,
  World, accept_tracked, phase_of_read, phase_of_reread, next_phase, only_accepted, submit_step,
  start_step, post_step, record_step, begin_step, read_step, track_step, acknowledge_step, step,
  run, idle_world,
}
use bokser_app.Ksp.Worker.Safety.{
  posts_of, limited_of, SafeAt, IsQuiet, quiet, stay, set_state-SafeAt, Moved-SafeAt,
}
use bokser_app.Ksp.Worker.Safety.Responses.{accept_tracked-Moved}
use bokser_app.Ksp.Worker.Safety.Submits.{submit-SafeAt, start-SafeAt}
use bokser_app.Ksp.Worker.Safety.Posts.{own_post-SafeAt, other_post-SafeAt}
use bokser_app.Ksp.Worker.Safety.Records.{if-IsQuiet, record-SafeAt}

module _ (j : String) where
  next_phase-IsQuiet : (c : String) (st : State) (o : Option String) → IsQuiet j (next_phase c st o)
  next_phase-IsQuiet c ready o = quiet refl refl refl
  next_phase-IsQuiet c State.posting o = quiet refl refl refl
  next_phase-IsQuiet c uncertain o = quiet refl refl refl
  next_phase-IsQuiet c pending none = quiet refl refl refl
  next_phase-IsQuiet c pending (some o) = quiet refl refl refl
  next_phase-IsQuiet c accepted o = quiet refl refl refl
  next_phase-IsQuiet c acknowledged o = quiet refl refl refl

  phase_of_read-IsQuiet : (o : Option Binding) → IsQuiet j (phase_of_read o)
  phase_of_read-IsQuiet none = quiet refl refl refl
  phase_of_read-IsQuiet (some b) = next_phase-IsQuiet b.code b.state b.order_id

  only_accepted-IsQuiet : (st : State) (c : String) → IsQuiet j (only_accepted st c)
  only_accepted-IsQuiet ready c = quiet refl refl refl
  only_accepted-IsQuiet State.posting c = quiet refl refl refl
  only_accepted-IsQuiet uncertain c = quiet refl refl refl
  only_accepted-IsQuiet pending c = quiet refl refl refl
  only_accepted-IsQuiet accepted c = quiet refl refl refl
  only_accepted-IsQuiet acknowledged c = quiet refl refl refl

  phase_of_reread-IsQuiet : (o : Option Binding) → IsQuiet j (phase_of_reread o)
  phase_of_reread-IsQuiet none = quiet refl refl refl
  phase_of_reread-IsQuiet (some b) = only_accepted-IsQuiet b.state b.code

  submit_any :
      (digest : Digest) (k : ℕ) (body : Json) (m : Mapping) (token : String) (p : Phase) (w : World)
      → SafeAt j w
      → SafeAt j (submit_step digest k body m token p w)
  submit_any digest k body m token idle w s = submit-SafeAt j digest k body m token w s
  submit_any digest k body m token (staged c) w s = unfold submit_step in s
  submit_any digest k body m token _ w s = unfold submit_step in s

  start_any : (k : ℕ) (p : Phase) (w : World) → SafeAt j w → SafeAt j (start_step k p w)
  start_any k (staged c) w s = start-SafeAt j k c w s
  start_any k idle w s = unfold start_step in s
  start_any k _ w s = unfold start_step in s

  post_any :
      (k : ℕ) (a : Answer) (p : Phase) (w : World)
      → w.workers k ≡ p
      → SafeAt j w
      → SafeAt j (post_step k a p w)
  post_any k a (owner c) w e s = elim (Bool-cases (str_eq c j)) [
    | inl same ↦ own_post-SafeAt j k a c w e same s
    | inr other ↦ other_post-SafeAt j k a c w other s
  ]
  post_any k a idle w e s = unfold post_step in s
  post_any k a _ w e s = unfold post_step in s

  record_any :
      (k : ℕ) (p : Phase) (w : World) → w.workers k ≡ p → SafeAt j w → SafeAt j (record_step k p w)
  record_any k (answered c a) w e s = record-SafeAt j k c a w e s
  record_any k idle w e s = unfold record_step in s
  record_any k _ w e s = unfold record_step in s

  begin_any :
      (k : ℕ) (c : String) (p : Phase) (w : World) → SafeAt j w → SafeAt j (begin_step k c p w)
  unfolding begin_step
  begin_any k c idle w s = stay j k (checking c) w s (quiet refl refl refl)
  begin_any k c (staged d) w s = s
  begin_any k c _ w s = s

  read_any : (k : ℕ) (p : Phase) (w : World) → SafeAt j w → SafeAt j (read_step k p w)
  unfolding read_step
  read_any k (checking c) w s =
      let o = find c w.db.bindings in stay j k (phase_of_read o) w s (phase_of_read-IsQuiet o)
  read_any k (rechecking c) w s =
      let o = find c w.db.bindings in stay j k (phase_of_reread o) w s (phase_of_reread-IsQuiet o)
  read_any k idle w s = s
  read_any k _ w s = s

  track_any :
      (k : ℕ) (r : Json) (p : Phase) (w : World) → SafeAt j w → SafeAt j (track_step k r p w)
  unfolding track_step
  track_any k r (tracking c o) w s =
      let (ok, db') = accept_tracked c o r w.db in
      Moved-SafeAt j k (if ok then rechecking c else idle) c db' w s
        (if-IsQuiet j ok (rechecking c) idle (quiet refl refl refl) (quiet refl refl refl))
        (accept_tracked-Moved c o r w.db)
  track_any k r idle w s = s
  track_any k r _ w s = s

  acknowledge_any :
      (k : ℕ) (ok : Bool) (p : Phase) (w : World)
      → SafeAt j w
      → SafeAt j (acknowledge_step k ok p w)
  unfolding acknowledge_step
  acknowledge_any k true (acknowledging c) w s =
      set_state-SafeAt j k idle c acknowledged none none none w s (quiet refl refl refl) refl
  acknowledge_any k false (acknowledging c) w s = stay j k idle w s (quiet refl refl refl)
  acknowledge_any k true idle w s = s
  acknowledge_any k false idle w s = s
  acknowledge_any k true _ w s = s
  acknowledge_any k false _ w s = s

  step-SafeAt : (digest : Digest) (e : Event) (w : World) → SafeAt j w → SafeAt j (step digest e w)
  unfolding step
  step-SafeAt digest (submit k body m token) w s =
      submit_any digest k body m token (w.workers k) w s
  step-SafeAt digest (start k) w s = start_any k (w.workers k) w s
  step-SafeAt digest (post k a) w s = post_any k a (w.workers k) w refl s
  step-SafeAt digest (record_answer k) w s = record_any k (w.workers k) w refl s
  step-SafeAt digest (begin_check k c) w s = begin_any k c (w.workers k) w s
  step-SafeAt digest (read_binding k) w s = read_any k (w.workers k) w s
  step-SafeAt digest (track k r) w s = track_any k r (w.workers k) w s
  step-SafeAt digest (acknowledge k ok) w s = acknowledge_any k ok (w.workers k) w s
  step-SafeAt digest (crash k) w s = stay j k idle w s (quiet refl refl refl)

  run-SafeAt :
      (digest : Digest) (es : List Event) (w : World) → SafeAt j w → SafeAt j (run digest es w)
  unfolding run
  run-SafeAt digest [] w s = s
  run-SafeAt digest (e ∷ es) w s = run-SafeAt digest es (step digest e w) (step-SafeAt digest e w s)

  idle_world-SafeAt : SafeAt j idle_world
  idle_world-SafeAt = record {
    once = omega arith;
    unknown = λ h. record { all_limited = omega arith; nobody = λ k. refl };
    startable = λ h. absurd (cc);
    holding = λ k h. absurd (cc);
    refused = λ k h. absurd (cc);
    single = λ k l h m. absurd (cc);
  }

-- Under every schedule of submissions, checks, gateway answers and crashes by any number of workers,
-- from an empty journal, an order code is posted to the gateway at most once more than the gateway
-- answered a POST of it with 429; so an accepted or uncertain POST is never repeated.
pub posted_once_unless_limited :
    (digest : Digest) (es : List Event) (code : String)
    → posts_of code (run digest es idle_world) ≤ limited_of code (run digest es idle_world) + 1
posted_once_unless_limited digest es code =
    (run-SafeAt code digest es idle_world (idle_world-SafeAt code)).once

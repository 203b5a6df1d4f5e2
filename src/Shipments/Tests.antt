-- ===== src/Shipments/Tests.antt =====
-- Runs of the queue and its workers on small schedules.
use mathlib.Core.Option
use bokser_app.Prelude.{ℕ, ◌≤◌, ◌≡◌, refl, true, Option, none, some, List, [], ◌∷◌, count}
use bokser_app.Prelude.Int.{pos, negsuc}
use bokser_app.Json.{num, str, bool, obj, null, field, end}
use bokser_app.Shipments.Queue.{
  Row, Db, Status, sent, find, processing, failed, reconcile, claim, conflict_update,
  shipment_sync_upsert, finish_attempt, fresh_row,
}
use bokser_app.Shipments.Queue.Finish.{Completed, accepted_is_recorded}
use bokser_app.Shipments.Queue.Ingest.{Ingested, KeysDiffer, upsert-KeysDiffer, ingest_row}
use bokser_app.Shipments.Response.{outcome, PostResult, response, shipment_id}
use bokser_app.Shipments.Worker.{
  Event, ingest, claim_row, post, complete, hold, step, run, start, no_fault, after_commit,
}
use bokser_app.Shipments.Worker.AtMostOnce.{posted_at_most_once}
use bokser_app.Shipments.Worker.Sent.{sent_posted_once}
use bokser_app.Shipments.Worker.Unchanged.{unchanged_ingest}

-- An answer of SOS that names shipment 77.
abbrev created : PostResult
created = response 200 "" (some (obj (field "data" (obj (field "id" (num (pos 77)) end)) end)))

-- Two workers race for one row; the first posts it, and loses the acknowledgement of its commit.
abbrev race : List Event
race =
    ingest 0 "ksp" "A-1" "h1"
    ∷ claim_row 1 0 1000
    ∷ claim_row 2 0 1001
    ∷ post 1 created
    ∷ post 2 created
    ∷ complete 1 after_commit
    ∷ hold 1 no_fault
    ∷ ingest 1100 "ksp" "A-1" "h1"
    ∷ claim_row 2 0 1200
    ∷ []

abbrev sent_row : Row
sent_row = record (fresh_row 0 0 "ksp" "A-1" "h1") {
  status = sent;
  attempts = 1;
  last_sent_at = some 1000;
  last_error = none;
  sos_shipment_id = some 77;
}

race_posts : (run race start).posts ≡ 0 ∷ []
unfolding run shipment_sync_upsert claim find finish_attempt outcome shipment_id
race_posts = refl

race_row : find 0 (run race start).db.rows ≡ some sent_row
unfolding run shipment_sync_upsert claim find finish_attempt outcome shipment_id conflict_update
race_row = refl

-- The payload changes while the POST is under way: the row is held, not marked sent.
abbrev changed_meanwhile : List Event
changed_meanwhile =
    ingest 0 "ksp" "A-1" "h1"
    ∷ claim_row 1 0 1000
    ∷ post 1 created
    ∷ ingest 1001 "ksp" "A-1" "h2"
    ∷ complete 1 no_fault
    ∷ hold 1 no_fault
    ∷ []

changed_meanwhile_held :
    Option.map {B = Status × Option ℕ}
      (λ r. (r.status, r.sos_shipment_id))
      (find 0 (run changed_meanwhile start).db.rows)
    ≡ some (reconcile, some 77)
unfolding run shipment_sync_upsert claim find finish_attempt outcome shipment_id conflict_update
changed_meanwhile_held = refl

-- A refusal fails the row; a server error holds it.
refused_fails :
    Option.map
      (λ r. r.status)
      (find 0
        (run
          (ingest 0 "ksp" "A-1" "h1"
            ∷ claim_row 1 0 1000
            ∷ post 1 (response 422 "no" none)
            ∷ complete 1 no_fault
            ∷ hold 1 no_fault
            ∷ [])
          start).db.rows)
    ≡ some failed
unfolding run shipment_sync_upsert claim find finish_attempt outcome shipment_id
refused_fails = refl

server_error_holds :
    Option.map
      (λ r. r.status)
      (find 0
        (run
          (ingest 0 "ksp" "A-1" "h1"
            ∷ claim_row 1 0 1000
            ∷ post 1 (response 502 "" none)
            ∷ complete 1 no_fault
            ∷ hold 1 no_fault
            ∷ [])
          start).db.rows)
    ≡ some reconcile
unfolding run shipment_sync_upsert claim find finish_attempt outcome shipment_id
server_error_holds = refl

posted_at_most_once_example : count 0 (run race start).posts ≤ 1
posted_at_most_once_example = posted_at_most_once race 0

sent_posted_once_example : count 0 (run race start).posts ≡ 1
sent_posted_once_example = sent_posted_once race 0 sent_row race_row refl

abbrev two_rows : Db
two_rows = record {
  rows = sent_row ∷ record (fresh_row 5 1 "sutton" "9" "h") { status = processing } ∷ [];
  next_id = 2;
}

abbrev claimed_row : Row
claimed_row = record (fresh_row 5 1 "sutton" "9" "h") { status = processing }

claimed_row_found : find claimed_row.id two_rows.rows ≡ some claimed_row
unfolding find
claimed_row_found = refl

accepted_is_recorded_example :
    let (e, db') = finish_attempt claimed_row sent none (some 8) two_rows in
    (r' : Row) × (find 1 db'.rows ≡ some r')
    × (r'.sos_shipment_id ≡ some 8)
    × Completed claimed_row claimed_row 8 e r'
accepted_is_recorded_example =
    accepted_is_recorded claimed_row claimed_row 8 two_rows claimed_row_found

upsert-KeysDiffer_example : KeysDiffer (shipment_sync_upsert 9 "ksp" "B" "h" two_rows).rows
upsert-KeysDiffer_example = upsert-KeysDiffer 9 "ksp" "B" "h" two_rows (refl, (refl, tt))

-- The row is posted and marked sent between the two ingestions.
abbrev sent_between : List Event
sent_between = claim_row 1 0 1000 ∷ post 1 created ∷ complete 1 no_fault ∷ []

unchanged_ingest_example :
    let w' = run sent_between (step (ingest 0 "ksp" "A-1" "h1") start) in
    step (ingest 1100 "ksp" "A-1" "h1") w' ≡ w'
unchanged_ingest_example = unchanged_ingest 0 1100 "ksp" "A-1" "h1" sent_between start refl

ingest_row_example :
    (r' : Row) × (find 1 (shipment_sync_upsert 9 "sutton" "9" "h2" two_rows).rows ≡ some r')
    × Ingested "sutton" "9" "h2" claimed_row r'
ingest_row_example = ingest_row 9 "sutton" "9" "h2" two_rows 1 claimed_row claimed_row_found

shipment_id_samples :
    (shipment_id (obj (field "id" (str " 12 ") end)) ≡ some 12)
    × (shipment_id (obj (field "id" (bool true) end)) ≡ none)
    × (shipment_id (obj (field "id" (num (negsuc 0)) end)) ≡ none)
    × (shipment_id (obj (field "data" null end)) ≡ none)
unfolding shipment_id
shipment_id_samples = (refl, refl, refl, refl)

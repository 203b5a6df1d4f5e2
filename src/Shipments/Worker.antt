-- ===== src/Shipments/Worker.antt =====
-- Any number of workers run `process_shipment_sync`
-- (src/worker/jobs/push_data/sos/sos_shipment_sync.py) beside the ingestion, over one queue. A
-- schedule is a list of events; each is one database transaction or one POST, which the code runs
-- with awaits before and after it. A worker may be stopped between any two.
mod Safety
pub mod AtMostOnce
pub mod Sent
pub mod Unchanged
use bokser_app.Prelude.{
  ℕ, String, Bool, true, false, Option, none, some, List, [], ◌∷◌, ◌==◌, if◌then◌else◌,
}
use bokser_app.Shipments.Queue.{
  Row, Db, Status, Message, sent, failed, reconcile, text, requires_reconciliation, claim,
  finish_attempt, shipment_sync_upsert,
}
use bokser_app.Shipments.Response.{PostResult, Outcome, accepted, raised, outcome}

-- Where a worker stands in the body of the loop.
pub data Phase : Type 0 where
  -- between candidates
  idle : Phase
  -- the claim is committed, the template is not built yet
  claimed : Row → Phase
  -- the POST was sent, with this result
  posted : Row → PostResult → Phase
  -- in the `except` block: the row, `post_started`, the exception, `shipment_id`
  failing : Row → Bool → Message → Option ℕ → Phase

-- How a transaction of `_finish_attempt` can fail: not at all, before its commit, or with the
-- acknowledgement lost after it.
pub data Fault : Type 0 where
  no_fault before_commit after_commit : Fault

pub data Event : Type 0 where
  -- the ingestion runs `shipment_sync_upsert`: time, source, source id, hash
  ingest : ℕ → String → String → String → Event
  -- worker, id of the candidate, time
  claim_row : ℕ → ℕ → ℕ → Event
  build_fails : ℕ → String → Event
  post : ℕ → PostResult → Event
  complete : ℕ → Fault → Event
  hold : ℕ → Fault → Event
  crash : ℕ → Event

pub record World : Type 0 where
  pub db : Db
  -- the queue ids of the POSTs sent, latest first
  pub posts : List ℕ
  pub workers : ℕ → Phase

abbrev pub set_phase : ℕ → Phase → (ℕ → Phase) → ℕ → Phase
set_phase k p ws l = if l == k then p else ws l

abbrev pub enter : ℕ → Phase → World → World
enter k p w = record w { workers = set_phase k p w.workers }

abbrev pub phase_of_claim : Option Row → Phase
phase_of_claim none = idle
phase_of_claim (some r) = claimed r

-- The claim, `if claimed is None: continue` included.
unfoldable pub claim_step : ℕ → ℕ → ℕ → Phase → World → World
claim_step k id now idle w =
    let (r, db') = claim now id w.db in
    record w { db = db'; workers = set_phase k (phase_of_claim r) w.workers }
claim_step k id now _ w = w

unfoldable pub build_fails_step : ℕ → String → Phase → World → World
build_fails_step k e (claimed r) w = enter k (failing r false (text e) none) w
build_fails_step k e _ w = w

unfoldable pub post_step : ℕ → PostResult → Phase → World → World
post_step k result (claimed r) w = record w {
  posts = r.id ∷ w.posts;
  workers = set_phase k (posted r result) w.workers;
}
post_step k result _ w = w

-- The transaction's table, and the exception that the caller sees.
abbrev pub with_fault : Fault → Db → Option Message × Db → Option Message × Db
with_fault no_fault db (e, db') = (e, db')
with_fault before_commit db (e, db') = (some (text "connection lost"), db)
with_fault after_commit db (e, db') = (some (text "connection lost"), db')

abbrev pub phase_after_sent : Row → ℕ → Option Message → Phase
phase_after_sent r n none = idle
phase_after_sent r n (some e) = failing r true e (some n)

unfoldable pub finish_sent : ℕ → Fault → Row → Outcome → World → World
finish_sent k fault r (accepted n) w =
    let (e, db') = with_fault fault w.db (finish_attempt r sent none (some n) w.db) in
    record w { db = db'; workers = set_phase k (phase_after_sent r n e) w.workers }
finish_sent k fault r (raised started e) w = enter k (failing r started e none) w

unfoldable pub complete_step : ℕ → Fault → Phase → World → World
unfolding finish_sent
complete_step k fault (posted r result) w = finish_sent k fault r (outcome result) w
complete_step k fault _ w = w

abbrev pub held_status : Bool → Status
held_status started = if started then reconcile else failed

abbrev pub held_error : Bool → Message → Option ℕ → Message
held_error started e n = if started then requires_reconciliation n e else e

-- The `except` block: an exception of its own `_finish_attempt` is only logged.
unfoldable pub hold_step : ℕ → Fault → Phase → World → World
hold_step k fault (failing r started e n) w =
    let (e', db') =
      with_fault fault w.db
        (finish_attempt r (held_status started) (some (held_error started e n)) n w.db) in
    record w { db = db'; workers = set_phase k idle w.workers }
hold_step k fault _ w = w

unfoldable pub step : Event → World → World
unfolding claim_step build_fails_step post_step complete_step hold_step
step (ingest now s i h) w = record w { db = shipment_sync_upsert now s i h w.db }
step (claim_row k id now) w = claim_step k id now (w.workers k) w
step (build_fails k e) w = build_fails_step k e (w.workers k) w
step (post k result) w = post_step k result (w.workers k) w
step (complete k fault) w = complete_step k fault (w.workers k) w
step (hold k fault) w = hold_step k fault (w.workers k) w
step (crash k) w = enter k idle w

unfoldable pub run : List Event → World → World
unfolding step
run [] w = w
run (e ∷ es) w = run es (step e w)

-- No row, no POST and no work yet.
abbrev pub start : World
start = record { db = record { rows = []; next_id = 0 }; posts = []; workers = λ k. idle }

-- ===== src/Shipments/Worker/AtMostOnce.antt =====
-- Every event keeps the invariant, so no schedule of workers, crashes and ingestion posts a queue
-- row twice.
use bokser_app.Prelude.{
  ℕ, ◌≤◌, String, ◌≡◌, refl, Bool, true, false, Option, none, some, List, [], ◌∷◌, map, arith, ◌⊎◌,
  inl, inr, count,
}
use bokser_app.Shipments.Queue.{
  Row, Db, Status, Message, sent, is_pending, conclude, update_id, finish_attempt,
}
use bokser_app.Shipments.Response.{PostResult, Outcome, accepted, raised, outcome}
use bokser_app.Shipments.Worker.{
  Phase, idle, claimed, posted, failing, Fault, no_fault, before_commit, after_commit, Event, World,
  set_phase, claim_step, build_fails_step, post_step, complete_step, finish_sent, hold_step, step,
  run, start, ingest, claim_row, build_fails, post, complete, hold, crash, with_fault,
  phase_after_sent, held_status, held_error,
}
use bokser_app.Shipments.Worker.Safety.{holds, SafeAt, keep_map, set_phase_back, quiet_conclude}
use bokser_app.Shipments.Worker.Safety.Claims.{enter-SafeAt, ingest-SafeAt, claim-SafeAt}
use bokser_app.Shipments.Worker.Safety.Posts.{post-SafeAt}

-- The table after a transaction of `_finish_attempt`, with any fault.
pub finish_table :
    (fault : Fault) (c : Row) (st : Status) (e : Option Message) (n : Option ℕ) (db : Db)
    → let db' = (with_fault fault db (finish_attempt c st e n db)).1 in
      (db' ≡ db) ⊎ (db' ≡ record db { rows = map (update_id c.id (conclude c st e n)) db.rows })
unfolding finish_attempt
finish_table no_fault c st e n db = ground arith
finish_table before_commit c st e n db = inl refl
finish_table after_commit c st e n db = ground arith

module _ (j : ℕ) where
  finish-SafeAt :
      (k : ℕ) (p : Phase) (fault : Fault) (c : Row) (st : Status) (e : Option Message)
      (n : Option ℕ) (w : World)
      → SafeAt j w
      → is_pending st ≡ false
      → holds p j ≡ false
      → SafeAt j (record w {
        db = (with_fault fault w.db (finish_attempt c st e n w.db)).1;
        workers = set_phase k p w.workers;
      })
  finish-SafeAt k p fault c st e n w s np h = elim (finish_table fault c st e n w.db) [
    | inl same ↦ rw same (enter-SafeAt j k p w s h)
    | inr changed ↦ rw changed (
        keep_map j w (update_id c.id (conclude c st e n)) (set_phase k p w.workers) s
          (λ r. quiet_conclude j c st e n r np) (set_phase_back j k p w.workers h))
  ]

  holds-phase_after_sent :
      (r : Row) (n : ℕ) (e : Option Message) → holds (phase_after_sent r n e) j ≡ false
  holds-phase_after_sent r n none = refl
  holds-phase_after_sent r n (some e) = refl

  pending-held_status : (started : Bool) → is_pending (held_status started) ≡ false
  pending-held_status true = refl
  pending-held_status false = refl

  claim_any :
      (k id now : ℕ) (p : Phase) (w : World) → SafeAt j w → SafeAt j (claim_step k id now p w)
  unfolding claim_step
  claim_any k id now idle w s = unfold claim_step in claim-SafeAt j k id now w s
  claim_any k id now (claimed r) w s = s
  claim_any k id now _ w s = s

  build_fails_any :
      (k : ℕ) (e : String) (p : Phase) (w : World)
      → SafeAt j w
      → SafeAt j (build_fails_step k e p w)
  unfolding build_fails_step
  build_fails_any k e (claimed r) w s =
      enter-SafeAt j k (failing r false (Message.text e) none) w s refl
  build_fails_any k e _ w s = s

  post_any :
      (k : ℕ) (result : PostResult) (p : Phase) (w : World)
      → w.workers k ≡ p
      → SafeAt j w
      → SafeAt j (post_step k result p w)
  post_any k result (claimed r) w e s = post-SafeAt j k result r w e s
  post_any k result idle w e s = unfold post_step in s
  post_any k result (posted r x) w e s = unfold post_step in s
  post_any k result (failing r b m n) w e s = unfold post_step in s

  finish_sent_any :
      (k : ℕ) (fault : Fault) (r : Row) (o : Outcome) (w : World)
      → SafeAt j w
      → SafeAt j (finish_sent k fault r o w)
  unfolding finish_sent
  finish_sent_any k fault r (accepted n) w s =
      let e : Option Message =
        (with_fault fault w.db (finish_attempt r sent none (some n) w.db)).0 in
      finish-SafeAt k (phase_after_sent r n e) fault r sent none (some n) w s refl
        (holds-phase_after_sent r n e)
  finish_sent_any k fault r (raised started e) w s =
      enter-SafeAt j k (failing r started e none) w s refl

  complete_any :
      (k : ℕ) (fault : Fault) (p : Phase) (w : World)
      → SafeAt j w
      → SafeAt j (complete_step k fault p w)
  unfolding complete_step
  complete_any k fault (posted r result) w s = finish_sent_any k fault r (outcome result) w s
  complete_any k fault _ w s = s

  hold_any :
      (k : ℕ) (fault : Fault) (p : Phase) (w : World)
      → SafeAt j w
      → SafeAt j (hold_step k fault p w)
  unfolding hold_step
  hold_any k fault (failing r started e n) w s =
      finish-SafeAt k idle fault r (held_status started) (some (held_error started e n)) n w s
        (pending-held_status started) refl
  hold_any k fault _ w s = s

  step-SafeAt : (e : Event) (w : World) → SafeAt j w → SafeAt j (step e w)
  unfolding step
  step-SafeAt (ingest now s i h) w safe = ingest-SafeAt j now s i h w safe
  step-SafeAt (claim_row k id now) w safe = claim_any k id now (w.workers k) w safe
  step-SafeAt (build_fails k e) w safe = build_fails_any k e (w.workers k) w safe
  step-SafeAt (post k result) w safe = post_any k result (w.workers k) w refl safe
  step-SafeAt (complete k fault) w safe = complete_any k fault (w.workers k) w safe
  step-SafeAt (hold k fault) w safe = hold_any k fault (w.workers k) w safe
  step-SafeAt (crash k) w safe = enter-SafeAt j k idle w safe refl

  pub run-SafeAt : (es : List Event) (w : World) → SafeAt j w → SafeAt j (run es w)
  unfolding run
  run-SafeAt [] w s = s
  run-SafeAt (e ∷ es) w s = run-SafeAt es (step e w) (step-SafeAt e w s)

  start-SafeAt : SafeAt j start
  start-SafeAt = record {
    once = omega arith;
    fresh_rows = λ le. refl;
    fresh_waits = λ le. record { no_post = refl; no_holder = λ k. refl };
    waiting = λ c. absurd (cc);
    holding = λ k h. refl;
    single = λ k l h m. absurd (cc);
  }

-- Under every schedule of ingestion, claims, POSTs, faulty commits and crashes by any number of
-- workers, from an empty queue, each queue row is posted to SOS at most once.
pub posted_at_most_once : (es : List Event) (j : ℕ) → count j (run es start).posts ≤ 1
posted_at_most_once es j = (run-SafeAt j es start (start-SafeAt j)).once

-- ===== src/Shipments/Worker/Sent.antt =====
-- A row that is marked sent was posted: the invariant for one queue id, and its preservation.
use bokser_app.Prelude.{
  ℕ, ◌≤◌, String, ◌≡◌, refl, Bool, true, false, ◌&&◌, Option, none, some, List, [], ◌∷◌, map, any,
  arith, ◌==◌, ap, ◌∙◌, ◌⊎◌, inl, inr, Bool-cases, any-map, any-append, count,
}
use bokser_app.Shipments.Queue.{
  Row, Status, Message, sent, is_sent, fresh_row, conflict_update, update_key, shipment_sync_upsert,
  has_key, claim_one, claim, conclude, update_id, finish_attempt, find,
}
use bokser_app.Shipments.Response.{PostResult, Outcome, accepted, raised, outcome}
use bokser_app.Shipments.Worker.{
  Phase, idle, claimed, posted, failing, Fault, Event, World, set_phase, claim_step,
  build_fails_step, post_step, complete_step, finish_sent, hold_step, step, run, start, ingest,
  claim_row, build_fails, post, complete, hold, crash, with_fault, phase_of_claim, phase_after_sent,
  held_status, held_error, enter,
}
use bokser_app.Shipments.Worker.AtMostOnce.{posted_at_most_once, finish_table}

abbrev is_sent_id : ℕ → Row → Bool
is_sent_id j r = r.id == j && is_sent r.status

abbrev has_posted : Phase → ℕ → Bool
has_posted (posted r _) j = r.id == j
has_posted _ j = false

record PostedAt (j : ℕ) (w : World) : Type 0 where
  sent_rows : any (is_sent_id j) w.db.rows ≡ true → 1 ≤ count j w.posts
  posted_by : (k : ℕ) → has_posted (w.workers k) j ≡ true → 1 ≤ count j w.posts

module _ (j : ℕ) where
  set_phase_posted :
      (k : ℕ) (p : Phase) (w : World)
      → PostedAt j w
      → (has_posted p j ≡ true → 1 ≤ count j w.posts)
      → (l : ℕ) → has_posted (set_phase k p w.workers l) j ≡ true
      → 1 ≤ count j w.posts
  set_phase_posted k p w s new l = ground (arith, s.posted_by l, new)

  enter-PostedAt :
      (k : ℕ) (p : Phase) (w : World)
      → PostedAt j w
      → has_posted p j ≡ false
      → PostedAt j (enter k p w)
  enter-PostedAt k p w s h = record {
    sent_rows = s.sent_rows;
    posted_by = set_phase_posted k p w s (λ e. absurd (cc));
  }

  -- A map of the table that marks no row sent.
  map-PostedAt :
      (k : ℕ) (p : Phase) (g : Row → Row) (w : World)
      → PostedAt j w
      → has_posted p j ≡ false
      → ((r : Row) → is_sent_id j (g r) ≡ true → is_sent_id j r ≡ true)
      → PostedAt j (record w {
        db = record w.db { rows = map g w.db.rows };
        workers = set_phase k p w.workers;
      })
  map-PostedAt k p g w s h quiet = record {
    sent_rows = λ e. s.sent_rows (any-map (is_sent_id j) g w.db.rows quiet e);
    posted_by = set_phase_posted k p w s (λ e. absurd (cc));
  }

  quiet_update_key :
      (s i h : String) (r : Row) → is_sent_id j (update_key s i h r) ≡ true → is_sent_id j r ≡ true
  unfolding conflict_update
  quiet_update_key s i h r = ground arith

  ingest-PostedAt :
      (now : ℕ) (s i h : String) (w : World)
      → PostedAt j w
      → PostedAt j (record w { db = shipment_sync_upsert now s i h w.db })
  unfolding shipment_sync_upsert
  ingest-PostedAt now s i h w p = elim (Bool-cases (any (has_key s i) w.db.rows)) [
    | inl known ↦ rw known (record {
      sent_rows = λ e.
          p.sent_rows
            (any-map (is_sent_id j) (update_key s i h) w.db.rows (quiet_update_key s i h) e);
      posted_by = p.posted_by;
    })
    | inr new ↦ rw new (record {
      sent_rows = λ e. p.sent_rows (
          ground
            (arith, any-append (is_sent_id j) w.db.rows (fresh_row now w.db.next_id s i h ∷ [])));
      posted_by = p.posted_by;
    })
  ]

  quiet_claim_one :
      (now id : ℕ) (r : Row) → is_sent_id j (claim_one now id r) ≡ true → is_sent_id j r ≡ true
  quiet_claim_one now id r = ground arith

  has_posted-phase_of_claim : (r : Option Row) → has_posted (phase_of_claim r) j ≡ false
  has_posted-phase_of_claim none = refl
  has_posted-phase_of_claim (some r) = refl

  claim-PostedAt :
      (k id now : ℕ) (p : Phase) (w : World) → PostedAt j w → PostedAt j (claim_step k id now p w)
  unfolding claim_step claim
  claim-PostedAt k id now idle w s =
      let r : Option Row = (claim now id w.db).0 in
      map-PostedAt k (phase_of_claim r) (claim_one now id) w s (has_posted-phase_of_claim r)
        (quiet_claim_one now id)
  claim-PostedAt k id now (claimed r) w s = s
  claim-PostedAt k id now _ w s = s

  build_fails-PostedAt :
      (k : ℕ) (e : String) (p : Phase) (w : World)
      → PostedAt j w
      → PostedAt j (build_fails_step k e p w)
  unfolding build_fails_step
  build_fails-PostedAt k e (claimed r) w s =
      enter-PostedAt k (failing r false (Message.text e) none) w s refl
  build_fails-PostedAt k e _ w s = s

  post-PostedAt :
      (k : ℕ) (result : PostResult) (p : Phase) (w : World)
      → PostedAt j w
      → PostedAt j (post_step k result p w)
  unfolding post_step
  post-PostedAt k result (claimed r) w s = record {
    sent_rows = λ e. ground (arith, s.sent_rows e);
    posted_by = λ l h. ground (arith, s.posted_by l);
  }
  post-PostedAt k result _ w s = s

  quiet_conclude :
      (c : Row) (st : Status) (e : Option Message) (n : Option ℕ) (r : Row)
      → (is_sent st ≡ false) ⊎ ((c.id == j) ≡ false)
      → is_sent_id j (update_id c.id (conclude c st e n) r) ≡ true
      → is_sent_id j r ≡ true
  unfolding conclude
  quiet_conclude c st e n r h = ground arith

  -- `_finish_attempt` with another status than sent, or on another row.
  quiet_finish :
      (k : ℕ) (p : Phase) (fault : Fault) (c : Row) (st : Status) (e : Option Message)
      (n : Option ℕ) (w : World)
      → PostedAt j w
      → has_posted p j ≡ false
      → (is_sent st ≡ false) ⊎ ((c.id == j) ≡ false)
      → PostedAt j (record w {
        db = (with_fault fault w.db (finish_attempt c st e n w.db)).1;
        workers = set_phase k p w.workers;
      })
  quiet_finish k p fault c st e n w s h quiet = elim (finish_table fault c st e n w.db) [
    | inl same ↦ rw same (enter-PostedAt k p w s h)
    | inr changed ↦ rw changed (
        map-PostedAt k p (update_id c.id (conclude c st e n)) w s h
          (λ r. quiet_conclude c st e n r quiet))
  ]

  has_posted-phase_after_sent :
      (r : Row) (n : ℕ) (e : Option Message) → has_posted (phase_after_sent r n e) j ≡ false
  has_posted-phase_after_sent r n none = refl
  has_posted-phase_after_sent r n (some e) = refl

  finish_sent-PostedAt :
      (k : ℕ) (fault : Fault) (r : Row) (o : Outcome) (w : World)
      → has_posted (w.workers k) j ≡ (r.id == j)
      → PostedAt j w
      → PostedAt j (finish_sent k fault r o w)
  unfolding finish_sent
  finish_sent-PostedAt k fault r (accepted n) w here s =
      let (e, db') = with_fault fault w.db (finish_attempt r sent none (some n) w.db) in
      elim (Bool-cases (r.id == j)) [
        | inl same ↦ record {
          sent_rows = λ h. s.posted_by k (here ∙ same);
          posted_by = λ l h. s.posted_by k (here ∙ same);
        }
        | inr other ↦
            quiet_finish k (phase_after_sent r n e) fault r sent none (some n) w s
              (has_posted-phase_after_sent r n e) (inr other)
      ]
  finish_sent-PostedAt k fault r (raised started e) w here s =
      enter-PostedAt k (failing r started e none) w s refl

  complete-PostedAt :
      (k : ℕ) (fault : Fault) (p : Phase) (w : World)
      → w.workers k ≡ p
      → PostedAt j w
      → PostedAt j (complete_step k fault p w)
  complete-PostedAt k fault (posted r result) w e s =
      unfold complete_step in
      finish_sent-PostedAt k fault r (outcome result) w (ap (λ p. has_posted p j) e) s
  complete-PostedAt k fault idle w e s = unfold complete_step in s
  complete-PostedAt k fault (claimed r) w e s = unfold complete_step in s
  complete-PostedAt k fault (failing r b m n) w e s = unfold complete_step in s

  sent-held_status : (started : Bool) → is_sent (held_status started) ≡ false
  sent-held_status true = refl
  sent-held_status false = refl

  hold-PostedAt :
      (k : ℕ) (fault : Fault) (p : Phase) (w : World)
      → PostedAt j w
      → PostedAt j (hold_step k fault p w)
  unfolding hold_step
  hold-PostedAt k fault (failing r started e n) w s =
      quiet_finish k idle fault r (held_status started) (some (held_error started e n)) n w s refl
        (inl (sent-held_status started))
  hold-PostedAt k fault _ w s = s

  step-PostedAt : (e : Event) (w : World) → PostedAt j w → PostedAt j (step e w)
  unfolding step
  step-PostedAt (ingest now s i h) w p = ingest-PostedAt now s i h w p
  step-PostedAt (claim_row k id now) w p = claim-PostedAt k id now (w.workers k) w p
  step-PostedAt (build_fails k e) w p = build_fails-PostedAt k e (w.workers k) w p
  step-PostedAt (post k result) w p = post-PostedAt k result (w.workers k) w p
  step-PostedAt (complete k fault) w p = complete-PostedAt k fault (w.workers k) w refl p
  step-PostedAt (hold k fault) w p = hold-PostedAt k fault (w.workers k) w p
  step-PostedAt (crash k) w p = enter-PostedAt k idle w p refl

  run-PostedAt : (es : List Event) (w : World) → PostedAt j w → PostedAt j (run es w)
  unfolding run
  run-PostedAt [] w p = p
  run-PostedAt (e ∷ es) w p = run-PostedAt es (step e w) (step-PostedAt e w p)

  start-PostedAt : PostedAt j start
  start-PostedAt = record { sent_rows = λ h. absurd (cc); posted_by = λ k h. absurd (cc) }

  find_sent :
      (rows : List Row) (r : Row)
      → find j rows ≡ some r
      → r.status ≡ sent
      → any (is_sent_id j) rows ≡ true
  unfolding find
  find_sent [] r h e = absurd (cc)
  find_sent (x ∷ rows) r h e = ground (arith, find_sent rows r)

-- Under every schedule from an empty queue, a queue row that is marked sent was posted to SOS exactly
-- once.
pub sent_posted_once :
    (es : List Event) (j : ℕ) (r : Row)
    → find j (run es start).db.rows ≡ some r
    → r.status ≡ sent
    → count j (run es start).posts ≡ 1
sent_posted_once es j r found is_marked = omega (
  arith,
  posted_at_most_once es j,
  (run-PostedAt j es start (start-PostedAt j)).sent_rows
      (find_sent j (run es start).db.rows r found is_marked),
)

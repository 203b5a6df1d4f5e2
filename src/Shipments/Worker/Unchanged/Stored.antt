-- ===== src/Shipments/Worker/Unchanged/Stored.antt =====
-- That a shipment is stored with a hash, which no event but an ingestion of the shipment ends.
use bokser_app.Prelude.{
  ℕ, String, ◌≡◌, refl, Bool, true, false, not, ◌&&◌, ◌||◌, Option, none, some, List, [], ◌∷◌, ◌++◌,
  map, any, All, arith, str_eq, eq_iff, any-append, Bool-cases, Option-cases, inl, inr,
}
use bokser_app.Shipments.Queue.{
  Row, Db, Status, Message, hash_eq, has_key, find, conflict_update, update_key, fresh_row,
  shipment_sync_upsert, claim_one, claim, is_acknowledged, conclude, update_id, finish_attempt,
}
use bokser_app.Shipments.Response.{PostResult, Outcome, accepted, raised, outcome}
use bokser_app.Shipments.Worker.{
  Phase, idle, claimed, posted, failing, Fault, no_fault, before_commit, after_commit, Event,
  ingest, claim_row, build_fails, post, complete, hold, crash, World, claim_step, build_fails_step,
  post_step, with_fault, finish_sent, complete_step, held_status, held_error, hold_step, step, run,
}

-- The event is an ingestion of the shipment.
abbrev pub ingests : String → String → Event → Bool
ingests s i (ingest now s' i' h) = str_eq s' s && str_eq i' i
ingests s i _ = false

module _ (s i h : String) where
  -- If the row is one of the shipment, it has the hash.
  abbrev pub fits : Row → Bool
  fits r = not (has_key s i r) || hash_eq r.payload_hash (some h)

  abbrev pub Fits : Row → Type 0
  Fits r = fits r ≡ true

  -- The shipment has a row, and its rows have the hash.
  abbrev pub IsStored : List Row → Type 0
  IsStored rows = (any (has_key s i) rows ≡ true) × All Fits rows

  -- A change of rows that keeps the keys, and the hash of the shipment's rows.
  abbrev Keeps : (Row → Row) → Type 0
  Keeps g = (r : Row) → (has_key s i (g r) ≡ has_key s i r) × (fits r ≡ true → fits (g r) ≡ true)

  IsStored-map : (g : Row → Row) (rows : List Row) → Keeps g → IsStored rows → IsStored (map g rows)
  IsStored-map g rows k st = (known rows st.0, all_fit rows st.1)
    where
      known :
          (rows : List Row) → any (has_key s i) rows ≡ true → any (has_key s i) (map g rows) ≡ true
      known [] a = a
      known (r ∷ rows) a = ground (arith, (k r).0, known rows)

      all_fit : (rows : List Row) → All Fits rows → All Fits (map g rows)
      all_fit [] a = tt
      all_fit (r ∷ rows) a = ((k r).1 a.0, all_fit rows a.1)

  claim_one-Keeps : (now id : ℕ) → Keeps (claim_one now id)
  claim_one-Keeps now id r = ground arith

  conclude-Keeps :
      (j : ℕ) (c : Row) (st : Status) (e : Option Message) (n : Option ℕ)
      → Keeps (update_id j (conclude c st e n))
  unfolding conclude
  conclude-Keeps j c st e n r = ground arith

  other-Keeps :
      (s' i' h' : String) → (str_eq s' s && str_eq i' i) ≡ false → Keeps (update_key s' i' h')
  unfolding conflict_update
  other-Keeps s' i' h' other r = ground (
    arith,
    eq_iff r.source s,
    eq_iff r.source s',
    eq_iff r.source_id i,
    eq_iff r.source_id i',
    eq_iff s' s,
    eq_iff i' i,
  )

  finish-IsStored :
      (c : Row) (st : Status) (e : Option Message) (n : Option ℕ) (db : Db)
      → IsStored db.rows
      → IsStored (finish_attempt c st e n db).1.rows
  unfolding finish_attempt
  finish-IsStored c st e n db h = elim (Option-cases (find c.id db.rows)) [
    | inl gone ↦ rw (gone, finish_attempt) h
    | inr (row, there) ↦
        rw (there, finish_attempt)
          (elim (Bool-cases (is_acknowledged n row)) [
            | inl known ↦ rw known h
            | inr new ↦ rw new (
                IsStored-map (update_id c.id (conclude c st e n)) db.rows
                  (conclude-Keeps c.id c st e n) h)
          ])
  ]

  fault-IsStored :
      (x : Fault) (db : Db) (r : Option Message × Db)
      → IsStored db.rows
      → IsStored r.1.rows
      → IsStored (with_fault x db r).1.rows
  fault-IsStored no_fault db r a b = b
  fault-IsStored before_commit db r a b = a
  fault-IsStored after_commit db r a b = b

  claim_step-IsStored :
      (k id now : ℕ) (p : Phase) (w : World)
      → IsStored w.db.rows
      → IsStored (claim_step k id now p w).db.rows
  unfolding claim_step claim
  claim_step-IsStored k id now idle w h =
      IsStored-map (claim_one now id) w.db.rows (claim_one-Keeps now id) h
  claim_step-IsStored k id now (claimed r) w h = h
  claim_step-IsStored k id now (posted r x) w h = h
  claim_step-IsStored k id now (failing r b e n) w h = h

  finish_sent-IsStored :
      (k : ℕ) (x : Fault) (r : Row) (o : Outcome) (w : World)
      → IsStored w.db.rows
      → IsStored (finish_sent k x r o w).db.rows
  unfolding finish_sent
  finish_sent-IsStored k x r (accepted n) w h =
      fault-IsStored x w.db _ h (finish-IsStored r Status.sent none (some n) w.db h)
  finish_sent-IsStored k x r (raised b e) w h = h

  complete_step-IsStored :
      (k : ℕ) (x : Fault) (p : Phase) (w : World)
      → IsStored w.db.rows
      → IsStored (complete_step k x p w).db.rows
  unfolding complete_step
  complete_step-IsStored k x idle w h = h
  complete_step-IsStored k x (claimed r) w h = h
  complete_step-IsStored k x (posted r a) w h = finish_sent-IsStored k x r (outcome a) w h
  complete_step-IsStored k x (failing r b e n) w h = h

  hold_step-IsStored :
      (k : ℕ) (x : Fault) (p : Phase) (w : World)
      → IsStored w.db.rows
      → IsStored (hold_step k x p w).db.rows
  unfolding hold_step
  hold_step-IsStored k x idle w h = h
  hold_step-IsStored k x (claimed r) w h = h
  hold_step-IsStored k x (posted r a) w h = h
  hold_step-IsStored k x (failing r b e n) w h =
      fault-IsStored x w.db _ h
        (finish-IsStored r (held_status b) (some (held_error b e n)) n w.db h)

  post_step-rows : (k : ℕ) (a : PostResult) (p : Phase) (w : World) → (post_step k a p w).db ≡ w.db
  unfolding post_step
  post_step-rows k a idle w = refl
  post_step-rows k a (claimed r) w = refl
  post_step-rows k a (posted r x) w = refl
  post_step-rows k a (failing r b e n) w = refl

  build_fails_step-rows :
      (k : ℕ) (e : String) (p : Phase) (w : World) → (build_fails_step k e p w).db ≡ w.db
  unfolding build_fails_step
  build_fails_step-rows k e idle w = refl
  build_fails_step-rows k e (claimed r) w = refl
  build_fails_step-rows k e (posted r x) w = refl
  build_fails_step-rows k e (failing r b m n) w = refl

  pub fits_append :
      (rows : List Row) (r : Row) → All Fits rows → fits r ≡ true → All Fits (rows ++ r ∷ [])
  fits_append [] r a f = (f, tt)
  fits_append (x ∷ rows) r a f = (a.0, fits_append rows r a.1 f)

  other-IsStored :
      (now : ℕ) (s' i' h' : String) (db : Db)
      → (str_eq s' s && str_eq i' i) ≡ false
      → IsStored db.rows
      → IsStored (shipment_sync_upsert now s' i' h' db).rows
  unfolding shipment_sync_upsert
  other-IsStored now s' i' h' db other st = elim (Bool-cases (any (has_key s' i') db.rows)) [
    | inl known ↦
        rw known (IsStored-map (update_key s' i' h') db.rows (other-Keeps s' i' h' other) st)
    | inr new ↦
        let r : Row = fresh_row now db.next_id s' i' h' in
        rw new (
          ground (arith, any-append (has_key s i) db.rows (r ∷ []), st.0),
          fits_append db.rows r st.1 (ground (arith, other)),
        )
  ]

  step-IsStored :
      (e : Event) (w : World)
      → ingests s i e ≡ false
      → IsStored w.db.rows
      → IsStored (step e w).db.rows
  unfolding step
  step-IsStored (ingest now s' i' h') w q st = other-IsStored now s' i' h' w.db q st
  step-IsStored (claim_row k id now) w q st = claim_step-IsStored k id now (w.workers k) w st
  step-IsStored (build_fails k e) w q st = rw (build_fails_step-rows k e (w.workers k) w) st
  step-IsStored (post k a) w q st = rw (post_step-rows k a (w.workers k) w) st
  step-IsStored (complete k x) w q st = complete_step-IsStored k x (w.workers k) w st
  step-IsStored (hold k x) w q st = hold_step-IsStored k x (w.workers k) w st
  step-IsStored (crash k) w q st = st

  -- A run in which the shipment is not ingested keeps it stored.
  pub run-IsStored :
      (es : List Event) (w : World)
      → any (ingests s i) es ≡ false
      → IsStored w.db.rows
      → IsStored (run es w).db.rows
  unfolding run
  run-IsStored [] w q st = st
  run-IsStored (e ∷ es) w q st =
      run-IsStored es (step e w) (ground (arith, q)) (step-IsStored e w (ground (arith, q)) st)

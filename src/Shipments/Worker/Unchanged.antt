-- ===== src/Shipments/Worker/Unchanged.antt =====
-- A payload that is ingested again, though workers ran meanwhile.
mod Stored
use bokser_app.Prelude.{
  ℕ, String, ◌≡◌, refl, Bool, true, false, not, ◌&&◌, ◌||◌, Option, none, some, List, [], ◌∷◌, ◌++◌,
  map, any, All, arith, str_eq, eq_iff, any-append, Bool-cases, Option-cases, inl, inr, ap,
}
use bokser_app.Shipments.Queue.{
  Row, Db, Status, Message, hash_eq, has_key, find, conflict_update, update_key, fresh_row,
  shipment_sync_upsert, claim_one, claim, is_acknowledged, conclude, update_id, finish_attempt,
}
use bokser_app.Shipments.Response.{PostResult, Outcome, accepted, raised, outcome}
use bokser_app.Shipments.Worker.{
  Phase, idle, claimed, posted, failing, Fault, no_fault, before_commit, after_commit, Event,
  ingest, claim_row, build_fails, post, complete, hold, crash, World, claim_step, build_fails_step,
  post_step, with_fault, finish_sent, complete_step, held_status, held_error, hold_step, step, run,
}
use bokser_app.Shipments.Worker.Unchanged.Stored.{
  ingests, fits, Fits, IsStored, fits_append, run-IsStored,
}

module _ (s i h : String) where
  own_fits : (r : Row) → fits s i h (update_key s i h r) ≡ true
  unfolding conflict_update
  own_fits r = ground (arith, eq_iff h h)

  own_key : (r : Row) → has_key s i (update_key s i h r) ≡ has_key s i r
  unfolding conflict_update
  own_key r = ground arith

  absent_fit : (rows : List Row) → any (has_key s i) rows ≡ false → All (Fits s i h) rows
  absent_fit [] a = tt
  absent_fit (r ∷ rows) a = (ground (arith, a), absent_fit rows (ground (arith, a)))

  -- The ingestion stores the hash.
  upsert-IsStored : (now : ℕ) (db : Db) → IsStored s i h (shipment_sync_upsert now s i h db).rows
  unfolding shipment_sync_upsert
  upsert-IsStored now db = elim (Bool-cases (any (has_key s i) db.rows)) [
    | inl known ↦ rw known (keys db.rows known, all_own db.rows)
    | inr new ↦
        let r : Row = fresh_row now db.next_id s i h in
        rw new (
          ground (arith, any-append (has_key s i) db.rows (r ∷ []), eq_iff s s, eq_iff i i),
          fits_append s i h db.rows r (absent_fit db.rows new) (ground (arith, eq_iff h h)),
        )
  ]
    where
      keys :
          (rows : List Row)
          → any (has_key s i) rows ≡ true
          → any (has_key s i) (map (update_key s i h) rows) ≡ true
      keys [] a = a
      keys (r ∷ rows) a = ground (arith, own_key r, keys rows)

      all_own : (rows : List Row) → All (Fits s i h) (map (update_key s i h) rows)
      all_own [] = tt
      all_own (r ∷ rows) = (own_fits r, all_own rows)

  fits_same : (r : Row) → fits s i h r ≡ true → update_key s i h r ≡ r
  unfolding conflict_update
  fits_same r f = ground (arith, f)

  fitting_same : (rows : List Row) → All (Fits s i h) rows → map (update_key s i h) rows ≡ rows
  fitting_same [] a = refl
  fitting_same (r ∷ rows) a = rw (fits_same r a.0, fitting_same rows a.1)

  stored_same :
      (now : ℕ) (db : Db) → IsStored s i h db.rows → shipment_sync_upsert now s i h db ≡ db
  unfolding shipment_sync_upsert
  stored_same now db st =
      rw st.0 (ap (λ (rows : List Row). record db { rows = rows }) (fitting_same db.rows st.1))

-- Once a shipment is ingested, ingesting it again with the same hash changes nothing in the queue,
-- whatever the workers did meanwhile: no row is held, reopened or added, be it pending, in progress,
-- sent, failed or held. The condition is that no other ingestion of the shipment came between.
pub unchanged_ingest :
    (now later : ℕ) (s i h : String) (es : List Event) (w : World)
    → any (ingests s i) es ≡ false
    → let w' = run es (step (ingest now s i h) w) in step (ingest later s i h) w' ≡ w'
unchanged_ingest now later s i h es w q =
    let w₁ : World = step (ingest now s i h) w in
    let w' : World = run es w₁ in
    let first : IsStored s i h w₁.db.rows = unfold step in upsert-IsStored s i h now w.db in
    unfold step in
    ap (λ (db : Db). record w' { db = db })
      (stored_same s i h later w'.db (run-IsStored s i h es w₁ q first))

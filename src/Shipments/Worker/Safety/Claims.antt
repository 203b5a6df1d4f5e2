-- ===== src/Shipments/Worker/Safety/Claims.antt =====
-- The ingestion and the claims keep the invariant.
use bokser_app.Prelude.{
  ℕ, suc, String, ◌≡◌, refl, true, false, some, List, [], ◌∷◌, ◌++◌, map, any, arith, ◌==◌, sym,
  ◌∙◌, inl, inr, Option-cases, Bool-cases, any-append,
}
use bokser_app.Shipments.Queue.{
  Row, fresh_row, update_key, shipment_sync_upsert, has_key, is_claimable, mark_processing,
  claim_one, first_claimable, claim,
}
use bokser_app.Shipments.Worker.{Phase, idle, claimed, World, set_phase, claim_step, enter}
use bokser_app.Shipments.Worker.Safety.{
  any_claimable, holds, SafeAt, keep, keep_map, set_phase_back, quiet_update_key,
}

module _ (j : ℕ) where
  pub enter-SafeAt :
      (k : ℕ) (p : Phase) (w : World) → SafeAt j w → holds p j ≡ false → SafeAt j (enter k p w)
  enter-SafeAt k p w s h =
      keep j w w.db (set_phase k p w.workers) s (omega arith) s.fresh_rows s.waiting
        (set_phase_back j k p w.workers h)

  pub ingest-SafeAt :
      (now : ℕ) (s i h : String) (w : World)
      → SafeAt j w
      → SafeAt j (record w { db = shipment_sync_upsert now s i h w.db })
  unfolding shipment_sync_upsert
  ingest-SafeAt now s i h w safe = elim (Bool-cases (any (has_key s i) w.db.rows)) [
    | inl known ↦
        rw known
          (keep_map j w (update_key s i h) w.workers safe (quiet_update_key j s i h) (λ k e. e))
    | inr new ↦ rw new (
        keep j w
          (record {
            rows = w.db.rows ++ fresh_row now w.db.next_id s i h ∷ [];
            next_id = suc w.db.next_id;
          })
          w.workers safe (omega arith)
          (λ le. ground (
            arith,
            any-append (is_claimable j) w.db.rows (fresh_row now w.db.next_id s i h ∷ []),
            safe.fresh_rows (omega arith),
          ))
          (λ c. elim (Bool-cases (any_claimable j w.db.rows)) [
            | inl old ↦ safe.waiting old
            | inr none_old ↦ safe.fresh_waits (
                ground (
                  arith,
                  any-append (is_claimable j) w.db.rows (fresh_row now w.db.next_id s i h ∷ []),
                ))
          ])
          (λ k e. e))
  ]

  -- After the claim no row with the id is claimable.
  none_left :
      (now : ℕ) (rows : List Row) → any (is_claimable j) (map (claim_one now j) rows) ≡ false
  none_left now [] = refl
  none_left now (r ∷ rows) = ground (arith, none_left now rows)

  other_claims :
      (now id : ℕ) (r : Row) → is_claimable j (claim_one now id r) ≡ true → is_claimable j r ≡ true
  other_claims now id r = ground arith

  claim_found :
      (id : ℕ) (rows : List Row) (r : Row)
      → first_claimable id rows ≡ some r
      → (r.id ≡ id) × (any (is_claimable id) rows ≡ true)
  unfolding first_claimable
  claim_found id [] r h = absurd (cc)
  claim_found id (x ∷ rows) r h = ground (arith, claim_found id rows r)

  claim_other :
      (k id now : ℕ) (w : World) (p : Phase)
      → SafeAt j w
      → holds p j ≡ false
      → SafeAt j (record w {
        db = record w.db { rows = map (claim_one now id) w.db.rows };
        workers = set_phase k p w.workers;
      })
  claim_other k id now w p s h =
      keep_map j w (claim_one now id) (set_phase k p w.workers) s (other_claims now id)
        (set_phase_back j k p w.workers h)

  -- The worker takes an id that waits, and is its one holder.
  claim_self :
      (k now : ℕ) (w : World) (r : Row)
      → SafeAt j w
      → r.id ≡ j
      → any_claimable j w.db.rows ≡ true
      → SafeAt j (record w {
        db = record w.db { rows = map (claim_one now j) w.db.rows };
        workers = set_phase k (claimed r) w.workers;
      })
  claim_self k now w r s e c = record {
    once = s.once;
    fresh_rows = λ le. none_left now w.db.rows;
    fresh_waits = λ le. absurd (cc (s.fresh_rows le));
    waiting = λ h. absurd (cc (none_left now w.db.rows));
    holding = λ l h. (s.waiting c).no_post;
    single = λ l m hl hm. sole l hl ∙ sym (sole m hm);
  }
    where
      sole : (l : ℕ) → holds (set_phase k (claimed r) w.workers l) j ≡ true → l ≡ k
      sole l h = ground (arith, (s.waiting c).no_holder l)

  pub claim-SafeAt : (k id now : ℕ) (w : World) → SafeAt j w → SafeAt j (claim_step k id now idle w)
  unfolding claim_step claim
  claim-SafeAt k id now w s = elim (Option-cases (first_claimable id w.db.rows)) [
    | inl e ↦ rw e (claim_other k id now w idle s refl)
    | inr (r, e) ↦ elim (Bool-cases (r.id == j)) [
      | inl same ↦ rw e (claim_found_self k id now w r s (claim_found id w.db.rows r e) same)
      | inr other ↦ rw e (claim_other k id now w (claimed (mark_processing now r)) s other)
    ]
  ]
    where
      claim_found_self :
          (k id now : ℕ) (w : World) (r : Row)
          → SafeAt j w
          → (r.id ≡ id) × (any_claimable id w.db.rows ≡ true)
          → (r.id == j) ≡ true
          → SafeAt j (record w {
            db = record w.db { rows = map (claim_one now id) w.db.rows };
            workers = set_phase k (claimed (mark_processing now r)) w.workers;
          })
      claim_found_self k id now w r s (e, c) same =
          let ji : id ≡ j = ground arith in
          rw ji (claim_self k now w (mark_processing now r) s (ground arith) (rw ji at c))

-- ===== src/Shipments/Queue/Ingest.antt =====
-- What an ingestion of a shipment does to the queue.
use mathlib.Core.Option
use bokser_app.Prelude.{
  ◌⊎◌, ℕ, String, ◌≡◌, refl, true, false, some, List, [], ◌∷◌, ◌++◌, map, any, arith, inl, inr,
  Bool-cases, eq_iff, any-append, ap, sym, ◌∙◌,
}
use bokser_app.Shipments.Queue.Find.{find-upsert_known, find-append_some}
use bokser_app.Shipments.Queue.{
  Row, Db, reconcile, find, hash_eq, has_key, update_key, conflict_update, shipment_sync_upsert,
  fresh_row, is_held, payload_changed,
}

-- No two rows have one (source, source_id): the constraint `ux_sos_shipment_sync_source_key`.
abbrev pub KeysDiffer : List Row → Type 0
KeysDiffer [] = Unit
KeysDiffer (r ∷ rows) = (any (has_key r.source r.source_id) rows ≡ false) × KeysDiffer rows

has_key-update_key :
    (s i : String) (s' i' h : String) (r : Row)
    → has_key s' i' (update_key s i h r) ≡ has_key s' i' r
unfolding conflict_update
has_key-update_key s i s' i' h r = ground arith

any-has_key-map :
    (s i s' i' h : String) (rows : List Row)
    → any (has_key s' i') (map (update_key s i h) rows) ≡ any (has_key s' i') rows
any-has_key-map s i s' i' h [] = refl
any-has_key-map s i s' i' h (r ∷ rows) =
    ground (arith, has_key-update_key s i s' i' h r, any-has_key-map s i s' i' h rows)

source-update_key :
    (s i h : String) (r : Row)
    → ((update_key s i h r).source ≡ r.source) × ((update_key s i h r).source_id ≡ r.source_id)
unfolding conflict_update
source-update_key s i h r = ground arith

KeysDiffer-map :
    (s i h : String) (rows : List Row) → KeysDiffer rows → KeysDiffer (map (update_key s i h) rows)
KeysDiffer-map s i h [] k = tt
KeysDiffer-map s i h (r ∷ rows) k = (
  rw ((source-update_key s i h r).0, (source-update_key s i h r).1)
      (any-has_key-map s i r.source r.source_id h rows ∙ k.0),
  KeysDiffer-map s i h rows k.1,
)

KeysDiffer-append :
    (r : Row) (rows : List Row)
    → KeysDiffer rows
    → any (has_key r.source r.source_id) rows ≡ false
    → KeysDiffer (rows ++ r ∷ [])
KeysDiffer-append r [] k new = (refl, tt)
KeysDiffer-append r (x ∷ rows) k new = (
  ground (
    arith,
    any-append (has_key x.source x.source_id) rows (r ∷ []),
    eq_iff x.source r.source,
    eq_iff x.source_id r.source_id,
    eq_iff r.source x.source,
    eq_iff r.source_id x.source_id,
  ),
  KeysDiffer-append r rows k.1 (ground arith),
)

-- The ingestion keeps one row for each shipment: its statement never violates the unique constraint.
pub upsert-KeysDiffer :
    (now : ℕ) (s i h : String) (db : Db)
    → KeysDiffer db.rows
    → KeysDiffer (shipment_sync_upsert now s i h db).rows
unfolding shipment_sync_upsert
upsert-KeysDiffer now s i h db k = elim (Bool-cases (any (has_key s i) db.rows)) [
  | inl known ↦ rw known (KeysDiffer-map s i h db.rows k)
  | inr new ↦ rw new (KeysDiffer-append (fresh_row now db.next_id s i h) db.rows k new)
]

-- What an ingestion makes of a row, in its three cases.
abbrev pub Ingested : String → String → String → Row → Row → Type 0
Ingested s i h r r' =
    ((r' ≡ r) × ((has_key s i r ≡ false) ⊎ (hash_eq r.payload_hash (some h) ≡ true)))
    ⊎ ((has_key s i r ≡ true)
        × (hash_eq r.payload_hash (some h) ≡ false)
        × (r'.payload_hash ≡ some h)
        × (((is_held r.status ≡ true)
              × (r'.status ≡ reconcile)
              × (r'.last_error ≡ some payload_changed))
            ⊎ ((is_held r.status ≡ false)
                × (r'.status ≡ r.status)
                × (r'.last_error ≡ r.last_error))))

changed_row : (s i h : String) (r : Row) → Ingested s i h r (update_key s i h r)
unfolding conflict_update
changed_row s i h r = ground arith

other_row : (s i h : String) (r : Row) → has_key s i r ≡ false → update_key s i h r ≡ r
other_row s i h r other = ground arith

absent_row :
    (s i : String) (j : ℕ) (rows : List Row) (r : Row)
    → any (has_key s i) rows ≡ false
    → find j rows ≡ some r
    → has_key s i r ≡ false
unfolding find
absent_row s i j [] r absent e = absurd (cc)
absent_row s i j (x ∷ rows) r absent e = ground (arith, absent_row s i j rows r)

find-upsert :
    (now : ℕ) (s i h : String) (db : Db) (j : ℕ) (r : Row)
    → find j db.rows ≡ some r
    → find j (shipment_sync_upsert now s i h db).rows ≡ some (update_key s i h r)
find-upsert now s i h db j r e = elim (Bool-cases (any (has_key s i) db.rows)) [
  | inl known ↦ find-upsert_known now s i h db j known ∙ ap (Option.map (update_key s i h)) e
  | inr new ↦
      unfold shipment_sync_upsert in
      rw new (
        find-append_some j db.rows (fresh_row now db.next_id s i h) r e
        ∙ ap some (sym (other_row s i h r (absent_row s i j db.rows r new e))))
]

-- Ingestion of a payload hash for (source, source id), seen by any row that was in the table: the row
-- stays; it is untouched if it has another key or the same hash already; otherwise it takes the new
-- hash, and is held for reconciliation with the reason recorded if its post was completed, is in
-- progress or is uncertain. A pending or failed row keeps its status.
pub ingest_row :
    (now : ℕ) (s i h : String) (db : Db) (j : ℕ) (r : Row)
    → find j db.rows ≡ some r
    → (r' : Row) × (find j (shipment_sync_upsert now s i h db).rows ≡ some r') × Ingested s i h r r'
ingest_row now s i h db j r e =
    (update_key s i h r, find-upsert now s i h db j r e, changed_row s i h r)

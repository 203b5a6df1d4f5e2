-- ===== src/Shipments/Queue/Find.antt =====
-- What each operation of the queue does to the row with a given primary key.
use mathlib.Core.Option
use bokser_app.Prelude.{
  ℕ, String, ◌≡◌, refl, ◌≢◌, true, Option, none, some, List, [], ◌∷◌, ◌++◌, map, any, arith, ◌==◌,
  if◌then◌else◌, ap, ◌⊎◌, inl, inr, Option-cases,
}
use bokser_app.Shipments.Queue.{
  Row, Db, Status, Message, find, conflict_update, update_key, shipment_sync_upsert, has_key,
  claim_one, claim, conclude, update_id, is_acknowledged, finish_attempt,
}

pub find_id : (j : ℕ) (rows : List Row) (r : Row) → find j rows ≡ some r → r.id ≡ j
unfolding find
find_id j [] r h = absurd (cc)
find_id j (x ∷ rows) r h = ground (arith, find_id j rows r)

pub find-map :
    (g : Row → Row) (j : ℕ) (rows : List Row)
    → ((r : Row) → (g r).id ≡ r.id)
    → find j (map g rows) ≡ Option.map g (find j rows)
unfolding find
find-map g j [] keeps = refl
find-map g j (r ∷ rows) keeps = ground (arith, keeps r, find-map g j rows keeps)

pub find-append :
    (j : ℕ) (rows : List Row) (r : Row)
    → find j rows ≡ none
    → find j (rows ++ r ∷ []) ≡ (if r.id == j then some r else none)
unfolding find
find-append j [] r h = refl
find-append j (x ∷ rows) r h = ground (arith, find-append j rows r)

pub find-append_some :
    (j : ℕ) (rows : List Row) (r x : Row) → find j rows ≡ some x → find j (rows ++ r ∷ []) ≡ some x
unfolding find
find-append_some j [] r x h = absurd (cc)
find-append_some j (y ∷ rows) r x h = ground (arith, find-append_some j rows r x)

pub id-conflict_update : (h : String) (r : Row) → (conflict_update h r).id ≡ r.id
unfolding conflict_update
id-conflict_update h r = ground arith

id-update_key : (s i h : String) (r : Row) → (update_key s i h r).id ≡ r.id
id-update_key s i h r = ground (arith, id-conflict_update h r)

pub find-upsert_known :
    (now : ℕ) (s i h : String) (db : Db) (j : ℕ)
    → any (has_key s i) db.rows ≡ true
    → find j (shipment_sync_upsert now s i h db).rows
      ≡ Option.map (update_key s i h) (find j db.rows)
unfolding shipment_sync_upsert
find-upsert_known now s i h db j known =
    rw known (find-map (update_key s i h) j db.rows (id-update_key s i h))

pub id-claim_one : (now id : ℕ) (r : Row) → (claim_one now id r).id ≡ r.id
id-claim_one now id r = ground arith

pub find-claim :
    (now id : ℕ) (db : Db) (j : ℕ)
    → find j (claim now id db).1.rows ≡ Option.map (claim_one now id) (find j db.rows)
unfolding claim
find-claim now id db j = find-map (claim_one now id) j db.rows (id-claim_one now id)

id-conclude :
    (c : Row) (st : Status) (e : Option Message) (n : Option ℕ) (r : Row)
    → (conclude c st e n r).id ≡ r.id
unfolding conclude
id-conclude c st e n r = ground arith

pub id-update_id :
    (c : Row) (st : Status) (e : Option Message) (n : Option ℕ) (r : Row)
    → (update_id c.id (conclude c st e n) r).id ≡ r.id
id-update_id c st e n r = ground (arith, id-conclude c st e n r)

-- What `_finish_attempt` makes of a row.
unfoldable pub finished : Row → Status → Option Message → Option ℕ → Row → Row
finished c st e n r = if is_acknowledged n r then r else conclude c st e n r

finish_none :
    (c : Row) (st : Status) (e : Option Message) (n : Option ℕ) (db : Db)
    → find c.id db.rows ≡ none
    → (finish_attempt c st e n db).1 ≡ db
unfolding finish_attempt
finish_none c st e n db h = rw (h, finish_attempt)

finish_some :
    (c : Row) (st : Status) (e : Option Message) (n : Option ℕ) (db : Db) (r : Row)
    → find c.id db.rows ≡ some r
    → (finish_attempt c st e n db).1.rows
      ≡ (if is_acknowledged n r then db.rows else map (update_id c.id (conclude c st e n)) db.rows)
unfolding finish_attempt
finish_some c st e n db r h = rw (h, finish_attempt) (ground arith)

-- A row other than the claimed one is left alone.
other_row :
    (c : Row) (f : Row → Row) (j : ℕ) (rows : List Row)
    → (c.id ≢ j) ⊎ (find c.id rows ≡ none)
    → find j rows ≡ Option.map (update_id c.id f) (find j rows)
other_row c f j rows (inl ne) = elim (Option-cases (find j rows)) [
  | inl e ↦ rw e
  | inr (x, e) ↦ rw e (ground (arith, find_id j rows x e))
]
other_row c f j rows (inr gone) = elim (Option-cases (find j rows)) [
  | inl e ↦ rw e
  | inr (x, e) ↦
      rw e (ground (arith, find_id j rows x e, ap (λ i. find i rows) (find_id j rows x e)))
]

pub find-finish :
    (c : Row) (st : Status) (e : Option Message) (n : Option ℕ) (db : Db) (j : ℕ)
    → find j (finish_attempt c st e n db).1.rows
      ≡ Option.map (update_id c.id (finished c st e n)) (find j db.rows)
unfolding finished
find-finish c st e n db j = elim (Option-cases (find c.id db.rows)) [
  | inl gone ↦
      rw (finish_none c st e n db gone) (other_row c (finished c st e n) j db.rows (inr gone))
  | inr (r, found) ↦ rw (finish_some c st e n db r found) (elim (Option-cases (find j db.rows)) [
    | inl absent ↦ rw absent (
        ground
          (arith, find-map (update_id c.id (conclude c st e n)) j db.rows (id-update_id c st e n)))
    | inr (x, present) ↦ rw present (
        ground (
          arith,
          find-map (update_id c.id (conclude c st e n)) j db.rows (id-update_id c st e n),
          find_id j db.rows x present,
          ap (λ i. find i db.rows) (find_id j db.rows x present),
        ))
  ])
]

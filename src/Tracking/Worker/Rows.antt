-- ===== src/Tracking/Worker/Rows.antt =====
-- What the calls of the store do to the row of one operation.
use bokser_app.Prelude.{
  Bool, ℕ, suc, ◌+◌, ◌≤◌, String, ◌≡◌, refl, subst, ◌⊎◌, true, false, Option, none, some, List, [],
  ◌∷◌, ◌++◌, map, any, arith, str_eq, eq_iff, if◌then◌else◌, inl, inr, Bool-cases,
}
use bokser_app.Tracking.Store.{
  Row, has_id, is_active, where_id, is_due, is_before, earlier, next_initiation,
}

unfoldable pub find_row : String → List Row → Option Row
find_row j [] = none
find_row j (r ∷ rows) = if has_id j r then some r else find_row j rows

abbrev pub count_row : String → List Row → ℕ
count_row j [] = 0
count_row j (r ∷ rows) = if has_id j r then suc (count_row j rows) else count_row j rows

abbrev pub on_row : (Row → Row) → Option Row → Option Row
on_row f none = none
on_row f (some r) = some (f r)

module _ (f : Row → Row) (same : (r : Row) → (f r).operation_id ≡ r.operation_id) where
  -- An update of the rows with an id: of that row, and of no other.
  pub find-where_own :
      (j : String) (rows : List Row)
      → find_row j (map (where_id j f) rows) ≡ on_row f (find_row j rows)
  unfolding find_row
  find-where_own j [] = refl
  find-where_own j (r ∷ rows) = ground (arith, same r, find-where_own j rows)

  pub find-where_other :
      (i j : String) (rows : List Row)
      → str_eq i j ≡ false
      → find_row j (map (where_id i f) rows) ≡ find_row j rows
  unfolding find_row
  find-where_other i j [] h = refl
  find-where_other i j (r ∷ rows) h = ground (
    arith,
    same r,
    eq_iff i j,
    eq_iff r.operation_id i,
    eq_iff r.operation_id j,
    find-where_other i j rows h,
  )

  pub count-where :
      (i j : String) (rows : List Row) → count_row j (map (where_id i f) rows) ≡ count_row j rows
  count-where i j [] = refl
  count-where i j (r ∷ rows) = ground (arith, same r, count-where i j rows)

find-count :
    (j : String) (r : Row) (rows : List Row) → find_row j rows ≡ some r → 1 ≤ count_row j rows
unfolding find_row
find-count j r [] h = absurd (cc)
find-count j r (s ∷ rows) h = ground (arith, find-count j r rows)

find-has_id :
    (j : String) (r : Row) (rows : List Row) → find_row j rows ≡ some r → has_id j r ≡ true
unfolding find_row
find-has_id j r [] h = absurd (cc)
find-has_id j r (s ∷ rows) h = ground (arith, find-has_id j r rows)

earlier-cases :
    (tie : Row → Row → Bool) (s r : Row) (o : Option Row)
    → earlier tie s o ≡ some r
    → (s ≡ r) ⊎ (o ≡ some r)
earlier-cases tie s r none h = inl (cc)
earlier-cases tie s r (some t) h = elim (Bool-cases (is_before tie t s)) [
  | inl later ↦ inr (ground (arith, later))
  | inr first ↦ inl (ground (arith, first))
]

next-cases :
    (tie : Row → Row → Bool) (now : ℕ) (s r : Row) (rows : List Row)
    → next_initiation tie now (s ∷ rows) ≡ some r
    → ((s ≡ r) × (is_due now s ≡ true)) ⊎ (next_initiation tie now rows ≡ some r)
unfolding next_initiation
next-cases tie now s r rows h = elim (Bool-cases (is_due now s)) [
  | inl due ↦ elim (earlier-cases tie s r (next_initiation tie now rows) (ground (arith, due))) [
    | inl this ↦ inl (this, due)
    | inr rest ↦ inr rest
  ]
  | inr idle ↦ inr (ground (arith, idle))
]

-- The row that a round begins with is the row of its operation, and the operation is not over.
pub next-find :
    (tie : Row → Row → Bool) (now : ℕ) (r : Row) (rows : List Row)
    → next_initiation tie now rows ≡ some r
    → count_row r.operation_id rows ≤ 1
    → (find_row r.operation_id rows ≡ some r) × (is_active r.status ≡ true)
unfolding find_row
next-find tie now r [] h u = absurd (unfold next_initiation in cc)
next-find tie now r (s ∷ rows) h u = elim (next-cases tie now s r rows h) [
  | inl (this, due) ↦
      subst
        (λ (x : Row). (find_row x.operation_id (s ∷ rows) ≡ some x) × (is_active x.status ≡ true))
        this (ground (arith, eq_iff s.operation_id s.operation_id, due))
  | inr there ↦
      let found = next-find tie now r rows there (ground arith) in
      ground (arith, found.0, found.1, find-count r.operation_id r rows found.0)
]

pub find-append :
    (j : String) (rows : List Row) (r : Row)
    → find_row j (rows ++ r ∷ [])
      ≡ elim (find_row j rows) [ none ↦ if has_id j r then some r else none | some s ↦ some s ]
unfolding find_row
find-append j [] r = refl
find-append j (s ∷ rows) r = ground (arith, find-append j rows r)

pub count-append :
    (j : String) (rows : List Row) (r : Row)
    → count_row j (rows ++ r ∷ []) ≡ count_row j rows + (if has_id j r then 1 else 0)
count-append j [] r = ground arith
count-append j (s ∷ rows) r = ground (arith, count-append j rows r)

pub absent :
    (j : String) (rows : List Row)
    → any (has_id j) rows ≡ false
    → (find_row j rows ≡ none) × (count_row j rows ≡ 0)
unfolding find_row
absent j [] h = (refl, refl)
absent j (r ∷ rows) h = ground (arith, absent j rows)

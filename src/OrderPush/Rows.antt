-- ===== src/OrderPush/Rows.antt =====
-- What a push leaves in the rows of the order's lines, and of other lines.
use bokser_app.Prelude.{
  ℕ, String, ◌≡◌, refl, false, Option, none, some, List, [], ◌∷◌, any, All, arith, str_eq, eq_iff,
  if◌then◌else◌, ap, ◌∙◌, inl, inr, Bool-cases,
}
use bokser_app.OrderPush.{
  Response, SyncStatus, sent, failed, SyncRow, Line, Order, Outcome, done, rejected, broken, Ending,
  returned, post_error, other_error, has_key, build_sync_row, change_sync, mark_sent, mark_failed,
  record_lines, recorded, post_loop, post_and_record,
}
use bokser_app.OrderPush.Endings.{Explained, post_loop-Explained, recorded-Explained}

unfoldable pub find_sync : String → String → List SyncRow → Option SyncRow
find_sync source key [] = none
find_sync source key (r ∷ rows) = if has_key source key r then some r else find_sync source key rows

abbrev status_in : Option SyncRow → Option SyncStatus
status_in none = none
status_in (some r) = some r.status

-- The status of a line, if it has a row.
abbrev pub status_of : String → String → List SyncRow → Option SyncStatus
status_of source key rows = status_in (find_sync source key rows)

module _ (source header : String) (st : SyncStatus) (f : SyncRow → SyncRow)
    (same : (r : SyncRow) → ((f r).source ≡ r.source) × ((f r).source_line_key ≡ r.source_line_key))
    (to_st : (r : SyncRow) → (f r).status ≡ st) where
  change_own :
      (key : String) (rows : List SyncRow)
      → status_of source key (change_sync source header key f rows) ≡ some st
  unfolding change_sync find_sync
  change_own key [] = ground (
    arith,
    same (build_sync_row source header key),
    to_st (build_sync_row source header key),
    eq_iff source source,
    eq_iff key key,
  )
  change_own key (r ∷ rows) = ground (arith, same r, to_st r, change_own key rows)

  change_other :
      (key other : String) (rows : List SyncRow)
      → str_eq key other ≡ false
      → find_sync source other (change_sync source header key f rows) ≡ find_sync source other rows
  unfolding change_sync find_sync
  change_other key other [] h =
      ground (arith, same (build_sync_row source header key), eq_iff key other)
  change_other key other (r ∷ rows) h = ground (
    arith,
    same r,
    eq_iff key other,
    eq_iff r.source_line_key key,
    eq_iff r.source_line_key other,
    change_other key other rows h,
  )

module _ (source header : String) (st : SyncStatus) (mark : Line → SyncRow → SyncRow)
    (same : (l : Line) (r : SyncRow)
      → ((mark l r).source ≡ r.source) × ((mark l r).source_line_key ≡ r.source_line_key))
    (to_st : (l : Line) (r : SyncRow) → (mark l r).status ≡ st) where
  -- A line that has the status keeps it.
  lines_keep :
      (key : String) (lines : List Line) (rows : List SyncRow)
      → status_of source key rows ≡ some st
      → status_of source key (record_lines source header mark lines rows) ≡ some st
  unfolding record_lines
  lines_keep key [] rows h = h
  lines_keep key (l ∷ lines) rows h =
      lines_keep key lines (change_sync source header l.id (mark l) rows)
        (elim (Bool-cases (str_eq l.id key)) [
          | inl this ↦
              let e : l.id ≡ key = (eq_iff l.id key).0 this in
              rw (← e) (change_own source header st (mark l) (same l) (to_st l) l.id rows)
          | inr that ↦
              ap status_in
                (change_other source header st (mark l) (same l) (to_st l) l.id key rows that)
              ∙ h
        ])

  lines_set :
      (lines : List Line) (rows : List SyncRow)
      → All
          (λ (l : Line).
            status_of source l.id (record_lines source header mark lines rows) ≡ some st)
          lines
  unfolding record_lines
  lines_set [] rows = tt
  lines_set (l ∷ lines) rows = (
    lines_keep l.id lines (change_sync source header l.id (mark l) rows)
        (change_own source header st (mark l) (same l) (to_st l) l.id rows),
    lines_set lines (change_sync source header l.id (mark l) rows),
  )

  lines_other :
      (key : String) (lines : List Line) (rows : List SyncRow)
      → any (λ (l : Line). str_eq l.id key) lines ≡ false
      → find_sync source key (record_lines source header mark lines rows)
        ≡ find_sync source key rows
  unfolding record_lines
  lines_other key [] rows h = refl
  lines_other key (l ∷ lines) rows h =
      lines_other key lines (change_sync source header l.id (mark l) rows) (ground (arith, h))
      ∙ change_other source header st (mark l) (same l) (to_st l) l.id key rows (ground (arith, h))

abbrev pub AllHave : SyncStatus → String → List Line → List SyncRow → Type 0
AllHave st source lines rows = All (λ (l : Line). status_of source l.id rows ≡ some st) lines

-- The rows that a push with this ending leaves in place of the rows that it found.
abbrev pub Settled : Ending → String → List Line → List SyncRow → List SyncRow → Type 0
Settled returned source lines before after = AllHave sent source lines after
Settled post_error source lines before after = AllHave failed source lines after
Settled other_error source lines before after = after ≡ before

recorded-Settled :
    (now : ℕ) (source : String) (order : Order) (rows : List SyncRow) (o : List String × Outcome)
    → let r = recorded now source order rows o in Settled r.ending source order.lines rows r.rows
recorded-Settled now source order rows (posts, done c) =
    lines_set source order.number sent (mark_sent now c) (λ l r. (refl, refl)) (λ l r. refl)
      order.lines rows
recorded-Settled now source order rows (posts, rejected e) =
    lines_set source order.number failed (λ l. mark_failed e) (λ l r. (refl, refl)) (λ l r. refl)
      order.lines rows
recorded-Settled now source order rows (posts, broken) = refl

recorded_other :
    (now : ℕ) (source key : String) (order : Order) (rows : List SyncRow)
    (o : List String × Outcome)
    → any (λ (l : Line). str_eq l.id key) order.lines ≡ false
    → find_sync source key (recorded now source order rows o).rows ≡ find_sync source key rows
recorded_other now source key order rows (posts, done c) h =
    lines_other source order.number sent (mark_sent now c) (λ l r. (refl, refl)) (λ l r. refl) key
      order.lines rows h
recorded_other now source key order rows (posts, rejected e) h =
    lines_other source order.number failed (λ l. mark_failed e) (λ l r. (refl, refl)) (λ l r. refl)
      key order.lines rows h
recorded_other now source key order rows (posts, broken) h = refl

-- After a push that returns each line of the order has a row marked sent, and after one that raises
-- `SosPostError` a row marked failed; a push that ends with another exception, of a post or of the
-- reading of an answer, leaves the rows as they were. However it ends, the row of a line of the source
-- that is not in the order is as it was. The last answer decides how it ends: it returns if that is
-- 200, raises `SosPostError` if that is another answer, and lets the exception through if the post or
-- the reading of the answer raises; the answers before the last say that the number is taken.
pub lines_recorded :
    (answer : ℕ → String → Response) (now : ℕ) (p fallback source key : String) (order : Order)
    (rows : List SyncRow)
    → any (λ (l : Line). str_eq l.id key) order.lines ≡ false
    → let r = post_and_record answer now p fallback source order rows in
      Explained answer 0 r.posts r.ending
      × Settled r.ending source order.lines rows r.rows
      × (find_sync source key r.rows ≡ find_sync source key rows)
unfolding post_and_record
lines_recorded answer now p fallback source key order rows h =
    let o = post_loop answer p fallback 20 0 order.number in
    (
      recorded-Explained answer now source order rows o
          (post_loop-Explained answer p fallback 20 0 order.number),
      recorded-Settled now source order rows o,
      recorded_other now source key order rows o h,
    )

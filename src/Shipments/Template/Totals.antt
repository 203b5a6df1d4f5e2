-- ===== src/Shipments/Template/Totals.antt =====
-- No shipped quantity is lost or made up between the shipment and the document.
use bokser_app.Prelude.{
  ℕ, ◌+◌, ◌≡◌, refl, Bool, true, false, some, List, [], ◌∷◌, ◌++◌, length, arith, ap, sym, ◌∙◌,
  if◌then◌else◌, Bool-cases, inl, inr, All,
}
use bokser_app.Prelude.Int.{ℤ, pos, ◌+ℤ◌, ◌≤ℤ◌, int_laws, parts_of_eq}
use bokser_app.Shipments.Template.{
  ShipmentLine, TemplateLine, matches, ship_line, new_line, ship_lines, is_shipped, keep_shipped,
  all_lines, refuse_empty, map_lines,
}

unfoldable pub total_shipped : List TemplateLine → ℤ
total_shipped [] = pos 0
total_shipped (t ∷ ts) = t.shipped +ℤ total_shipped ts

unfoldable pub total_quantity : List ShipmentLine → ℤ
total_quantity [] = pos 0
total_quantity (s ∷ ss) = s.quantity +ℤ total_quantity ss

total_shipped-append :
    (xs ys : List TemplateLine) → total_shipped (xs ++ ys) ≡ total_shipped xs +ℤ total_shipped ys
unfolding total_shipped
total_shipped-append [] ys = omega int_laws
total_shipped-append (x ∷ xs) ys = omega (int_laws, parts_of_eq (total_shipped-append xs ys))

-- What the inner loop leaves for a new line.
abbrev unmatched : Bool → ShipmentLine → ℤ
unmatched matched s = if matched then pos 0 else s.quantity

ship_line-total :
    (s : ShipmentLine) (ts : List TemplateLine)
    → let (matched, ts') = ship_line s ts in
      total_shipped ts' +ℤ unmatched matched s ≡ total_shipped ts +ℤ s.quantity
unfolding ship_line total_shipped
ship_line-total s [] = omega int_laws
ship_line-total s (t ∷ ts) = elim (Bool-cases (matches s t)) [
  | inl m ↦ rw m (omega int_laws)
  | inr m ↦ rw m (omega (int_laws, parts_of_eq (ship_line-total s ts)))
]

-- The list of new lines after one round.
abbrev added_after : Bool → ShipmentLine → ℕ → List TemplateLine → List TemplateLine
added_after matched s n added = if matched then added else added ++ new_line s n ∷ []

added_after-total :
    (matched : Bool) (s : ShipmentLine) (n : ℕ) (added : List TemplateLine)
    → total_shipped (added_after matched s n added) ≡ total_shipped added +ℤ unmatched matched s
unfolding total_shipped
added_after-total true s n added = omega int_laws
added_after-total false s n added =
    omega (int_laws, parts_of_eq (total_shipped-append added (new_line s n ∷ [])))

ship_lines-total :
    (ss : List ShipmentLine) (ts added : List TemplateLine) (n : ℕ)
    → let (ts', added') = ship_lines ss ts added n in
      total_shipped ts' +ℤ total_shipped added'
      ≡ total_shipped ts +ℤ total_shipped added +ℤ total_quantity ss
unfolding ship_lines total_quantity
ship_lines-total [] ts added n = omega int_laws
ship_lines-total (s ∷ ss) ts added n =
    let (matched, ts') = ship_line s ts in
    omega (
      int_laws,
      parts_of_eq
          (ship_lines-total ss ts' (added_after matched s n added) (if matched then n else n + 1)),
      parts_of_eq (ship_line-total s ts),
      parts_of_eq (added_after-total matched s n added),
    )

all_lines-total :
    (ss : List ShipmentLine) (ts : List TemplateLine)
    → total_shipped (all_lines ss ts) ≡ total_shipped ts +ℤ total_quantity ss
unfolding all_lines
all_lines-total ss ts =
    let (ts', added) = ship_lines ss ts [] (length ts + 1) in
    let none_added : total_shipped [] ≡ pos 0 = unfold total_shipped in refl in
    omega (
      int_laws,
      parts_of_eq (total_shipped-append ts' added),
      parts_of_eq (ship_lines-total ss ts [] (length ts + 1)),
      parts_of_eq (none_added),
    )

abbrev pub IsNonneg : TemplateLine → Type 0
IsNonneg t = pos 0 ≤ℤ t.shipped

abbrev pub IsNonnegLine : ShipmentLine → Type 0
IsNonnegLine s = pos 0 ≤ℤ s.quantity

ship_line-IsNonneg :
    (s : ShipmentLine) (ts : List TemplateLine)
    → IsNonnegLine s
    → All IsNonneg ts
    → All IsNonneg (ship_line s ts).1
unfolding ship_line
ship_line-IsNonneg s [] p a = tt
ship_line-IsNonneg s (t ∷ ts) p a = elim (Bool-cases (matches s t)) [
  | inl m ↦ rw m (omega int_laws, a.1)
  | inr m ↦ rw m (a.0, ship_line-IsNonneg s ts p a.1)
]

All-append :
    (xs ys : List TemplateLine) → All IsNonneg xs → All IsNonneg ys → All IsNonneg (xs ++ ys)
All-append [] ys a b = b
All-append (x ∷ xs) ys a b = (a.0, All-append xs ys a.1 b)

added_after-IsNonneg :
    (matched : Bool) (s : ShipmentLine) (n : ℕ) (added : List TemplateLine)
    → IsNonnegLine s
    → All IsNonneg added
    → All IsNonneg (added_after matched s n added)
added_after-IsNonneg true s n added p a = a
added_after-IsNonneg false s n added p a = All-append added (new_line s n ∷ []) a (p, tt)

ship_lines-IsNonneg :
    (ss : List ShipmentLine) (ts added : List TemplateLine) (n : ℕ)
    → All IsNonnegLine ss
    → All IsNonneg ts
    → All IsNonneg added
    → let (ts', added') = ship_lines ss ts added n in All IsNonneg ts' × All IsNonneg added'
unfolding ship_lines
ship_lines-IsNonneg [] ts added n p a b = (a, b)
ship_lines-IsNonneg (s ∷ ss) ts added n p a b =
    let (matched, ts') = ship_line s ts in
    ship_lines-IsNonneg ss ts' (added_after matched s n added) (if matched then n else n + 1) p.1
      (ship_line-IsNonneg s ts p.0 a) (added_after-IsNonneg matched s n added p.0 b)

-- Dropping the lines that did not ship drops no quantity.
keep_shipped-total :
    (ts : List TemplateLine) → All IsNonneg ts → total_shipped (keep_shipped ts) ≡ total_shipped ts
unfolding keep_shipped total_shipped
keep_shipped-total [] a = refl
keep_shipped-total (t ∷ ts) a = elim (Bool-cases (is_shipped t)) [
  | inl m ↦ rw m (omega (int_laws, parts_of_eq (keep_shipped-total ts a.1)))
  | inr m ↦ rw m (omega (int_laws, parts_of_eq (keep_shipped-total ts a.1), not_shipped t m))
]
  where
    not_shipped : (t : TemplateLine) → is_shipped t ≡ false → t.shipped ≤ℤ pos 0
    not_shipped t m = ground arith

refuse_empty-some :
    (ts : List TemplateLine) {out : List TemplateLine} → refuse_empty ts ≡ some out → ts ≡ out
refuse_empty-some [] h = absurd (cc)
refuse_empty-some (t ∷ ts) h = cc

-- Where a document is built from shipped quantities and template amounts that are not negative, the
-- quantities on its lines sum to what the template held before plus all that was shipped.
pub document_total :
    (ss : List ShipmentLine) (ts : List TemplateLine) {out : List TemplateLine}
    → All IsNonnegLine ss
    → All IsNonneg ts
    → map_lines ss ts ≡ some out
    → total_shipped out ≡ total_shipped ts +ℤ total_quantity ss
document_total ss ts {out} p a h =
    let whole : keep_shipped (all_lines ss ts) ≡ out =
      refuse_empty-some (keep_shipped (all_lines ss ts)) (unfold map_lines in h) in
    let parts = ship_lines-IsNonneg ss ts [] (length ts + 1) p a tt in
    let (ts', added) = ship_lines ss ts [] (length ts + 1) in
    sym (ap total_shipped whole)
    ∙ keep_shipped-total (all_lines ss ts)
        (unfold all_lines in All-append ts' added parts.0 parts.1)
    ∙ all_lines-total ss ts

-- ===== src/Shipments/Template/Matching.antt =====
-- Which template line takes a shipment line, and the numbers of the lines that are added.
use bokser_app.Prelude.{
  ℕ, ◌+◌, ◌≡◌, refl, Bool, true, false, List, [], ◌∷◌, ◌++◌, length, arith, ◌∙◌, if◌then◌else◌, any,
  length-append,
}
use bokser_app.Shipments.Template.{
  ShipmentLine, TemplateLine, matches, same_line_id, same_item, add_shipped, ship_line, new_line,
  ship_lines,
}

first_match :
    (s : ShipmentLine) (before : List TemplateLine) (t : TemplateLine) (after : List TemplateLine)
    → any (matches s) before ≡ false
    → matches s t ≡ true
    → ship_line s (before ++ t ∷ after) ≡ (true, before ++ add_shipped s t ∷ after)
unfolding ship_line
first_match s [] t after no_match m = ground arith
first_match s (x ∷ before) t after no_match m = ground (arith, first_match s before t after)

-- The item decides before the order line: where the first template line with the item of a shipment
-- line is linked to another order line than the shipment line names, it still takes the whole
-- quantity, and every other template line stays as it is, a later line that is linked to the very
-- order line named included.
pub item_before_order_line :
    (s : ShipmentLine) (before between after : List TemplateLine) (t u : TemplateLine)
    → any (matches s) before ≡ false
    → same_line_id s.sos_line_id t.linked_id ≡ false
    → same_item t.item_name s.item ≡ true
    → same_line_id s.sos_line_id u.linked_id ≡ true
    → ship_line s (before ++ t ∷ (between ++ u ∷ after))
      ≡ (true, before ++ add_shipped s t ∷ (between ++ u ∷ after))
item_before_order_line s before between after t u earlier other item named =
    first_match s before t (between ++ u ∷ after) earlier (ground arith)

length-ship_line :
    (s : ShipmentLine) (ts : List TemplateLine) → length (ship_line s ts).1 ≡ length ts
unfolding ship_line
length-ship_line s [] = refl
length-ship_line s (t ∷ ts) = ground (arith, length-ship_line s ts)

-- Numbered n, n + 1, …
abbrev pub NumberedFrom : ℕ → List TemplateLine → Type 0
NumberedFrom n [] = Unit
NumberedFrom n (t ∷ ts) = (t.line_number ≡ n) × NumberedFrom (n + 1) ts

NumberedFrom-append :
    (n : ℕ) (xs : List TemplateLine) (t : TemplateLine)
    → NumberedFrom n xs
    → t.line_number ≡ n + length xs
    → NumberedFrom n (xs ++ t ∷ [])
NumberedFrom-append n [] t h e = (omega arith, tt)
NumberedFrom-append n (x ∷ xs) t h e = (h.0, NumberedFrom-append (n + 1) xs t h.1 (omega arith))

ship_lines-NumberedFrom :
    (base : ℕ) (ss : List ShipmentLine) (ts added : List TemplateLine) (n : ℕ)
    → NumberedFrom base added
    → n ≡ base + length added
    → let (ts', added') = ship_lines ss ts added n in
      (length ts' ≡ length ts) × NumberedFrom base added'
unfolding ship_lines
ship_lines-NumberedFrom base [] ts added n h e = (refl, h)
ship_lines-NumberedFrom base (s ∷ ss) ts added n h e =
    let (matched, ts') = ship_line s ts in
    let rest =
      ship_lines-NumberedFrom base ss ts' (if matched then added else added ++ new_line s n ∷ [])
        (if matched then n else n + 1) (numbered matched) (counted matched) in
    (rest.0 ∙ length-ship_line s ts, rest.1)
  where
    numbered :
        (matched : Bool) → NumberedFrom base (if matched then added else added ++ new_line s n ∷ [])
    numbered true = h
    numbered false = NumberedFrom-append base added (new_line s n) h e

    counted :
        (matched : Bool)
        → (if matched then n else n + 1)
          ≡ base + length (if matched then added else added ++ new_line s n ∷ [])
    counted true = e
    counted false = omega (arith, length-append added (new_line s n ∷ []))

-- The loops keep the number of template lines, and number the lines that they add consecutively from
-- one after that number.
pub new_lines_numbered :
    (ss : List ShipmentLine) (ts : List TemplateLine)
    → let (ts', added) = ship_lines ss ts [] (length ts + 1) in
      (length ts' ≡ length ts) × NumberedFrom (length ts + 1) added
new_lines_numbered ss ts =
    ship_lines-NumberedFrom (length ts + 1) ss ts [] (length ts + 1) tt (omega arith)

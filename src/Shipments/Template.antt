-- ===== src/Shipments/Template.antt =====
-- The lines of an SOS shipment document: the loops at the end of `_build_shipment_template`
-- (src/worker/jobs/push_data/sos/sos_shipment_sync.py). Of a template line the fields that the code
-- reads or writes are kept; `shipped` is the value of `line.get("shipped", 0)`.
pub mod Totals
pub mod Matching
mod Tests
use bokser_app.Prelude.{
  ℕ, suc, ◌+◌, ◌<◌, ◌≤◌, String, ◌≡◌, Bool, true, false, ◌&&◌, ◌||◌, Option, none, some, List, [],
  ◌∷◌, ◌++◌, length, ◌==◌, str_eq, if◌then◌else◌,
}
use bokser_app.Prelude.Int.{ℤ, pos, negsuc, ◌+ℤ◌, ltb_ℤ, pos_part, neg_part}

pub record ShipmentLine : Type 0 where
  pub item : String
  pub sos_line_id : Option ℤ
  pub quantity : ℤ

pub record TemplateLine : Type 0 where
  -- `linkedTransaction.id` and `item.name`, where they are there
  pub linked_id : Option ℤ
  pub item_name : Option String
  pub line_number : ℕ
  pub shipped : ℤ

abbrev pub int_eq : ℤ → ℤ → Bool
int_eq a b = pos_part a + neg_part b == pos_part b + neg_part a

-- `sos_line_id is not None and sos_line_id == template_sos_line_id`
abbrev pub same_line_id : Option ℤ → Option ℤ → Bool
same_line_id none t = false
same_line_id (some a) none = false
same_line_id (some a) (some b) = int_eq a b

abbrev pub same_item : Option String → String → Bool
same_item none i = false
same_item (some n) i = str_eq n i

-- The tests of the inner loop, which stops at the first template line that meets one.
abbrev pub matches : ShipmentLine → TemplateLine → Bool
matches s t = same_line_id s.sos_line_id t.linked_id || same_item t.item_name s.item

abbrev pub add_shipped : ShipmentLine → TemplateLine → TemplateLine
add_shipped s t = record t { shipped = t.shipped +ℤ s.quantity }

-- The inner loop: the template lines after it, and `matched`.
unfoldable pub ship_line : ShipmentLine → List TemplateLine → Bool × List TemplateLine
ship_line s [] = (false, [])
ship_line s (t ∷ ts) =
    let (matched, rest) = ship_line s ts in
    if matches s t then (true, add_shipped s t ∷ ts) else (matched, t ∷ rest)

abbrev pub new_line : ShipmentLine → ℕ → TemplateLine
new_line s n = record {
  linked_id = none;
  item_name = some s.item;
  line_number = n;
  shipped = s.quantity;
}

-- The outer loop over the shipment lines, with `template_lines`, `new_lines` and
-- `next_line_number`.
unfoldable pub ship_lines :
    List ShipmentLine
    → List TemplateLine
    → List TemplateLine
    → ℕ
    → List TemplateLine × List TemplateLine
unfolding ship_line
ship_lines [] ts added n = (ts, added)
ship_lines (s ∷ ss) ts added n =
    let (matched, ts') = ship_line s ts in
    ship_lines ss ts' (if matched then added else added ++ new_line s n ∷ [])
      (if matched then n else n + 1)

abbrev pub is_shipped : TemplateLine → Bool
is_shipped t = ltb_ℤ (pos 0) t.shipped

unfoldable pub keep_shipped : List TemplateLine → List TemplateLine
keep_shipped [] = []
keep_shipped (t ∷ ts) = if is_shipped t then t ∷ keep_shipped ts else keep_shipped ts

-- `template_lines.extend(new_lines)`
unfoldable pub all_lines : List ShipmentLine → List TemplateLine → List TemplateLine
unfolding ship_lines
all_lines ss ts = let (ts', added) = ship_lines ss ts [] (length ts + 1) in ts' ++ added

abbrev pub refuse_empty : List TemplateLine → Option (List TemplateLine)
refuse_empty [] = none
refuse_empty (t ∷ ts) = some (t ∷ ts)

-- `template["lines"]`, or `none` for "No shipment lines remaining after mapping".
unfoldable pub map_lines : List ShipmentLine → List TemplateLine → Option (List TemplateLine)
unfolding all_lines keep_shipped
map_lines ss ts = refuse_empty (keep_shipped (all_lines ss ts))

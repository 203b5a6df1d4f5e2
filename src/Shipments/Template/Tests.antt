-- ===== src/Shipments/Template/Tests.antt =====
-- The lines of a small shipment document.
use bokser_app.Prelude.{◌≡◌, refl, true, none, some, List, [], ◌∷◌, arith}
use bokser_app.Prelude.Int.{pos, ◌+ℤ◌}
use bokser_app.Shipments.Template.{
  ShipmentLine, TemplateLine, ship_line, ship_lines, add_shipped, new_line, keep_shipped, all_lines,
  map_lines,
}
use bokser_app.Shipments.Template.Totals.{total_shipped, total_quantity, document_total}
use bokser_app.Shipments.Template.Matching.{item_before_order_line}

-- Two lamps for order line 12, and three chairs that no order line has.
abbrev lamps : ShipmentLine
lamps = record { item = "LAMP"; sos_line_id = some (pos 12); quantity = pos 2 }

abbrev chairs : ShipmentLine
chairs = record { item = "CHAIR"; sos_line_id = none; quantity = pos 3 }

abbrev line_11 : TemplateLine
line_11 = record {
  linked_id = some (pos 11);
  item_name = some "LAMP";
  line_number = 1;
  shipped = pos 0;
}

abbrev line_12 : TemplateLine
line_12 = record {
  linked_id = some (pos 12);
  item_name = some "LAMP";
  line_number = 2;
  shipped = pos 0;
}

abbrev document : List TemplateLine
document = add_shipped lamps line_11 ∷ new_line chairs 3 ∷ []

document_lines : map_lines (lamps ∷ chairs ∷ []) (line_11 ∷ line_12 ∷ []) ≡ some document
unfolding map_lines all_lines ship_lines ship_line keep_shipped ◌+ℤ◌
document_lines = refl

nothing_shipped : map_lines [] (line_11 ∷ line_12 ∷ []) ≡ none
unfolding map_lines all_lines ship_lines keep_shipped
nothing_shipped = refl

document_total_example :
    total_shipped document
    ≡ total_shipped (line_11 ∷ line_12 ∷ []) +ℤ total_quantity (lamps ∷ chairs ∷ [])
document_total_example =
    document_total (lamps ∷ chairs ∷ []) (line_11 ∷ line_12 ∷ []) (omega arith, (omega arith, tt))
      (omega arith, (omega arith, tt)) document_lines

item_before_order_line_example :
    ship_line lamps (line_11 ∷ line_12 ∷ []) ≡ (true, add_shipped lamps line_11 ∷ line_12 ∷ [])
item_before_order_line_example =
    item_before_order_line lamps [] [] [] line_11 line_12 refl refl refl refl

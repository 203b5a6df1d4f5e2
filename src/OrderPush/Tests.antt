-- ===== src/OrderPush/Tests.antt =====
-- An order with two lines, whose number is taken twice.
use bokser_app.Prelude.{
  List, ℕ, ◌≤◌, String, ◌≡◌, refl, true, none, some, [], ◌∷◌, length, leb, arith, if◌then◌else◌,
}
use bokser_app.OrderPush.{
  Created, Response, accepted, duplicate_number, unreadable, returned, post_error, other_error,
  Order, record_success, post_and_record,
}
use bokser_app.OrderPush.Numbers.{variants, few_posts, duplicates_renumbered}
use bokser_app.OrderPush.Open.{Item, load_open, upsert_sync_rows, AllTaken, taken_up_once}
use bokser_app.OrderPush.Endings.{Explained}
use bokser_app.OrderPush.Rows.{find_sync, Settled, lines_recorded}

abbrev created : Created
created = record { order_id = some 81; line_map = ("1", some 7) ∷ ("2", some 8) ∷ [] }

abbrev order : Order
order = record {
  number = "1042";
  lines =
      record { id = "l1"; line_number = some "1" } ∷ record { id = "l2"; line_number = none } ∷ [];
}

-- The third number is accepted.
abbrev third : ℕ → String → Response
third n number = if leb 2 n then accepted created else duplicate_number "taken"

posts_run :
    (post_and_record third 5 "MKT" "2501010000" "acenda" order []).posts
    ≡ "MKT-1042" ∷ "MKT-1042.1" ∷ "MKT-1042.1.1" ∷ []
unfolding post_and_record
posts_run = refl

always_taken :
    (post_and_record
      (λ n number. duplicate_number "taken")
      5
      "MKT"
      "2501010000"
      "acenda"
      order
      []).ending
    ≡ post_error
unfolding post_and_record
always_taken = refl

lost_answer :
    (post_and_record (λ n number. unreadable) 5 "MKT" "2501010000" "acenda" order []).ending
    ≡ other_error
unfolding post_and_record
lost_answer = refl

few_posts_example : length (post_and_record third 5 "MKT" "2501010000" "acenda" order []).posts ≤ 21
few_posts_example = few_posts third 5 "MKT" "2501010000" "acenda" order []

duplicates_renumbered_example :
    post_and_record third 5 "MKT" "2501010000" "acenda" order [] ≡ record {
      posts = variants "MKT" 3 "1042";
      ending = returned;
      rows = record_success 5 "acenda" "1042" order.lines created [];
    }
duplicates_renumbered_example =
    duplicates_renumbered third 5 "MKT" "2501010000" "acenda" order [] 2 created (omega arith)
      (λ i l. ground arith) refl

lines_recorded_example :
    let r = post_and_record third 5 "MKT" "2501010000" "acenda" order [] in
    Explained third 0 r.posts r.ending
    × Settled r.ending "acenda" order.lines [] r.rows
    × (find_sync "acenda" "l9" r.rows ≡ find_sync "acenda" "l9" [])
lines_recorded_example = lines_recorded third 5 "MKT" "2501010000" "acenda" "l9" order [] refl

abbrev items : List Item
items =
    record { id = "l1"; wanted = true }
    ∷ record { id = "l2"; wanted = true }
    ∷ record { id = "l3"; wanted = true }
    ∷ []

open_run :
    load_open "acenda" (upsert_sync_rows "acenda" "1042" (λ l. l.id) order.lines []) items
    ≡ record { id = "l3"; wanted = true } ∷ []
unfolding load_open upsert_sync_rows
open_run = refl

taken_up_once_example :
    AllTaken "acenda" order.lines
      (upsert_sync_rows "acenda" "1042" (λ l. l.id) order.lines [])
      items
    × AllTaken "acenda" order.lines
        (post_and_record third 5 "MKT" "2501010000" "acenda" order
          (upsert_sync_rows "acenda" "1042" (λ l. l.id) order.lines [])).rows
        items
taken_up_once_example = taken_up_once (λ l. l.id) third 5 "MKT" "2501010000" "acenda" order [] items

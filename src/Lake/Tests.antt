-- ===== src/Lake/Tests.antt =====
-- Names and contents of lake files.
use mathlib.Core.List.{List, ◌++◌}
use bokser_app.Prelude.{
  ℕ, ◌+◌, ◌≡◌, ◌≢◌, refl, Bool, true, false, ◌&&◌, ◌||◌, none, some, [], ◌∷◌, leb, ◌==◌,
  if◌then◌else◌, All, arith, map, ap₂,
}
use bokser_app.Prelude.Int.{pos}
use bokser_app.Json.{Json, num, str, arr, obj, Items, nil, cons, end, field, Fields, get}
use bokser_app.Lake.Names.{
  Text, Unicode, is_safe, safe_path_part, safe_file_type, strip, strip_left, strip_right,
  replace_unsafe, after_last_dot, keep_alnum,
}
use bokser_app.Lake.Names.{raw_folder, file_path, build_file_name}
use bokser_app.Lake.Names.Confined.{IsConfined, file_path-IsConfined}
use bokser_app.Lake.Names.Safe.{IsSafe}
use bokser_app.Lake.Envelope.{
  Written, safe_name, extract_json_records, wrapped_payload, all_objects, count_items,
}
use bokser_app.Lake.Envelope.RoundTrip.{extract_list, orders_batch_refused}

-- The part of Python's tables for ASCII.
abbrev lower_code : ℕ → ℕ
lower_code c = if leb b'A' c && leb c b'Z' then c + 32 else c

abbrev is_blank : ℕ → Bool
is_blank c = c == 32 || (leb 9 c && leb c 13)

abbrev ascii : Unicode
ascii = record { lower = map lower_code; is_space = is_blank }

-- " ../SOS Items/ "
abbrev hostile : Text
hostile = 32 ∷ b'.' ∷ b'.' ∷ b'/' ∷ b'S' ∷ b'O' ∷ b'S' ∷ 32 ∷ b'/' ∷ b'x' ∷ b'/' ∷ 32 ∷ []

-- "sos_x"
abbrev tamed : Text
tamed = b's' ∷ b'o' ∷ b's' ∷ b'_' ∷ b'x' ∷ []

hostile-tamed : safe_path_part ascii hostile ≡ some tamed
unfolding safe_path_part strip strip_left strip_right replace_unsafe
hostile-tamed = refl

dots_refused : safe_path_part ascii (b'.' ∷ b'.' ∷ []) ≡ none
unfolding safe_path_part strip strip_left strip_right replace_unsafe
dots_refused = refl

-- ".tar.GZ"
abbrev tar_gz : Text
tar_gz = b'.' ∷ b't' ∷ b'a' ∷ b'r' ∷ b'.' ∷ b'G' ∷ b'Z' ∷ []

abbrev gz : Text
gz = b'g' ∷ b'z' ∷ []

tar_gz_type : safe_file_type ascii tar_gz ≡ some gz
unfolding safe_file_type strip strip_left strip_right after_last_dot keep_alnum
tar_gz_type = refl

-- "y", "m" and "d" stand for the folders of the date, "t" for the time and "i" for the id.
abbrev path_parts : List Text
path_parts =
    raw_folder
    ∷ tamed
    ∷ tamed
    ∷ (b'y' ∷ [])
    ∷ (b'm' ∷ [])
    ∷ (b'd' ∷ [])
    ∷ (tamed ++ b'_' ∷ b't' ∷ b'_' ∷ b'i' ∷ b'.' ∷ gz)
    ∷ []

hostile-file_path :
    file_path ascii hostile hostile
      (b'y' ∷ [])
      (b'm' ∷ [])
      (b'd' ∷ [])
      (b't' ∷ [])
      (b'i' ∷ [])
      tar_gz
    ≡ some path_parts
unfolding file_path build_file_name safe_path_part safe_file_type strip strip_left strip_right
    replace_unsafe after_last_dot keep_alnum
hostile-file_path = refl

file_path-IsConfined_example : All IsConfined path_parts
file_path-IsConfined_example =
    file_path-IsConfined ascii hostile hostile (b'y' ∷ []) (b'm' ∷ []) (b'd' ∷ []) (b't' ∷ [])
      (b'i' ∷ []) tar_gz ((refl, tt), refl) ((refl, tt), refl) ((refl, tt), refl) (refl, tt)
      (refl, tt) hostile-file_path

lower_code_safe : (c : ℕ) → is_safe c ≡ true → lower_code c ≡ c
lower_code_safe c h = ground arith

lower_safe : (t : Text) → All IsSafe t → map lower_code t ≡ t
lower_safe [] a = refl
lower_safe (c ∷ t) a = ap₂ (◌∷◌) (lower_code_safe c a.0) (lower_safe t a.1)

blank_unsafe : (c : ℕ) → is_safe c ≡ true → is_blank c ≡ false
blank_unsafe c h = ground arith

abbrev acenda_orders : Written
acenda_orders = record {
  source_system = "acenda";
  entity_name = "orders";
  written_at_utc = "2026-01-01T00:00:00Z";
  ingestion_id = "0af1";
}

abbrev since : Fields
since = field "since" (str "monday") end

abbrev one_record : Items
one_record = cons (obj (field "id" (num (pos 1)) end)) nil

orders_clean : safe_name ascii "orders" ≡ some "orders"
unfolding safe_name safe_path_part strip strip_left strip_right replace_unsafe
orders_clean = refl

acenda_clean : safe_name ascii "acenda" ≡ some "acenda"
unfolding safe_name safe_path_part strip strip_left strip_right replace_unsafe
acenda_clean = refl

-- A name that cleaning changes.
spaced_clean : safe_name ascii " Open Orders" ≡ some "open_orders"
unfolding safe_name safe_path_part strip strip_left strip_right replace_unsafe
spaced_clean = refl

abbrev spaced : Written
spaced = record acenda_orders { entity_name = " Open Orders" }

extract_list_example :
    (j : Json) × (wrapped_payload ascii spaced since (arr one_record) ≡ some j)
    × (extract_json_records " Open Orders" j ≡ none)
unfolding get all_objects
extract_list_example =
    extract_list ascii spaced since "acenda" "open_orders" " Open Orders" one_record acenda_clean
      spaced_clean refl refl refl

orders_read :
    (j : Json) × (wrapped_payload ascii acenda_orders since (arr one_record) ≡ some j)
    × (extract_json_records "orders" j ≡ some one_record)
unfolding get all_objects
orders_read =
    extract_list ascii acenda_orders since "acenda" "orders" "orders" one_record acenda_clean
      orders_clean refl refl refl

abbrev no_orders : Fields
no_orders = field "orders" (arr nil) end

no_orders_count : count_items nil ≢ 1
unfolding count_items
no_orders_count = ground arith

orders_batch_refused_example :
    (j : Json) × (wrapped_payload ascii acenda_orders since (obj no_orders) ≡ some j)
    × (extract_json_records "orders" j ≡ none)
unfolding get
orders_batch_refused_example =
    orders_batch_refused ascii acenda_orders since "acenda" "orders" "orders" no_orders nil
      acenda_clean orders_clean refl refl refl no_orders_count

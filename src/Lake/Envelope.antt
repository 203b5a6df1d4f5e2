-- ===== src/Lake/Envelope.antt =====
-- The contents of a lake file: the object that `write_json_payload` writes
-- (src/storage/raw/writer.py), and its reading by `extract_json_records`
-- (src/worker/jobs/process_data/utils/data_lake_tools.py). Texts and counts of the metadata that the
-- reader does not use are arguments.
pub mod RoundTrip
use mathlib.Core.Option
use Prim.Native.Char.{Char, char, nul}
use Prim.Native.Nat.{Ordering, compare}
use bokser_app.PyInt.{codes}
use bokser_app.Lake.Names.{Text, Unicode, safe_path_part}
use bokser_app.Prelude.{
  refl, ℕ, suc, String, ◌≡◌, Bool, true, false, not, ◌&&◌, ◌||◌, Option, none, some, List, [], ◌∷◌,
  ◌==◌, str_eq, if◌then◌else◌,
}
use bokser_app.Prelude.Int.{ℤ, pos, negsuc}
use bokser_app.Json.{
  Json, null, bool, num, float, str, arr, obj, Items, nil, cons, Fields, end, field, get, put,
}

unfoldable pub count_items : Items → ℕ
count_items nil = 0
count_items (cons v items) = suc (count_items items)

-- `len(payload) if isinstance(payload, list) else 1`
unfoldable pub record_count : Json → ℕ
unfolding count_items
record_count (arr items) = count_items items
record_count v = 1

-- `{…, **dict(metadata or {})}`: the keys of the caller's metadata come last and win.
unfoldable pub spread : Fields → Fields → Fields
spread d end = d
spread d (field k v more) = spread (put k v d) more

-- The character of a code point below the surrogates; `_safe_path_part` keeps ASCII only.
abbrev char_of : ℕ → Char
char_of n = below (compare n 55296) refl
  where
    below : (o : Ordering) → compare n 55296 ≡ o → Char
    below Ordering.lt e = char n (rw e tt)
    below _ e = nul

abbrev pub text_of : Text → String
text_of [] = ""
text_of (c ∷ s) = String.◌∷◌ (char_of c) (text_of s)

-- `_safe_path_part` of a text, with `none` for its `ValueError`.
unfoldable pub safe_name : Unicode → String → Option String
safe_name u name = Option.map text_of (safe_path_part u (codes name))

-- The arguments of `write_json_payload`, the time and the new id.
pub record Written : Type 0 where
  pub source_system : String
  pub entity_name : String
  pub written_at_utc : String
  pub ingestion_id : String

-- With the cleaned names of the source and the entity.
unfoldable pub wrapped_with : String → String → Written → Fields → Json → Json
unfolding spread record_count
wrapped_with source entity w metadata payload = obj (
    field "metadata"
      (obj (
        spread
          (field "source_system" (str source) (
            field "entity_name" (str entity) (
              field "file_type" (str "json") (
                field "record_count" (num (pos (record_count payload))) (
                  field "written_at_utc" (str w.written_at_utc)
                    (field "ingestion_id" (str w.ingestion_id) end))))))
          metadata))
      (field "payload" payload end))

-- `wrapped_payload`, with `none` where a name cannot be cleaned.
unfoldable pub wrapped_payload : Unicode → Written → Fields → Json → Option Json
unfolding wrapped_with safe_name
wrapped_payload u w metadata payload = elim (safe_name u w.source_system) [
  | none ↦ none
  | some source ↦
      Option.map (λ entity. wrapped_with source entity w metadata payload)
        (safe_name u w.entity_name)
]

-- `_normalize_json_records`, with `none` for its `ValueError`s. A key that holds null counts as
-- missing.
abbrev pub orders_or_one : Json → Option Json → Option Items
orders_or_one whole none = some (cons whole nil)
orders_or_one whole (some null) = some (cons whole nil)
orders_or_one whole (some (arr orders)) = some orders
orders_or_one whole (some _) = none

unfoldable pub normalize_json_records : Option Json → Option Items
normalize_json_records (some (arr items)) = some items
normalize_json_records (some (obj d)) = orders_or_one (obj d) (get "orders" d)
normalize_json_records _ = none

-- `any(not isinstance(record, dict) …)`, negated.
unfoldable pub all_objects : Items → Bool
all_objects nil = true
all_objects (cons (obj d) items) = all_objects items
all_objects (cons _ items) = false

-- `metadata.get("entity_name") != expected`, for a text that is expected.
abbrev pub is_text : String → Option Json → Bool
is_text e (some (str s)) = str_eq s e
is_text e _ = false

-- The count of the metadata, where it is an integer (a Python bool is one).
abbrev pub counts : Option Json → ℕ → Bool
counts (some (num (pos n))) actual = n == actual
counts (some (num (negsuc n))) actual = false
counts (some (bool b)) actual = (if b then 1 else 0) == actual
counts _ actual = true

abbrev pub entity_matches : String → Option Json → Bool
entity_matches expected entity = str_eq expected "" || is_text expected entity

abbrev pub checked_records : Option Json → Option Items → Option Items
checked_records expected_count none = none
checked_records expected_count (some items) =
    if all_objects items && counts expected_count (count_items items) then some items else none

unfoldable pub records_of : String → Option Json → Option Json → Option Items
unfolding normalize_json_records
records_of expected (some (obj metadata)) records =
    if entity_matches expected (get "entity_name" metadata)
    then checked_records (get "record_count" metadata) (normalize_json_records records)
    else none
records_of expected _ records = none

-- `extract_json_records`, with the empty text for no expected entity, and `none` for `ValueError`.
unfoldable pub extract_json_records : String → Json → Option Items
unfolding records_of
extract_json_records expected (obj payload) =
    records_of expected (get "metadata" payload) (get "payload" payload)
extract_json_records expected _ = none

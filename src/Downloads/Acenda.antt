-- ===== src/Downloads/Acenda.antt =====
-- `GetAcendaData` (src/worker/jobs/get_data/get_acenda_data.py), for one endpoint. What the requests
-- answer, and the order in which the tasks of the pages finish, are arguments.
pub mod Pages
pub mod Failures
use bokser_app.Prelude.{
  ℕ, zero, suc, ◌+◌, ◌-◌, ◌*◌, ◌/◌, String, Bool, true, false, Option, none, some, List, [], ◌∷◌,
  ◌++◌, length, leb, if◌then◌else◌,
}
use Prim.Native.String.{compare}
use text.Mathlib.Text.{is_le}

-- A record, with `updated_at` where it is there and not empty.
pub record Record : Type 0 where
  pub id : String
  pub updated_at : Option String

-- `payload.get("result")`: null or missing, a list, or another value.
pub data Result : Type 0 where
  missing : Result
  listed : List Record → Result
  other : Result

pub record Payload : Type 0 where
  -- whether `errors` is true for Python
  pub errors : Bool
  pub result : Result
  pub num_results : Option ℕ

abbrev is_zero : Option ℕ → Bool
is_zero none = false
is_zero (some zero) = true
is_zero (some (suc n)) = false

abbrev pub records_in : Result → Option ℕ → Option (List Record)
records_in missing n = if is_zero n then some [] else none
records_in (listed rs) n = some rs
records_in other n = none

-- `_extract_records`, with `none` for its `ValueError`s.
unfoldable pub extract_records : Payload → Option (List Record)
extract_records p = if p.errors then none else records_in p.result p.num_results

-- `int(first_payload.get("num_results") or len(records))`
abbrev pub total_count : Option ℕ → ℕ → ℕ
total_count none n = n
total_count (some zero) n = n
total_count (some (suc k)) n = suc k

abbrev pub total_pages : ℕ → ℕ → ℕ
total_pages total max_results = (total + max_results - 1) / max_results

-- `range(first, first + n)`
unfoldable pub range : ℕ → ℕ → List ℕ
range first zero = []
range first (suc n) = first ∷ range (suc first) n

abbrev pub page_records : Option (List Record) → List Record
page_records none = []
page_records (some rs) = rs

-- `fetch_page`: `none` is a request that raises.
abbrev pub fetch_page : Option Payload → Option (List Record)
fetch_page none = none
fetch_page (some p) = extract_records p

-- The loop over the finished tasks: a page that raised is logged and left out.
unfoldable pub collect : (ℕ → Option Payload) → List ℕ → List Record
unfolding extract_records
collect answer [] = []
collect answer (p ∷ ps) = page_records (fetch_page (answer p)) ++ collect answer ps

-- `range(2, total_pages + 1)`
abbrev pub later_pages : ℕ → ℕ → List ℕ
later_pages total max_results = range 2 (total_pages total max_results - 1)

-- From the total count on, with so many records in all.
abbrev pub with_pages : ℕ → (ℕ → Option Payload) → (List ℕ → List ℕ) → List Record → ℕ → List Record
with_pages max_results answer finish records total =
    if leb total max_results
    then records
    else records ++ collect answer (finish (later_pages total max_results))

abbrev pub first_page :
    ℕ
    → Option ℕ
    → (ℕ → Option Payload)
    → (List ℕ → List ℕ)
    → Option (List Record)
    → Option (List Record)
first_page max_results num answer finish none = none
first_page max_results num answer finish (some records) =
    some (with_pages max_results answer finish records (total_count num (length records)))

-- `_get_raw_acenda_data_with_open_client`: `none` where it raises. `finish` puts the tasks of the
-- pages in the order in which they finish.
unfoldable pub get_raw_acenda_data :
    ℕ → Option Payload → (ℕ → Option Payload) → (List ℕ → List ℕ) → Option (List Record)
unfolding collect extract_records range
get_raw_acenda_data max_results none answer finish = none
get_raw_acenda_data max_results (some p) answer finish =
    first_page max_results p.num_results answer finish (extract_records p)

-- Python's `max` of texts: the first that no later one is above.
unfoldable pub max_text : String → List String → String
max_text s [] = s
max_text s (t ∷ ts) = max_text (if is_le (compare t s) then s else t) ts

unfoldable pub dates : List Record → List String
dates [] = []
dates (r ∷ rs) = elim r.updated_at [ none ↦ dates rs | some d ↦ d ∷ dates rs ]

abbrev pub max_of : List String → Option String
max_of [] = none
max_of (s ∷ ts) = some (max_text s ts)

-- `get_max_date_value`, for `updated_at`.
unfoldable pub get_max_date_value : List Record → Option String
unfolding dates max_text
get_max_date_value rs = max_of (dates rs)

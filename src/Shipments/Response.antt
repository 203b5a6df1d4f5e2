-- ===== src/Shipments/Response.antt =====
-- How `process_shipment_sync` reads the outcome of its POST, and `_shipment_id`
-- (src/worker/jobs/push_data/sos/sos_shipment_sync.py).
use bokser_app.Prelude.{
  ℕ, suc, String, Bool, true, not, ◌&&◌, Option, none, some, ltb, leb, ◌==◌, if◌then◌else◌,
}
use bokser_app.Prelude.Int.{ℤ, pos}
use bokser_app.Json.{Json, bool, num, float, str, obj, Fields, get}
use bokser_app.PyInt.{parse_int}
use bokser_app.Shipments.Queue.{Message, text, returned, no_valid_id}

-- `int(str(value))`, where `str` of null, of an array or of an object has no digits at its ends.
abbrev pub int_of_str : Json → Option ℤ
int_of_str (num z) = some z
int_of_str (str t) = parse_int t
int_of_str (float t) = parse_int t
int_of_str _ = none

-- A bool is refused before `int`; zero and less after it.
abbrev pub positive : Option ℤ → Option ℕ
positive (some (pos (suc n))) = some (suc n)
positive _ = none

abbrev pub read_id : Option Json → Option ℕ
read_id none = none
read_id (some (bool b)) = none
read_id (some v) = positive (int_of_str v)

-- `payload.get("data", payload)`, where it is an object.
abbrev pub data_fields : Option Json → Fields → Option Fields
data_fields none payload = some payload
data_fields (some (obj d)) payload = some d
data_fields (some _) payload = none

abbrev pub id_of_fields : Option Fields → Option ℕ
id_of_fields none = none
id_of_fields (some d) = read_id (get "id" d)

-- `_shipment_id`, with `none` for its `ValueError`.
unfoldable pub shipment_id : Json → Option ℕ
unfolding get parse_int
shipment_id (obj payload) = id_of_fields (data_fields (get "data" payload) payload)
shipment_id _ = none

-- What the client's `post` comes to: an exception, or a response with its status, its text and,
-- where it is JSON, its value.
pub data PostResult : Type 0 where
  transport_error : String → PostResult
  response : ℕ → String → Option Json → PostResult

-- The `try` block from the POST to the shipment id: the id, or the exception with `post_started`.
pub data Outcome : Type 0 where
  accepted : ℕ → Outcome
  raised : Bool → Message → Outcome

-- A client error says that nothing was created, but for 408.
abbrev pub is_rejection : ℕ → Bool
is_rejection status = leb 400 status && ltb status 500 && not (status == 408)

abbrev pub is_success : ℕ → Bool
is_success status = leb 200 status && ltb status 300

abbrev pub outcome_of_id : Option ℕ → Outcome
outcome_of_id none = raised true no_valid_id
outcome_of_id (some n) = accepted n

abbrev pub outcome_of_body : Option Json → Outcome
outcome_of_body none = raised true (text "invalid JSON")
outcome_of_body (some payload) = outcome_of_id (shipment_id payload)

unfoldable pub outcome : PostResult → Outcome
outcome (transport_error e) = raised true (text e)
outcome (response status t body) =
    if not (is_success status)
    then raised (not (is_rejection status)) (returned status t)
    else outcome_of_body body

-- ===== src/Tracking/Store.antt =====
-- The tables of `Store` (src/integrations/terminal49_client/store.py, schema.sql) that tracking
-- operations use, for one account and company. A time is a number of seconds. Each function is one
-- transaction; `none` is a raised `IdentityConflict` or `ValueError`.
pub mod Mappings
use bokser_app.Prelude.{
  ℕ, suc, ◌+◌, String, Bool, true, false, not, ◌&&◌, ◌||◌, Option, none, some, List, [], ◌∷◌, ◌++◌,
  map, any, leb, ltb, ◌==◌, str_eq, if◌then◌else◌,
}
use bokser_app.Tracking.Reference.{RequestType, container, bill_of_lading, booking}

pub data Status : Type 0 where
  queued submitting pending linked_status failed_status needs_review : Status

-- What a user asks to track, after `validate_input`.
pub record Reference : Type 0 where
  pub number : String
  pub request_type : RequestType
  pub request_number : String
  pub scac : String

pub record Row : Type 0 where
  pub operation_id : String
  pub odoo_container_id : ℕ
  pub reference : Reference
  pub status : Status
  pub tracking_request_id : Option String
  pub container_id : Option String
  pub last_error : Option String
  pub next_check_at : ℕ
  pub attempts : ℕ

pub record Mapping : Type 0 where
  pub container_id : String
  pub odoo_container_id : ℕ
  pub expected_number : String
  pub active : Bool
  pub next_refresh_at : ℕ

abbrev pub is_active : Status → Bool
is_active queued = true
is_active submitting = true
is_active pending = true
is_active linked_status = false
is_active failed_status = false
is_active needs_review = false

-- `COALESCE(new, old)`
abbrev pub coalesce : Option String → Option String → Option String
coalesce none old = old
coalesce (some v) old = some v

abbrev pub has_id : String → Row → Bool
has_id oid r = str_eq r.operation_id oid

abbrev pub updated : ℕ → Status → Option String → Option String → Option String → Row → Row
updated now status rid cid error r = record r {
  status = status;
  tracking_request_id = coalesce rid r.tracking_request_id;
  container_id = coalesce cid r.container_id;
  last_error = error;
  attempts = 0;
  next_check_at = now + 30;
}

abbrev pub deferred : ℕ → String → Row → Row
deferred now reason r = record r {
  status = if leb 7 r.attempts then needs_review else r.status;
  last_error = some reason;
  attempts = suc r.attempts;
  next_check_at = now + 60;
}

abbrev pub where_id : String → (Row → Row) → Row → Row
where_id oid f r = if has_id oid r then f r else r

-- `update_initiation`
unfoldable pub update_initiation :
    ℕ → String → Status → Option String → Option String → Option String → List Row → List Row
update_initiation now oid status rid cid error rows =
    map (where_id oid (updated now status rid cid error)) rows

-- `defer_initiation`
unfoldable pub defer_initiation : ℕ → String → String → List Row → List Row
defer_initiation now oid reason rows = map (where_id oid (deferred now reason)) rows

abbrev pub is_due : ℕ → Row → Bool
is_due now r = is_active r.status && leb r.next_check_at now

-- The statement leaves open which of two rows with one time comes first: `tie` decides.
abbrev pub is_before : (Row → Row → Bool) → Row → Row → Bool
is_before tie s r =
    ltb s.next_check_at r.next_check_at || (s.next_check_at == r.next_check_at && tie s r)

abbrev pub earlier : (Row → Row → Bool) → Row → Option Row → Option Row
earlier tie r none = some r
earlier tie r (some s) = if is_before tie s r then some s else some r

-- `next_initiation`: the first of the due rows by time.
unfoldable pub next_initiation : (Row → Row → Bool) → ℕ → List Row → Option Row
next_initiation tie now [] = none
next_initiation tie now (r ∷ rows) =
    let rest = next_initiation tie now rows in if is_due now r then earlier tie r rest else rest

abbrev pub same_type : RequestType → RequestType → Bool
same_type container container = true
same_type bill_of_lading bill_of_lading = true
same_type booking booking = true
same_type a b = false

abbrev pub same_reference : Reference → Reference → Bool
same_reference a b =
    str_eq a.number b.number
    && (same_type a.request_type b.request_type
        && (str_eq a.request_number b.request_number && str_eq a.scac b.scac))

unfoldable pub find_odoo : ℕ → List Row → Option Row
find_odoo odoo_id [] = none
find_odoo odoo_id (r ∷ rows) =
    if r.odoo_container_id == odoo_id then some r else find_odoo odoo_id rows

abbrev pub is_pending_for : String → Row → Bool
is_pending_for number r = str_eq r.reference.number number && is_active r.status

abbrev pub new_row : ℕ → String → ℕ → Reference → Row
new_row now oid odoo_id reference = record {
  operation_id = oid;
  odoo_container_id = odoo_id;
  reference = reference;
  status = queued;
  tracking_request_id = none;
  container_id = none;
  last_error = none;
  next_check_at = now;
  attempts = 0;
}

abbrev pub insert_row : ℕ → String → ℕ → Reference → List Row → Option (Row × List Row)
insert_row now oid odoo_id reference rows =
    if any (is_pending_for reference.number) rows || any (has_id oid) rows
    then none
    else some (new_row now oid odoo_id reference, rows ++ new_row now oid odoo_id reference ∷ [])

abbrev pub answer_existing : Reference → Row → List Row → Option (Row × List Row)
answer_existing reference r rows =
    if same_reference r.reference reference then some (r, rows) else none

-- `initiate`, for the reference that `validate_input` returned, if it did, and the drawn `uuid4`;
-- the primary key refuses an id that is there.
unfoldable pub initiate : ℕ → String → ℕ → Option Reference → List Row → Option (Row × List Row)
unfolding find_odoo
initiate now oid odoo_id none rows = none
initiate now oid odoo_id (some reference) rows = elim (find_odoo odoo_id rows) [
  | none ↦ insert_row now oid odoo_id reference rows
  | some r ↦ answer_existing reference r rows
]

-- The rows that `mapping` reads, and those of them that bind one of its two ids to another.
abbrev pub touches : String → ℕ → Mapping → Bool
touches cid odoo_id m = str_eq m.container_id cid || m.odoo_container_id == odoo_id

abbrev pub conflicts : String → ℕ → Mapping → Bool
conflicts cid odoo_id m =
    touches cid odoo_id m
    && (not (str_eq m.container_id cid) || not (m.odoo_container_id == odoo_id))

abbrev pub same_bool : Bool → Bool → Bool
same_bool true b = b
same_bool false b = not b

abbrev pub refreshed : ℕ → String → String → Bool → Bool → Mapping → Mapping
refreshed now cid number active refresh m =
    if str_eq m.container_id cid
    then record m {
      next_refresh_at =
          if not (same_bool m.active active) || (not (str_eq m.expected_number number) || refresh)
          then now
          else m.next_refresh_at;
      expected_number = number;
      active = active;
    }
    else m

-- `mapping`
unfoldable pub mapping :
    ℕ → String → ℕ → String → Bool → Bool → List Mapping → Option (List Mapping)
mapping now cid odoo_id number active refresh ms =
    if any (conflicts cid odoo_id) ms
    then none
    else if any (touches cid odoo_id) ms
    then some (map (refreshed now cid number active refresh) ms)
    else some (
        ms
        ++ record {
          container_id = cid;
          odoo_container_id = odoo_id;
          expected_number = number;
          active = active;
          next_refresh_at = now;
        }
          ∷ [])

-- ===== src/Ksp/Journal.antt =====
-- `GatewayStore` (src/integrations/ksp_gateway/store.py), the connector's journal. Each method is one
-- immediate SQLite transaction, which is rolled back when it raises. `digest` of
-- src/integrations/ksp_gateway/mapping.py, which hashes the canonical text of a value, is an
-- argument. Times are milliseconds.
pub mod Slots
pub mod Packages
use bokser_app.Prelude.{
  ℕ, ◌+◌, ◌-◌, String, ◌≡◌, Bool, true, false, not, ◌&&◌, ◌||◌, Option, none, some, List, [], ◌∷◌,
  ◌++◌, map, any, ltb, str_eq, if◌then◌else◌,
}
use bokser_app.Json.{Json}

pub data State : Type 0 where
  ready posting uncertain pending accepted acknowledged : State

-- The mapping of an allocation, as `allocation_binding` makes it.
pub record Mapping : Type 0 where
  pub code : String
  pub anchor_id : ℕ
  pub warehouse_id : ℕ
  pub lines : Json

-- A row of `binding`.
pub record Binding : Type 0 where
  pub code : String
  pub request_hash : String
  pub body : Json
  pub mapping : Mapping
  pub claim_token : String
  pub state : State
  pub order_id : Option String
  pub logiwa_id : Option Json
  pub note : Option String

-- A package report; `content` is all but its event id.
pub record Report : Type 0 where
  pub event_id : String
  pub content : Json

-- A row of `package_event`.
pub record Event : Type 0 where
  pub event_id : String
  pub code : String
  pub report : Report
  pub fingerprint : String
  pub applied : Bool

pub record Db : Type 0 where
  pub bindings : List Binding
  pub events : List Event
  -- `rate_slot.next_at`
  pub next_at : Option ℕ

-- The two digests that the journal takes.
pub record Digest : Type 0 where
  pub of_request : Json → Mapping → String → String
  pub of_report : Report → String

abbrev pub is_ready : State → Bool
is_ready ready = true
is_ready _ = false

unfoldable pub find : String → List Binding → Option Binding
find code [] = none
find code (b ∷ bs) = if str_eq b.code code then some b else find code bs

abbrev pub has_code : String → Binding → Bool
has_code code b = str_eq b.code code

abbrev pub or_else {ℓ} : {A : Type ℓ} → Option A → A → A
or_else none d = d
or_else (some a) d = a

-- `reserve_request_slot`, with the interval and the clock: the wait, and the table.
unfoldable pub reserve_request_slot : ℕ → ℕ → Db → ℕ × Db
reserve_request_slot interval now db =
    let slot = or_else db.next_at now in
    let reserved = if ltb now slot then slot else now in
    (reserved - now, record db { next_at = some (reserved + interval) })

abbrev pub new_binding : String → Json → Mapping → String → Binding
new_binding hash body mapping token = record {
  code = mapping.code;
  request_hash = hash;
  body = body;
  mapping = mapping;
  claim_token = token;
  state = ready;
  order_id = none;
  logiwa_id = none;
  note = none;
}

-- `stage`: the row of the code, or the exception for other content under the same code.
unfoldable pub stage : Digest → Json → Mapping → String → Db → Option Binding × Db
stage digest body mapping token db =
    let hash = digest.of_request body mapping token in
    elim (find mapping.code db.bindings) [
      | some old ↦ if str_eq old.request_hash hash then (some old, db) else (none, db)
      | none ↦
          let new = new_binding hash body mapping token in
          (some new, record db { bindings = db.bindings ++ new ∷ [] })
    ]

-- `start_post`: `UPDATE … SET state='posting' WHERE code=? AND state='ready'`, and whether a row was
-- updated.
abbrev pub is_startable : String → Binding → Bool
is_startable code b = has_code code b && is_ready b.state

abbrev pub start_one : String → Binding → Binding
start_one code b = if is_startable code b then record b { state = posting } else b

unfoldable pub start_post : String → Db → Bool × Db
start_post code db =
    (any (is_startable code) db.bindings, record db { bindings = map (start_one code) db.bindings })

-- `COALESCE(new, old)`
abbrev pub coalesce {ℓ} : {A : Type ℓ} → Option A → Option A → Option A
coalesce none old = old
coalesce (some a) old = some a

abbrev pub set_one :
    String → State → Option String → Option Json → Option String → Binding → Binding
set_one code state order_id logiwa_id note b =
    if has_code code b
    then record b {
      state = state;
      order_id = coalesce order_id b.order_id;
      logiwa_id = coalesce logiwa_id b.logiwa_id;
      note = note;
    }
    else b

-- `state`
unfoldable pub set_state : String → State → Option String → Option Json → Option String → Db → Db
set_state code state order_id logiwa_id note db = record db {
  bindings = map (set_one code state order_id logiwa_id note) db.bindings;
}

unfoldable pub find_event : String → List Event → Option Event
find_event id [] = none
find_event id (e ∷ es) = if str_eq e.event_id id then some e else find_event id es

-- `set(existing) - {report["event_id"] …}` is empty.
abbrev pub is_reported : List Report → String → Bool
is_reported reports id = any (λ r. str_eq r.event_id id) reports

unfoldable pub none_missing : String → List Report → List Event → Bool
none_missing code reports [] = true
none_missing code reports (e ∷ es) =
    (not (str_eq e.code code) || is_reported reports e.event_id) && none_missing code reports es

-- The two tests on the row that has a report's event id.
abbrev pub agrees_with : Digest → String → Report → Option Event → Bool
agrees_with digest code r none = true
agrees_with digest code r (some e) = str_eq e.code code && str_eq e.fingerprint (digest.of_report r)

unfoldable pub all_agree : Digest → String → List Event → List Report → Bool
all_agree digest code events [] = true
all_agree digest code events (r ∷ rs) =
    agrees_with digest code r (find_event r.event_id events) && all_agree digest code events rs

abbrev pub new_event : Digest → String → Report → Event
new_event digest code r = record {
  event_id = r.event_id;
  code = code;
  report = r;
  fingerprint = digest.of_report r;
  applied = false;
}

-- `INSERT OR IGNORE`
abbrev pub insert_event : Event → List Event → List Event
insert_event e events =
    if any (λ (x : Event). str_eq x.event_id e.event_id) events then events else events ++ e ∷ []

unfoldable pub insert_events : Digest → String → List Report → List Event → List Event
insert_events digest code [] events = events
insert_events digest code (r ∷ rs) events =
    insert_events digest code rs (insert_event (new_event digest code r) events)

-- `stage_packages`: whether it returns, and the table.
unfoldable pub stage_packages : Digest → String → List Report → Db → Bool × Db
unfolding none_missing all_agree insert_events
stage_packages digest code reports db =
    if none_missing code reports db.events && all_agree digest code db.events reports
    then (true, record db { events = insert_events digest code reports db.events })
    else (false, db)

-- `applied`
abbrev pub mark_applied : String → Event → Event
mark_applied id e = if str_eq e.event_id id then record e { applied = true } else e

unfoldable pub set_applied : String → Db → Db
set_applied id db = record db { events = map (mark_applied id) db.events }

-- ===== src/Shipments/Queue.antt =====
-- The shipment queue, table `shipment_sync`: the row (`SosShipmentSync` of
-- src/database/models/sos_models.py), the ingestion statement `shipment_sync_upsert`
-- (src/database/utils/shipment_sync_queue.py), and the transactions of `SosShipmentSyncTasks`
-- (src/worker/jobs/push_data/sos/sos_shipment_sync.py). Times are seconds.
mod Find
pub mod Finish
pub mod Ingest
use mathlib.Core.Option
use mathlib.Core.List.{filter}
use bokser_app.Prelude.{
  ℕ, suc, ◌+◌, ◌-◌, String, Bool, true, false, not, ◌&&◌, ◌||◌, Option, none, some, List, [], ◌∷◌,
  ◌++◌, map, any, leb, ◌==◌, str_eq, if◌then◌else◌,
}

pub data Status : Type 0 where
  pending processing sent failed reconcile : Status

-- The texts written to `last_error`: `text` is `str(exc)` of any other exception.
pub data Message : Type 0 where
  payload_changed source_changed held_for_reconciliation disappeared no_valid_id : Message
  text : String → Message
  returned : ℕ → String → Message
  requires_reconciliation : Option ℕ → Message → Message

pub record Row : Type 0 where
  pub id : ℕ
  pub source : String
  pub source_id : String
  pub payload_hash : Option String
  pub status : Status
  pub attempts : ℕ
  pub last_sent_at : Option ℕ
  pub last_error : Option Message
  pub sos_shipment_id : Option ℕ
  pub created_at : ℕ

-- The table, and the sequence of its primary key.
pub record Db : Type 0 where
  pub rows : List Row
  pub next_id : ℕ

abbrev pub is_pending : Status → Bool
is_pending pending = true
is_pending _ = false

abbrev pub is_processing : Status → Bool
is_processing processing = true
is_processing _ = false

abbrev pub is_sent : Status → Bool
is_sent sent = true
is_sent _ = false

-- `SosShipmentSync.status.in_(("sent", "processing", "reconcile"))`
abbrev pub is_held : Status → Bool
is_held sent = true
is_held processing = true
is_held reconcile = true
is_held _ = false

-- `==` of two optional texts and of two optional numbers.
abbrev pub hash_eq : Option String → Option String → Bool
hash_eq none none = true
hash_eq (some a) (some b) = str_eq a b
hash_eq _ _ = false

abbrev pub id_eq : Option ℕ → Option ℕ → Bool
id_eq none none = true
id_eq (some a) (some b) = a == b
id_eq _ _ = false

-- The row with a primary key.
unfoldable pub find : ℕ → List Row → Option Row
find j [] = none
find j (r ∷ rs) = if r.id == j then some r else find j rs

abbrev pub has_key : String → String → Row → Bool
has_key s i r = str_eq r.source s && str_eq r.source_id i

-- The row that the INSERT would add.
abbrev pub fresh_row : ℕ → ℕ → String → String → String → Row
fresh_row now id s i h = record {
  id = id;
  source = s;
  source_id = i;
  payload_hash = some h;
  status = pending;
  attempts = 0;
  last_sent_at = none;
  last_error = none;
  sos_shipment_id = none;
  created_at = now;
}

-- `on_conflict_do_update`, with its `where`.
unfoldable pub conflict_update : String → Row → Row
conflict_update h r =
    if hash_eq r.payload_hash (some h)
    then r
    else if is_held r.status
    then record r { payload_hash = some h; status = reconcile; last_error = some payload_changed }
    else record r { payload_hash = some h }

abbrev pub update_key : String → String → String → Row → Row
update_key s i h r = if has_key s i r then conflict_update h r else r

-- `shipment_sync_upsert`
unfoldable pub shipment_sync_upsert : ℕ → String → String → String → Db → Db
shipment_sync_upsert now s i h db =
    if any (has_key s i) db.rows
    then record db { rows = map (update_key s i h) db.rows }
    else record { rows = db.rows ++ fresh_row now db.next_id s i h ∷ []; next_id = suc db.next_id }

-- `get_shipments_to_sync`: pending rows that are 15 minutes old.
abbrev pub is_due : ℕ → Row → Bool
is_due now r = is_pending r.status && leb (r.created_at + 900) now

unfoldable pub due_rows : ℕ → List Row → List Row
due_rows now [] = []
due_rows now (r ∷ rs) = if is_due now r then r ∷ due_rows now rs else due_rows now rs

unfoldable pub get_shipments_to_sync : ℕ → Db → List Row
unfolding due_rows
get_shipments_to_sync now db = due_rows now db.rows

-- The atomic claim: UPDATE … WHERE id AND status = 'pending' RETURNING.
abbrev pub is_claimable : ℕ → Row → Bool
is_claimable id r = r.id == id && is_pending r.status

abbrev pub mark_processing : ℕ → Row → Row
mark_processing now r = record r {
  status = processing;
  attempts = r.attempts + 1;
  last_sent_at = some now;
  last_error = none;
}

abbrev pub claim_one : ℕ → ℕ → Row → Row
claim_one now id r = if is_claimable id r then mark_processing now r else r

unfoldable pub first_claimable : ℕ → List Row → Option Row
first_claimable id [] = none
first_claimable id (r ∷ rs) = if is_claimable id r then some r else first_claimable id rs

unfoldable pub claim : ℕ → ℕ → Db → Option Row × Db
unfolding first_claimable
claim now id db = (
  Option.map (mark_processing now) (first_claimable id db.rows),
  record db { rows = map (claim_one now id) db.rows },
)

-- Python's `error or "Source changed during shipment processing; …"`
abbrev pub or_source_changed : Option Message → Message
or_source_changed none = source_changed
or_source_changed (some (text s)) = if str_eq s "" then source_changed else text s
or_source_changed (some m) = m

-- The body of `_finish_attempt` between the early return and the commit.
unfoldable pub conclude_status : Row → Status → Option Message → Row → Row
conclude_status claimed status error row =
    if not (is_processing row.status) || not (hash_eq row.payload_hash claimed.payload_hash)
    then record row { status = reconcile; last_error = some (or_source_changed error) }
    else record row { status = status; last_error = error }

abbrev pub keep_shipment_id : Option ℕ → Row → Row
keep_shipment_id none row = row
keep_shipment_id (some n) row = record row { sos_shipment_id = some n }

unfoldable pub conclude : Row → Status → Option Message → Option ℕ → Row → Row
unfolding conclude_status
conclude claimed status error shipment_id row =
    keep_shipment_id shipment_id (conclude_status claimed status error row)

abbrev pub update_id : ℕ → (Row → Row) → Row → Row
update_id id f r = if r.id == id then f r else r

-- The early return: the commit of an earlier call went through.
abbrev pub is_acknowledged : Option ℕ → Row → Bool
is_acknowledged shipment_id row = is_sent row.status && id_eq row.sos_shipment_id shipment_id

abbrev pub raise_if_not_sent : Status → Row → Option Message
raise_if_not_sent status row =
    if is_sent status && not (is_sent row.status) then some held_for_reconciliation else none

-- `_finish_attempt`: the exception that it raises, if any, and the table that it leaves. The last
-- exception is raised after the commit.
unfoldable pub finish_attempt : Row → Status → Option Message → Option ℕ → Db → Option Message × Db
unfolding conclude
finish_attempt claimed status error shipment_id db = elim (find claimed.id db.rows) [
  | none ↦ (some disappeared, db)
  | some row ↦ if is_acknowledged shipment_id row then (none, db) else (
    raise_if_not_sent status (conclude claimed status error shipment_id row),
    record db {
      rows = map (update_id claimed.id (conclude claimed status error shipment_id)) db.rows;
    },
  )
]

-- ===== src/Sos/Load.antt =====
-- `load_sos_records`, and the status of a lake file after it
-- (src/worker/jobs/process_data/sos/process_sos_data.py). The payload mapper is an argument that may
-- refuse a record. Ids and sync tokens are naturals.
pub mod Versions
use bokser_app.Prelude.{
  ℕ, zero, suc, ◌+◌, ◌≡◌, Bool, true, false, not, ◌&&◌, Option, none, some, List, [], ◌∷◌, leb,
  ◌==◌, if◌then◌else◌,
}
use bokser_app.Lake.Manifest.{Status, loaded, failed, skipped, partial, empty}

-- A mapped record; `body` stands for its other columns.
pub record Data {ℓ} (B : Type ℓ) : Type ℓ where
  pub id : ℕ
  pub sync_token : Option ℕ
  pub body : B

-- The table of a model, by primary key.
abbrev pub Table {ℓ} : Type ℓ → Type ℓ
Table B = ℕ → Option (Data B)

-- `data.sync_token or 0`
abbrev pub token_or_zero : Option ℕ → ℕ
token_or_zero none = 0
token_or_zero (some t) = t

-- The incoming token is not above the one in the table; there a missing one is below every other.
abbrev pub is_stale : Option ℕ → ℕ → Bool
is_stale none incoming = false
is_stale (some existing) incoming = leb incoming existing

-- The counts of the result.
pub record Counts : Type 0 where
  pub loaded_count : ℕ
  pub skipped_count : ℕ
  pub failed_count : ℕ

abbrev pub no_counts : Counts
no_counts = record { loaded_count = 0; skipped_count = 0; failed_count = 0 }

module _ {ℓ} {B : Type ℓ} where
  -- `select(model.sync_token)`: no row and a null token read alike.
  abbrev pub token_of : Option (Data B) → Option ℕ
  token_of none = none
  token_of (some d) = d.sync_token

  -- `session.merge(data)`
  abbrev pub merge : Data B → Table B → Table B
  merge d table i = if i == d.id then some d else table i

  -- One round of the loop, on the mapped record, or on the mapper's exception (`none`). A merge or a
  -- savepoint that fails, which counts as a failed record too, is not modelled.
  unfoldable pub load_one : Option (Data B) → Table B × Counts → Table B × Counts
  load_one none (table, c) = (table, record c { failed_count = c.failed_count + 1 })
  load_one (some d) (table, c) =
      if is_stale (token_of (table d.id)) (token_or_zero d.sync_token)
      then (table, record c { skipped_count = c.skipped_count + 1 })
      else (merge d table, record c { loaded_count = c.loaded_count + 1 })

  unfoldable pub load_all : List (Option (Data B)) → Table B × Counts → Table B × Counts
  unfolding load_one
  load_all [] s = s
  load_all (m ∷ ms) s = load_all ms (load_one m s)

-- The status of the file after its records: the record count, and the counts of the result.
unfoldable pub file_status : ℕ → ℕ → ℕ → Status
file_status record_count failed_count skipped_count =
    if record_count == 0
    then empty
    else if failed_count == record_count
    then failed
    else if skipped_count == record_count
    then skipped
    else if not (failed_count + skipped_count == 0)
    then partial
    else loaded

-- ===== src/Downloads/Sync.antt =====
-- `sync_endpoints_job` (src/worker/jobs/get_data/base_get.py) with Acenda's `update_state_file`
-- (get_acenda_data.py): the files of the lake's manifest, and the cursors of the state file.
pub mod Cursor
use bokser_app.Prelude.{String, Bool, true, false, Option, none, some, List, [], ◌∷◌, ◌++◌}
use bokser_app.Dict.{Dict, insert}
use bokser_app.Downloads.Acenda.{Record, get_max_date_value}

-- A payload that was written and registered as LANDED, with its records.
pub record Landed : Type 0 where
  pub endpoint : String
  pub records : List Record

-- The registered files, latest first, and `last_updated_at` of each endpoint.
pub record Lake : Type 0 where
  pub files : List Landed
  pub cursors : Dict String

-- `EndpointFetchResult`, with no records where it has an error.
pub record Fetched : Type 0 where
  pub endpoint : String
  pub records : Option (List Record)

-- Where the job stops for good in the turn of an endpoint, if it does: writing the payload,
-- registering it, or storing the state.
pub data Stop : Type 0 where
  finished at_write at_commit at_update : Stop

abbrev pub move_cursor : String → Option String → Lake → Lake
move_cursor endpoint none lake = lake
move_cursor endpoint (some date) lake = record lake { cursors = insert endpoint date lake.cursors }

-- `update_state_file`
unfoldable pub update_state_file : String → List Record → Lake → Lake
unfolding get_max_date_value insert
update_state_file endpoint records lake = move_cursor endpoint (get_max_date_value records) lake

abbrev pub land : String → List Record → Lake → Lake
land endpoint records lake = record lake {
  files = record { endpoint = endpoint; records = records } ∷ lake.files;
}

-- The turn of an endpoint: whether the job goes on, and the lake.
abbrev pub turn : String → List Record → Stop → Lake → Bool × Lake
turn endpoint [] at_update lake = (false, lake)
turn endpoint [] _ lake = (true, update_state_file endpoint [] lake)
turn endpoint (r ∷ rs) finished lake =
    (true, update_state_file endpoint (r ∷ rs) (land endpoint (r ∷ rs) lake))
turn endpoint (r ∷ rs) at_write lake = (false, lake)
turn endpoint (r ∷ rs) at_commit lake = (false, lake)
turn endpoint (r ∷ rs) at_update lake = (false, land endpoint (r ∷ rs) lake)

unfoldable pub sync_one : Fetched → Stop → Lake → Bool × Lake
unfolding update_state_file
sync_one f stop lake = elim f.records [
  | none ↦ (true, lake)
  | some rs ↦ turn f.endpoint rs stop lake
]

-- `sync_endpoints_job`, over the endpoints' results in the order in which they come.
unfoldable pub sync_endpoints_job : List (Fetched × Stop) → Lake → Lake
unfolding sync_one
sync_endpoints_job [] lake = lake
sync_endpoints_job ((f, stop) ∷ rest) lake = elim (sync_one f stop lake).0 [
  | true ↦ sync_endpoints_job rest (sync_one f stop lake).1
  | false ↦ (sync_one f stop lake).1
]

-- ===== src/Lake/Manifest.antt =====
-- The manifest of lake files, table `data_lake_files` (`DataLakeFile` of
-- src/database/models/data_lake_models.py), the registration of a written payload
-- (`write_payload_to_data_lake` of src/storage/raw/utils.py), and the claim of files to load
-- (`claim_lake_files` of src/worker/jobs/process_data/utils/data_lake_tools.py and of
-- src/worker/jobs/process_data/sos/process_sos_data.py). The table is listed in the order of its
-- primary key. Times are seconds. Size, checksum and file name are not kept: no code reads them.
pub mod Claims
mod Tests
use bokser_app.Prelude.{
  ℕ, zero, suc, ◌+◌, ◌-◌, String, ◌≡◌, Bool, true, false, not, ◌&&◌, ◌||◌, Option, none, some, List,
  [], ◌∷◌, ◌++◌, any, ltb, ◌==◌, str_eq, if◌then◌else◌,
}

pub data Status : Type 0 where
  landed processing loaded failed skipped partial empty : Status

-- What `last_error` tells of; its text is not modelled.
pub data Problem : Type 0 where
  records_failed load_raised : Problem

pub record LakeFile : Type 0 where
  pub id : ℕ
  pub source_name : String
  pub entity_name : String
  pub file_path : String
  pub record_count : ℕ
  pub landed_at : ℕ
  pub claimed_at : Option ℕ
  pub processed_at : Option ℕ
  pub status : Status
  pub last_error : Option Problem
  pub attempt_count : ℕ
  pub loaded_count : ℕ
  pub skipped_count : ℕ
  pub failed_count : ℕ

-- A row as `write_payload_to_data_lake` adds it, with the defaults of the other columns.
abbrev pub landed_file : ℕ → String → String → String → ℕ → ℕ → LakeFile
landed_file id source entity path count now = record {
  id = id;
  source_name = source;
  entity_name = entity;
  file_path = path;
  record_count = count;
  landed_at = now;
  claimed_at = none;
  processed_at = none;
  status = landed;
  last_error = none;
  attempt_count = 0;
  loaded_count = 0;
  skipped_count = 0;
  failed_count = 0;
}

abbrev pub is_processing : Status → Bool
is_processing processing = true
is_processing _ = false

-- `EXECUTABLE_LAKE_FILE_STATUSES`
abbrev pub is_executable : Status → Bool
is_executable landed = true
is_executable failed = true
is_executable partial = true
is_executable _ = false

-- `["LANDED", "FAILED"]`, of the SOS loader.
abbrev pub is_sos_executable : Status → Bool
is_sos_executable landed = true
is_sos_executable failed = true
is_sos_executable _ = false

-- `claimed_at < now - 30 minutes`; a comparison with null is not true.
abbrev pub is_before_stale : ℕ → Option ℕ → Bool
is_before_stale now none = false
is_before_stale now (some t) = ltb (t + 1800) now

-- The `or_` of both claims, for a test of statuses.
abbrev pub is_due : (Status → Bool) → ℕ → LakeFile → Bool
is_due executable now f =
    executable f.status || (is_processing f.status && is_before_stale now f.claimed_at)

-- `if name:` and the condition that it adds.
abbrev pub has_name : String → String → Bool
has_name wanted name = str_eq wanted "" || str_eq name wanted

abbrev pub mark_claimed : ℕ → LakeFile → LakeFile
mark_claimed now f = record f {
  status = processing;
  attempt_count = f.attempt_count + 1;
  claimed_at = some now;
}

-- The selected rows, at most `limit` in the order of their ids, each of them marked; and the table
-- after the claim.
unfoldable pub claim_files :
    (LakeFile → Bool) → ℕ → ℕ → List LakeFile → List LakeFile × List LakeFile
claim_files selected now limit [] = ([], [])
claim_files selected now limit (f ∷ fs) =
    let hit = ltb 0 limit && selected f in
    let (cs, rest) = claim_files selected now (if hit then limit - 1 else limit) fs in
    if hit then (mark_claimed now f ∷ cs, mark_claimed now f ∷ rest) else (cs, f ∷ rest)

-- The `where` of the loaders' claim, past the rows that other transactions have locked.
abbrev pub is_selected : String → String → (ℕ → Bool) → ℕ → LakeFile → Bool
is_selected source entity locked now f =
    is_due is_executable now f
    && (has_name source f.source_name && (has_name entity f.entity_name && not (locked f.id)))

-- `claim_lake_files`, with the empty text for no source and for no entity.
unfoldable pub claim_lake_files :
    String → String → (ℕ → Bool) → ℕ → ℕ → List LakeFile → List LakeFile × List LakeFile
unfolding claim_files
claim_lake_files source entity locked now limit files =
    claim_files (is_selected source entity locked now) now limit files

-- `write_payload_to_data_lake`, of a payload that is not empty: id, source, entity, path, count, time.
unfoldable pub register_file : ℕ → String → String → String → ℕ → ℕ → List LakeFile → List LakeFile
register_file id source entity path count now files =
    files ++ landed_file id source entity path count now ∷ []

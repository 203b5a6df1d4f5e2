-- ===== src/Lake/Loaders.antt =====
-- The loaders that share the manifest of lake files: claims of the general loader
-- (src/worker/jobs/process_data/utils/data_lake_tools.py) and of the SOS loader
-- (src/worker/jobs/process_data/sos/process_sos_data.py), the ends of loads, and registrations
-- (src/storage/raw/utils.py), in any order. Each event is one transaction.
pub mod Once
mod Tests
use bokser_app.Prelude.{
  ℕ, ◌+◌, ◌-◌, ◌≤◌, String, ◌≡◌, ◌≢◌, refl, Bool, true, false, not, ◌&&◌, ◌||◌, Option, none, some,
  List, [], ◌∷◌, ◌++◌, map, any, All, leb, ltb, leb→le, ◌==◌, arith, Bool-cases, any-append, inl,
  inr, if◌then◌else◌,
}
use bokser_app.Lake.Manifest.{
  LakeFile, is_processing, mark_claimed, claim_files, is_selected, claim_lake_files, landed_file,
  register_file,
}
use bokser_app.Lake.Manifest.Claims.{Above, Ascends, claim_hit, claim_miss, claim-Above}
use bokser_app.Sos.Files.{is_selected as is_sos_selected, claim_lake_files as claim_sos_files}

-- Which loader claims: the general one with its source and entity, or the SOS one with its entity.
pub data Loader : Type 0 where
  general : String → String → Loader
  sos : String → Loader

unfoldable pub claim_by :
    Loader → (ℕ → Bool) → ℕ → ℕ → List LakeFile → List LakeFile × List LakeFile
claim_by (general source entity) locked now limit fs =
    claim_lake_files source entity locked now limit fs
claim_by (sos entity) locked now limit fs = claim_sos_files entity locked now limit fs

-- A claim past the rows that others have locked, at a time, of so many files; the end of a load,
-- which changes the file as it will, but for its id; the registration of a new file.
pub data Event : Type 0 where
  claim : Loader → (ℕ → Bool) → ℕ → ℕ → Event
  settle : ℕ → (LakeFile → LakeFile) → Event
  register : ℕ → String → String → String → ℕ → ℕ → Event

abbrev pub settled : ℕ → (LakeFile → LakeFile) → LakeFile → LakeFile
settled i g f = if f.id == i then record (g f) { id = f.id } else f

-- The files that an event claims, and the table after it.
unfoldable pub step : Event → List LakeFile → List LakeFile × List LakeFile
step (claim l locked now limit) fs = claim_by l locked now limit fs
step (settle i g) fs = ([], map (settled i g) fs)
step (register i source entity path count now) fs =
    ([], register_file i source entity path count now fs)

-- The files that a run of events claims, in order, and the table after it.
unfoldable pub run : List Event → List LakeFile → List LakeFile × List LakeFile
unfolding step
run [] fs = ([], fs)
run (e ∷ es) fs = let (cs, fs') = step e fs in let (ds, fs'') = run es fs' in (cs ++ ds, fs'')

abbrev pub takes : ℕ → List LakeFile → Bool
takes j cs = any (λ (c : LakeFile). c.id == j) cs

-- The event does not end the load of file j or register an id again, and claims no later than this.
abbrev pub is_quiet : ℕ → ℕ → Event → Bool
is_quiet j until (claim l locked now limit) = leb now until
is_quiet j until (settle i g) = not (i == j)
is_quiet j until (register i source entity path count now) = not (i == j)

-- ===== src/Lake/Loaders/Tests.antt =====
-- Two loaders, the end of another load and a registration, while one file is being loaded.
use bokser_app.Prelude.{ℕ, ◌≡◌, refl, Bool, true, false, List, [], ◌∷◌, map, arith}
use bokser_app.Lake.Manifest.{
  failed, LakeFile, landed_file, claim_lake_files, claim_files, register_file,
}
use bokser_app.Lake.Manifest.Claims.{Ascends}
use bokser_app.Lake.Loaders.{Event, claim, settle, register, general, sos, claim_by, run, takes}
use bokser_app.Lake.Loaders.Once.{claim_once}
use bokser_app.Sos.Files.{is_sos_entity}
use bokser_app.Dict.{lookup}

abbrev unlocked : ℕ → Bool
unlocked _ = false

abbrev items_1 : LakeFile
items_1 = landed_file 1 "sos_inventory" "updated_items" "raw/1.json" 3 100

abbrev rmas_2 : LakeFile
rmas_2 = landed_file 2 "sos_inventory" "rmas" "raw/2.json" 1 110

abbrev files : List LakeFile
files = items_1 ∷ rmas_2 ∷ []

-- The load of the second file fails, so that it is claimed again.
abbrev later : List Event
later =
    claim (sos "") unlocked 600 25
    ∷ settle 2 (λ f. record f { status = failed })
    ∷ register 3 "sos_inventory" "rmas" "raw/3.json" 2 700
    ∷ claim (general "" "") unlocked 900 25
    ∷ []

files-Ascends : Ascends files
files-Ascends = ((omega arith, tt), (tt, tt))

claimed_run :
    map (λ (f : LakeFile). f.id) (run later (claim_by (sos "") unlocked 500 1 files).1).0
    ≡ 2 ∷ 2 ∷ 3 ∷ []
unfolding run claim_by claim_lake_files claim_files register_file is_sos_entity lookup
    bokser_app.Sos.Files.claim_lake_files
claimed_run = refl

items_taken : takes 1 (claim_by (sos "") unlocked 500 1 files).0 ≡ true
unfolding claim_by claim_files is_sos_entity lookup bokser_app.Sos.Files.claim_lake_files
items_taken = refl

claim_once_example : takes 1 (run later (claim_by (sos "") unlocked 500 1 files).1).0 ≡ false
claim_once_example = claim_once 1 (sos "") unlocked 500 1 later files files-Ascends items_taken refl

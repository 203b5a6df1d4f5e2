-- ===== src/Sos/Files/Tests.antt =====
-- A run over two files, one of which cannot be read.
use mathlib.Core.Option
use bokser_app.Prelude.{
  ℕ, String, ◌≡◌, refl, Bool, true, false, Option, none, some, List, [], ◌∷◌, map, All, str_eq,
  if◌then◌else◌,
}
use bokser_app.Json.{Json, str, arr, obj, nil, cons, end, field, get}
use bokser_app.Dict.{lookup}
use bokser_app.Lake.Manifest.{
  Status, loaded, failed, LakeFile, landed_file, mark_claimed, claim_files,
}
use bokser_app.Lake.Envelope.{all_objects}
use bokser_app.Sos.Load.{Data, load_all, load_one, file_status, no_counts}
use bokser_app.Sos.Files.{
  no_fault, after_commit, Env, World, Totals, is_sos_entity, claim_lake_files, extract_json_records,
  map_items, read_file, hold_file, commit_file, store_file, load_file, load_files,
  load_sos_lake_files, update_id, mark_loaded, mark_failed,
}
use bokser_app.Sos.Files.Settles.{Settled, lake_files-Settled}

abbrev items_file : LakeFile
items_file = landed_file 1 "sos_inventory" "updated_items" "raw/items.json" 1 100

abbrev broken_file : LakeFile
broken_file = landed_file 2 "sos_inventory" "rmas" "raw/rmas.json" 1 110

abbrev item : Data ℕ
item = record { id = 7; sync_token = some 2; body = 20 }

abbrev contents : String → Option Json
contents path = elim (str_eq path "raw/items.json") [
  | true ↦ some (
      obj (
        field "metadata" (obj (field "entity_name" (str "updated_items") end))
          (field "payload" (arr (cons (obj end) nil)) end)))
  | false ↦ none
]

-- The acknowledgement of the first file's commit is lost.
abbrev env : Env ℕ
env = record {
  read_json = contents;
  map_record = λ t d. some item;
  now = 500;
  fault = λ id. after_commit;
  hold_fails = λ id. false;
}

abbrev calm : Env ℕ
calm = record env { fault = λ id. no_fault }

abbrev world : World ℕ
world = record { files = items_file ∷ broken_file ∷ []; tables = λ t i. none }

abbrev run_of : Env ℕ → Option (Bool × World ℕ × Totals)
run_of e = load_sos_lake_files e "" (λ _. false) 25 world

calm_run :
    Option.map {B = List Status}
      (λ (r : Bool × World ℕ × Totals). map {B = Status} (λ f. f.status) r.1.files)
      (run_of calm)
    ≡ some (loaded ∷ failed ∷ [])
unfolding load_sos_lake_files claim_lake_files claim_files is_sos_entity load_files load_file
    store_file commit_file hold_file read_file lookup extract_json_records get all_objects map_items
    load_all load_one file_status
calm_run = refl

abbrev after_run : World ℕ
after_run = record {
  files = map (update_id 2 mark_failed) (
      map (update_id 1 (mark_loaded 500 1 (record no_counts { loaded_count = 1 })))
        (mark_claimed 500 items_file ∷ mark_claimed 500 broken_file ∷ []));
  tables = λ t.
      if str_eq t "item"
      then (load_all (some item ∷ []) ((λ i. none), no_counts)).0
      else (λ i. none);
}

calm_ends :
    run_of calm
    ≡ some (true, after_run, record { total_loaded = 1; total_skipped = 0; failed_files = 2 ∷ [] })
unfolding load_sos_lake_files claim_lake_files claim_files is_sos_entity load_files load_file
    store_file commit_file hold_file read_file lookup extract_json_records get all_objects map_items
    load_all load_one file_status
calm_ends = refl

lake_files-Settled_example :
    All (λ c. Settled after_run.files c.id) (claim_lake_files "" (λ _. false) 500 25 world.files).0
lake_files-Settled_example =
    lake_files-Settled calm "" (λ _. false) 25 world after_run
      (record { total_loaded = 1; total_skipped = 0; failed_files = 2 ∷ [] }) calm_ends

-- Another file brings a newer version of the row before the first is loaded again.
abbrev newer : Data ℕ
newer = record { id = 7; sync_token = some 3; body = 30 }

abbrev newer_env : Env ℕ
newer_env = record calm { map_record = λ t d. some newer }

abbrev newer_file : LakeFile
newer_file = landed_file 3 "sos_inventory" "updated_items" "raw/items.json" 1 120

abbrev two_files : World ℕ
two_files = record { files = items_file ∷ newer_file ∷ []; tables = λ t i. none }

abbrev between : List (Env ℕ × LakeFile)
between = (newer_env, newer_file) ∷ []

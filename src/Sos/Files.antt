-- ===== src/Sos/Files.antt =====
-- `load_sos_lake_files`, its claim and its reading of a file
-- (src/worker/jobs/process_data/sos/process_sos_data.py). The contents of files, the payload mapper
-- and the failures of transactions are an environment.

pub mod Settles
pub mod Retry
mod Tests
use bokser_app.Prelude.{
  ℕ, suc, ◌+◌, String, ◌≡◌, Bool, true, false, not, ◌&&◌, ◌||◌, Option, none, some, List, [], ◌∷◌,
  ◌++◌, map, any, length, ltb, ◌==◌, str_eq, if◌then◌else◌,
}
use bokser_app.Json.{
  Json, null, bool, num, float, str, arr, obj, Items, nil, cons, Fields, end, field, get,
}
use bokser_app.Dict.{Dict, lookup}
use bokser_app.Lake.Manifest.{
  Status, failed, partial, Problem, records_failed, load_raised, LakeFile, is_due,
  is_sos_executable, has_name, claim_files,
}
use bokser_app.Lake.Envelope.{all_objects, entity_matches}
use bokser_app.Sos.Load.{Data, Table, Counts, no_counts, load_all, file_status}

-- `SOS_ENTITY_TYPES`
abbrev pub sos_entity_types : Dict String
sos_entity_types =
    ("updated_sales_orders", "sales_order")
    ∷ ("updated_invoices", "invoice")
    ∷ ("updated_shipments", "shipment")
    ∷ ("updated_item_receipts", "item_receipt")
    ∷ ("updated_items", "item")
    ∷ ("updated_purchase_orders", "purchase_order")
    ∷ ("purchase_orders", "purchase_order")
    ∷ ("sales_receipts", "sales_receipt")
    ∷ ("estimates", "estimate")
    ∷ ("adjustments", "adjustment")
    ∷ ("returns", "return")
    ∷ ("rmas", "rma")
    ∷ ("payments", "payment")
    ∷ []

abbrev pub is_some : Option String → Bool
is_some none = false
is_some (some t) = true

-- `entity_name in SOS_ENTITY_TYPES`
unfoldable pub is_sos_entity : String → Bool
is_sos_entity entity = is_some (lookup entity sos_entity_types)

-- The `where` of `claim_lake_files`, with the empty text for no entity, past locked rows.
abbrev pub is_selected : String → (ℕ → Bool) → ℕ → LakeFile → Bool
is_selected entity locked now f =
    str_eq f.source_name "sos_inventory"
    && (is_sos_entity f.entity_name
        && (is_due is_sos_executable now f && (has_name entity f.entity_name && not (locked f.id))))

unfoldable pub claim_lake_files :
    String → (ℕ → Bool) → ℕ → ℕ → List LakeFile → List LakeFile × List LakeFile
claim_lake_files entity locked now limit files =
    claim_files (is_selected entity locked now) now limit files

-- The payload list, if all of it is objects.
abbrev pub object_list : Option Json → Option Items
object_list (some (arr items)) = if all_objects items then some items else none
object_list _ = none

abbrev pub records_of : String → Option Json → Option Json → Option Items
records_of expected (some (obj metadata)) records =
    if entity_matches expected (get "entity_name" metadata) then object_list records else none
records_of expected _ records = none

-- `extract_json_records`, with `none` for `ValueError`.
unfoldable pub extract_json_records : String → Json → Option Items
extract_json_records expected (obj payload) =
    records_of expected (get "metadata" payload) (get "payload" payload)
extract_json_records expected _ = none

-- How the transaction that loads a file fails: not at all, before its commit, or with the
-- acknowledgement lost after it.
pub data Fault : Type 0 where
  no_fault before_commit after_commit : Fault

pub record Env {ℓ} (B : Type ℓ) : Type ℓ where
  -- the contents of a file, or the exception of `open` or `json.load`
  pub read_json : String → Option Json
  -- `SosPayloadMapper.map_record`, by payload type, or its exception
  pub map_record : String → Fields → Option (Data B)
  pub now : ℕ
  pub fault : ℕ → Fault
  -- the transaction of the `except` block fails
  pub hold_fails : ℕ → Bool

pub record World {ℓ} (B : Type ℓ) : Type ℓ where
  pub files : List LakeFile
  -- the table of each payload type
  pub tables : String → Table B

-- The running totals of the result.
pub record Totals : Type 0 where
  pub total_loaded : ℕ
  pub total_skipped : ℕ
  pub failed_files : List ℕ

abbrev pub no_totals : Totals
no_totals = record { total_loaded = 0; total_skipped = 0; failed_files = [] }

abbrev pub update_id : ℕ → (LakeFile → LakeFile) → LakeFile → LakeFile
update_id id g f = if f.id == id then g f else f

abbrev pub error_after : Status → ℕ → Option Problem
error_after failed failed_count = some records_failed
error_after partial failed_count = if failed_count == 0 then none else some records_failed
error_after _ failed_count = none

-- The columns after a load of so many records, with these counts.
abbrev pub mark_loaded : ℕ → ℕ → Counts → LakeFile → LakeFile
mark_loaded now n c f =
    let s = file_status n c.failed_count c.skipped_count in
    record f {
      processed_at = some now;
      loaded_count = c.loaded_count;
      skipped_count = c.skipped_count;
      failed_count = c.failed_count;
      status = s;
      last_error = error_after s c.failed_count;
    }

abbrev pub mark_failed : LakeFile → LakeFile
mark_failed f = record f { status = failed; last_error = some load_raised }

abbrev pub extracted : String → Option Json → Option Items
extracted entity none = none
extracted entity (some j) = extract_json_records entity j

abbrev pub add_totals : Counts → Totals → Totals
add_totals c tot = record tot {
  total_loaded = tot.total_loaded + c.loaded_count;
  total_skipped = tot.total_skipped + c.skipped_count;
}

module _ {ℓ} {B : Type ℓ} where
  -- The mapper on each record of a list of objects.
  unfoldable pub map_items : (Fields → Option (Data B)) → Items → List (Option (Data B))
  map_items m nil = []
  map_items m (cons (obj d) items) = m d ∷ map_items m items
  map_items m (cons _ items) = none ∷ map_items m items

  abbrev pub mapped_items :
      Env B → Option String → Option Items → Option (String × List (Option (Data B)))
  mapped_items env (some t) (some items) = some (t, map_items (env.map_record t) items)
  mapped_items env _ _ = none

  -- The payload type of a file and its mapped records, or an exception.
  unfoldable pub read_file : Env B → LakeFile → Option (String × List (Option (Data B)))
  unfolding map_items
  read_file env c =
      mapped_items env (lookup c.entity_name sos_entity_types)
        (extracted c.entity_name (env.read_json c.file_path))

  abbrev pub set_table : String → Table B → (String → Table B) → String → Table B
  set_table t new tables k = if str_eq k t then new else tables k

  -- The transaction's work on a file that is there.
  abbrev pub loaded_world : Env B → LakeFile → String → List (Option (Data B)) → World B → World B
  loaded_world env c t ms w =
      let (table', counts) = load_all ms (w.tables t, no_counts) in
      record {
        files = map (update_id c.id (mark_loaded env.now (length ms) counts)) w.files;
        tables = set_table t table' w.tables;
      }

  -- The `except` block; its own failure ends the function.
  unfoldable pub hold_file : Env B → LakeFile → World B → Totals → Bool × World B × Totals
  hold_file env c w tot =
      let tot' = record tot { failed_files = tot.failed_files ++ c.id ∷ [] } in
      if env.hold_fails c.id
      then (false, w, tot')
      else (true, record w { files = map (update_id c.id mark_failed) w.files }, tot')

  -- The end of the transaction; the totals were added before it.
  unfoldable pub commit_file :
      Fault → Env B → LakeFile → World B → World B → Totals → Bool × World B × Totals
  unfolding hold_file
  commit_file no_fault env c w w' tot = (true, w', tot)
  commit_file before_commit env c w w' tot = hold_file env c w tot
  commit_file after_commit env c w w' tot = hold_file env c w' tot

  -- From the file's records on.
  unfoldable pub store_file :
      Env B
      → LakeFile
      → Option (String × List (Option (Data B)))
      → World B
      → Totals
      → Bool × World B × Totals
  unfolding commit_file hold_file
  store_file env c none w tot = hold_file env c w tot
  store_file env c (some (t, ms)) w tot =
      if any (λ f. f.id == c.id) w.files
      then commit_file (env.fault c.id) env c w (loaded_world env c t ms w)
          (add_totals (load_all ms (w.tables t, no_counts)).1 tot)
      else hold_file env c w tot

  -- The body of the loop.
  unfoldable pub load_file : Env B → LakeFile → World B → Totals → Bool × World B × Totals
  unfolding store_file read_file
  load_file env c w tot = store_file env c (read_file env c) w tot

  -- The loop over the claimed files: whether it comes to its end, and what it leaves.
  unfoldable pub load_files : Env B → List LakeFile → World B → Totals → Bool × World B × Totals
  unfolding load_file
  load_files env [] w tot = (true, w, tot)
  load_files env (c ∷ cs) w tot =
      let (ok, w', tot') = load_file env c w tot in
      let rest = load_files env cs w' tot' in if ok then rest else (false, w', tot')

  -- `load_sos_lake_files`, with the empty text for no entity: `none` for an unsupported entity.
  unfoldable pub load_sos_lake_files :
      Env B → String → (ℕ → Bool) → ℕ → World B → Option (Bool × World B × Totals)
  unfolding claim_lake_files load_files
  load_sos_lake_files env entity locked limit w =
      let (cs, files') = claim_lake_files entity locked env.now limit w.files in
      let result = load_files env cs (record w { files = files' }) no_totals in
      if str_eq entity "" || is_sos_entity entity then some result else none

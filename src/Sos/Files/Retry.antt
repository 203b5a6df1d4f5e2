-- ===== src/Sos/Files/Retry.antt =====
-- A file that is loaded again after its load was committed.
use bokser_app.Prelude.{
  ℕ, List, [], ◌∷◌, String, ◌≡◌, refl, Option, some, any, ◌==◌, Bool-cases, inl, inr, ◌⊎◌,
}
use bokser_app.Lake.Manifest.{LakeFile}
use bokser_app.Sos.Load.{Data, Table, no_counts, token_of, load_all}
use bokser_app.Sos.Load.Versions.{version}
use bokser_app.Sos.Files.{
  Fault, no_fault, before_commit, after_commit, Env, World, Totals, no_totals, read_file, set_table,
  loaded_world, hold_file, commit_file, store_file, load_file, add_totals,
}

module _ {ℓ} {B : Type ℓ} where
  -- A table of payload type t after the load of mapped records.
  abbrev pub table_after : String → List (Option (Data B)) → (String → Table B) → Table B
  table_after t ms tables = (load_all ms (tables t, no_counts)).0

  -- Each table is as it was, or as the load leaves it.
  abbrev pub OneLoad : String → List (Option (Data B)) → (String → Table B) → World B → Type ℓ
  OneLoad t ms tables w =
      (w.tables ≡ tables) ⊎ (w.tables ≡ set_table t (table_after t ms tables) tables)

  hold_tables :
      (env : Env B) (c : LakeFile) (w : World B) (tot : Totals)
      → (hold_file env c w tot).1.tables ≡ w.tables
  unfolding hold_file
  hold_tables env c w tot = elim (Bool-cases (env.hold_fails c.id)) [
    | inl fails ↦ rw fails
    | inr holds ↦ rw holds
  ]

  commit_either :
      (x : Fault) (env : Env B) (c : LakeFile) (w w' : World B) (tot : Totals)
      → let r = commit_file x env c w w' tot in (r.1.tables ≡ w.tables) ⊎ (r.1.tables ≡ w'.tables)
  unfolding commit_file
  commit_either no_fault env c w w' tot = inr refl
  commit_either before_commit env c w w' tot = inl (hold_tables env c w tot)
  commit_either after_commit env c w w' tot = inr (hold_tables env c w' tot)

  -- One pass over a file leaves the tables as they were, or as its load leaves them: a load is never
  -- half done.
  pub load_file-OneLoad :
      (env : Env B) (c : LakeFile) (t : String) (ms : List (Option (Data B))) (w : World B)
      (tot : Totals)
      → read_file env c ≡ some (t, ms)
      → OneLoad t ms w.tables (load_file env c w tot).1
  unfolding load_file store_file
  load_file-OneLoad env c t ms w tot e = rw e (elim (Bool-cases (any (λ f. f.id == c.id) w.files)) [
    | inl there ↦ rw there (
        commit_either (env.fault c.id) env c w (loaded_world env c t ms w)
          (add_totals (load_all ms (w.tables t, no_counts)).1 tot))
    | inr gone ↦ rw gone (inl (hold_tables env c w tot))
  ])

  -- Passes over files, each with its own environment, one after the other.
  abbrev pub passes : List (Env B × LakeFile) → World B → World B
  passes [] w = w
  passes ((env, c) ∷ rest) w = passes rest (load_file env c w no_totals).1

  -- The version of a row in a table of payload type k.
  abbrev row_version : String → ℕ → World B → ℕ
  row_version k i w = version (token_of (w.tables k i))

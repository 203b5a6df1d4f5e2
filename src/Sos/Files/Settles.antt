-- ===== src/Sos/Files/Settles.antt =====
-- What a run over the claimed files leaves in the manifest and in the tables.
use bokser_app.Prelude.{
  ℕ, String, ◌≡◌, refl, Bool, true, false, ◌&&◌, Option, none, some, List, [], ◌∷◌, map, any, All,
  length, ◌==◌, arith, Bool-cases, inl, inr, ◌⊎◌, ap, sym, subst,
}
use bokser_app.Lake.Manifest.{LakeFile, is_processing}
use bokser_app.Sos.Load.{Data, Counts, no_counts, load_all, file_status}
use bokser_app.Sos.Files.{
  Fault, no_fault, before_commit, after_commit, Env, World, Totals, update_id, mark_loaded,
  mark_failed, read_file, loaded_world, hold_file, commit_file, store_file, load_file, load_files,
  add_totals, claim_lake_files, load_sos_lake_files, no_totals,
}

-- A file that a run has left in the state PROCESSING.
abbrev pub is_left : ℕ → LakeFile → Bool
is_left j f = f.id == j && is_processing f.status

-- The file, or files, with an id are not left.
abbrev pub Settled : List LakeFile → ℕ → Type 0
Settled files j = All (λ f. is_left j f ≡ false) files

-- An update of a row that leaves it settled.
abbrev Settles : (LakeFile → LakeFile) → Type 0
Settles g = (f : LakeFile) → is_processing (g f).status ≡ false

file_status_settled : (n a b : ℕ) → is_processing (file_status n a b) ≡ false
unfolding file_status
file_status_settled n a b = ground arith

Settled-map :
    (j : ℕ) (g : LakeFile → LakeFile) (files : List LakeFile)
    → Settles g
    → Settled (map (update_id j g) files) j
Settled-map j g [] h = tt
Settled-map j g (f ∷ files) h = (
  elim (Bool-cases (f.id == j)) [
    | inl same ↦ rw same (ground (arith, h f))
    | inr other ↦ rw other (ground arith)
  ],
  Settled-map j g files h,
)

Settled-keep :
    (j i : ℕ) (g : LakeFile → LakeFile) (files : List LakeFile)
    → Settles g
    → Settled files j
    → Settled (map (update_id i g) files) j
Settled-keep j i g [] h a = tt
Settled-keep j i g (f ∷ files) h a = (
  elim (Bool-cases (f.id == i)) [
    | inl same ↦ rw same (ground (arith, h f))
    | inr other ↦ rw other a.0
  ],
  Settled-keep j i g files h a.1,
)

module _ {ℓ} {B : Type ℓ} where
  -- A result that, where it says that the run goes on, has settled an id.
  abbrev SettledResult : ℕ → Bool × World B × Totals → Type 0
  SettledResult j (ok, w, tot) = (ok ≡ false) ⊎ Settled w.files j

  module _ (env : Env B) where
    hold_settles :
        (c : LakeFile) (w : World B) (tot : Totals) → SettledResult c.id (hold_file env c w tot)
    unfolding hold_file
    hold_settles c w tot = elim (Bool-cases (env.hold_fails c.id)) [
      | inl fails ↦ rw fails (inl refl)
      | inr holds ↦ rw holds (inr (Settled-map c.id mark_failed w.files (λ f. refl)))
    ]

    hold_keeps :
        (j : ℕ) (c : LakeFile) (w : World B) (tot : Totals)
        → Settled w.files j
        → SettledResult j (hold_file env c w tot)
    unfolding hold_file
    hold_keeps j c w tot a = elim (Bool-cases (env.hold_fails c.id)) [
      | inl fails ↦ rw fails (inl refl)
      | inr holds ↦ rw holds (inr (Settled-keep j c.id mark_failed w.files (λ f. refl) a))
    ]

    commit_settles :
        (x : Fault) (c : LakeFile) (w w' : World B) (tot : Totals)
        → Settled w'.files c.id
        → SettledResult c.id (commit_file x env c w w' tot)
    unfolding commit_file
    commit_settles no_fault c w w' tot a = inr a
    commit_settles before_commit c w w' tot a = hold_settles c w tot
    commit_settles after_commit c w w' tot a = hold_settles c w' tot

    commit_keeps :
        (j : ℕ) (x : Fault) (c : LakeFile) (w w' : World B) (tot : Totals)
        → Settled w.files j
        → Settled w'.files j
        → SettledResult j (commit_file x env c w w' tot)
    unfolding commit_file
    commit_keeps j no_fault c w w' tot a b = inr b
    commit_keeps j before_commit c w w' tot a b = hold_keeps j c w tot a
    commit_keeps j after_commit c w w' tot a b = hold_keeps j c w' tot b

    mark_loaded-Settles : (n : ℕ) (k : Counts) → Settles (mark_loaded env.now n k)
    mark_loaded-Settles n k f = file_status_settled n k.failed_count k.skipped_count

    store_settles :
        (c : LakeFile) (o : Option (String × List (Option (Data B)))) (w : World B) (tot : Totals)
        → SettledResult c.id (store_file env c o w tot)
    unfolding store_file
    store_settles c none w tot = hold_settles c w tot
    store_settles c (some (t, ms)) w tot =
        let k = (load_all ms (w.tables t, no_counts)).1 in
        elim (Bool-cases (any (λ f. f.id == c.id) w.files)) [
          | inl there ↦ rw there (
              commit_settles (env.fault c.id) c w (loaded_world env c t ms w) (add_totals k tot) (
                Settled-map c.id (mark_loaded env.now (length ms) k) w.files
                  (mark_loaded-Settles (length ms) k)))
          | inr gone ↦ rw gone (hold_settles c w tot)
        ]

    store_keeps :
        (j : ℕ) (c : LakeFile) (o : Option (String × List (Option (Data B)))) (w : World B)
        (tot : Totals)
        → Settled w.files j
        → SettledResult j (store_file env c o w tot)
    unfolding store_file
    store_keeps j c none w tot a = hold_keeps j c w tot a
    store_keeps j c (some (t, ms)) w tot a =
        let k = (load_all ms (w.tables t, no_counts)).1 in
        elim (Bool-cases (any (λ f. f.id == c.id) w.files)) [
          | inl there ↦ rw there (
              commit_keeps j (env.fault c.id) c w (loaded_world env c t ms w) (add_totals k tot) a (
                Settled-keep j c.id (mark_loaded env.now (length ms) k) w.files
                  (mark_loaded-Settles (length ms) k) a))
          | inr gone ↦ rw gone (hold_keeps j c w tot a)
        ]

    files-SettledResult :
        (j : ℕ) (cs : List LakeFile) (w : World B) (tot : Totals)
        → Settled w.files j
        → SettledResult j (load_files env cs w tot)
    unfolding load_files load_file
    files-SettledResult j [] w tot a = inr a
    files-SettledResult j (c ∷ cs) w tot a =
        let (ok, w', tot') = store_file env c (read_file env c) w tot in
        elim (store_keeps j c (read_file env c) w tot a) [
          | inl stopped ↦ rw stopped (inl refl)
          | inr kept ↦ elim (Bool-cases ok) [
            | inl on ↦ rw on (files-SettledResult j cs w' tot' kept)
            | inr off ↦ rw off (inl refl)
          ]
        ]

    unless_stopped :
        (j : ℕ) (r : Bool × World B × Totals) → SettledResult j r → r.0 ≡ true → Settled r.1.files j
    unless_stopped j (ok, w, tot) (inl stopped) h = absurd (cc)
    unless_stopped j (ok, w, tot) (inr a) h = a

    next_file :
        (c : LakeFile) (cs : List LakeFile) (w : World B) (tot : Totals)
        → let (ok, w', tot') = store_file env c (read_file env c) w tot in
          ok ≡ true → load_files env (c ∷ cs) w tot ≡ load_files env cs w' tot'
    unfolding load_files load_file
    next_file c cs w tot h = rw h

    stopped :
        (c : LakeFile) (cs : List LakeFile) (w : World B) (tot : Totals)
        → (store_file env c (read_file env c) w tot).0 ≡ false
        → (load_files env (c ∷ cs) w tot).0 ≡ false
    unfolding load_files load_file
    stopped c cs w tot h = rw h

    -- A run over claimed files that comes to its end leaves none of them PROCESSING, whatever could not
    -- be read, mapped or committed.
    load_files-Settled :
        (cs : List LakeFile) (w : World B) (tot : Totals)
        → (load_files env cs w tot).0 ≡ true
        → All (λ c. Settled (load_files env cs w tot).1.files c.id) cs
    load_files-Settled [] w tot h = tt
    load_files-Settled (c ∷ cs) w tot h =
        let (ok, w', tot') = store_file env c (read_file env c) w tot in
        elim (Bool-cases ok) [
          | inr off ↦ absurd (ground (arith, stopped c cs w tot off))
          | inl on ↦
              let e : load_files env (c ∷ cs) w tot ≡ load_files env cs w' tot' =
                next_file c cs w tot on in
              let h' : (load_files env cs w' tot').0 ≡ true =
                subst (λ (r : Bool × World B × Totals). r.0 ≡ true) e h in
              let settled : Settled w'.files c.id =
                unless_stopped c.id (store_file env c (read_file env c) w tot)
                  (store_settles c (read_file env c) w tot) on in
              subst (λ (r : Bool × World B × Totals). All (λ d. Settled r.1.files d.id) (c ∷ cs))
                (sym e)
                (
                  unless_stopped c.id (load_files env cs w' tot')
                      (files-SettledResult c.id cs w' tot' settled) h',
                  load_files-Settled cs w' tot' h',
                )
        ]

  -- A run of the SOS load that comes to its end leaves no file that it claimed in the state
  -- PROCESSING, whatever could not be read, mapped or committed.
  pub lake_files-Settled :
      (env : Env B) (entity : String) (locked : ℕ → Bool) (limit : ℕ) (w w' : World B)
      (tot : Totals)
      → load_sos_lake_files env entity locked limit w ≡ some (true, w', tot)
      → All (λ c. Settled w'.files c.id) (claim_lake_files entity locked env.now limit w.files).0
  unfolding load_sos_lake_files
  lake_files-Settled env entity locked limit w w' tot h =
      let (cs, files') = claim_lake_files entity locked env.now limit w.files in
      let claimed : World B = record w { files = files' } in
      let e : load_files env cs claimed no_totals ≡ (true, w', tot) = ground (arith, h) in
      subst (λ (r : Bool × World B × Totals). All (λ c. Settled r.1.files c.id) cs) e
        (load_files-Settled env cs claimed no_totals (ap (λ (r : Bool × World B × Totals). r.0) e))

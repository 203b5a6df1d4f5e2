-- ===== src/Lake/Loaders/Once.antt =====
-- That a file which is being loaded is claimed by no other loader.
use bokser_app.Prelude.{
  ℕ, ◌+◌, ◌-◌, ◌≤◌, ◌≡◌, refl, Bool, true, false, not, ◌&&◌, ◌||◌, Option, none, some, List, [],
  ◌∷◌, ◌++◌, map, any, All, ltb, leb→le, ◌==◌, arith, Bool-cases, any-append, inl, inr,
}
use bokser_app.Lake.Manifest.{
  LakeFile, is_processing, mark_claimed, claim_files, is_selected, claim_lake_files, landed_file,
  register_file,
}
use bokser_app.Lake.Manifest.Claims.{Above, Ascends, claim_hit, claim_miss, claim-Above}
use bokser_app.Sos.Files.{is_selected as is_sos_selected, claim_lake_files as claim_sos_files}
use bokser_app.Lake.Loaders.{
  Loader, general, sos, claim_by, Event, claim, settle, register, settled, step, run, takes,
  is_quiet,
}

abbrev is_at : ℕ → Option ℕ → Bool
is_at now none = false
is_at now (some t) = t == now

module _ (j now : ℕ) where
  -- If the row is that of file j, it is claimed since `now`.
  abbrev Held : LakeFile → Type 0
  Held f = (not (f.id == j) || (is_processing f.status && is_at now f.claimed_at)) ≡ true

  untaken_past : (cs : List LakeFile) → All (Above j) cs → takes j cs ≡ false
  untaken_past [] a = refl
  untaken_past (c ∷ cs) a = ground (arith, untaken_past cs a.1, a.0)

  Above-Held : (fs : List LakeFile) → All (Above j) fs → All Held fs
  Above-Held [] a = tt
  Above-Held (f ∷ fs) a = (ground (arith, a.0), Above-Held fs a.1)

  marked-Held : (f : LakeFile) → Held (mark_claimed now f)
  marked-Held f = ground arith

  -- A claim that takes file j holds it.
  claim_files-Held :
      (p : LakeFile → Bool) (m : ℕ) (fs : List LakeFile)
      → Ascends fs
      → takes j (claim_files p now m fs).0 ≡ true
      → All Held (claim_files p now m fs).1
  claim_files-Held p m [] a t = unfold claim_files in tt
  claim_files-Held p m (f ∷ fs) a t = elim (Bool-cases (ltb 0 m && p f)) [
    | inl hit ↦
        let above = claim-Above f.id p now (m - 1) fs a.0 in
        let t' = rw (claim_hit p now m f fs hit) at t in
        rw (claim_hit p now m f fs hit) (
          marked-Held f,
          elim (Bool-cases (f.id == j)) [
            | inl own ↦
                let e : f.id ≡ j = ground (arith, own) in
                Above-Held (claim_files p now (m - 1) fs).1 (rw e at above.1)
            | inr other ↦ claim_files-Held p (m - 1) fs a.1 (ground (arith, t', other))
          ],
        )
    | inr miss ↦
        let above = claim-Above f.id p now m fs a.0 in
        let t' = rw (claim_miss p now m f fs miss) at t in
        rw (claim_miss p now m f fs miss) (
          elim (Bool-cases (f.id == j)) [
            | inl own ↦
                let e : f.id ≡ j = ground (arith, own) in
                absurd
                  (ground (arith, t', untaken_past (claim_files p now m fs).0 (rw e at above.0)))
            | inr other ↦ ground (arith, other)
          ],
          claim_files-Held p m fs a.1 t',
        )
  ]

  -- A test that a held row of file j does not pass.
  abbrev Refuses : (LakeFile → Bool) → Type 0
  Refuses q = (f : LakeFile) → Held f → q f ≡ true → (f.id == j) ≡ false

  abbrev Passed : List LakeFile × List LakeFile → Type 0
  Passed r = (takes j r.0 ≡ false) × All Held r.1

  claim_passes :
      (q : LakeFile → Bool) (now' m : ℕ) (fs : List LakeFile)
      → Refuses q
      → All Held fs
      → Passed (claim_files q now' m fs)
  claim_passes q now' m [] r a = unfold claim_files in (refl, tt)
  claim_passes q now' m (f ∷ fs) r a = elim (Bool-cases (ltb 0 m && q f)) [
    | inl hit ↦
        let other : (f.id == j) ≡ false = r f a.0 (ground (arith, hit)) in
        let (untaken, held) = claim_passes q now' (m - 1) fs r a.1 in
        rw (claim_hit q now' m f fs hit)
          (ground (arith, other, untaken), (ground (arith, other), held))
    | inr miss ↦
        let (untaken, held) = claim_passes q now' m fs r a.1 in
        rw (claim_miss q now' m f fs miss) (untaken, (a.0, held))
  ]

  claim_by_passes :
      (l : Loader) (locked : ℕ → Bool) (now' m : ℕ) (fs : List LakeFile)
      → now' ≤ now + 1800
      → All Held fs
      → Passed (claim_by l locked now' m fs)
  unfolding claim_by claim_lake_files claim_sos_files
  claim_by_passes (general source entity) locked now' m fs soon a =
      claim_passes (is_selected source entity locked now') now' m fs (λ f h p. ground arith) a
  claim_by_passes (sos entity) locked now' m fs soon a =
      claim_passes (is_sos_selected entity locked now') now' m fs (λ f h p. ground arith) a

  settle_passes :
      (i : ℕ) (g : LakeFile → LakeFile) (fs : List LakeFile)
      → (i == j) ≡ false
      → All Held fs
      → All Held (map (settled i g) fs)
  settle_passes i g [] other a = tt
  settle_passes i g (f ∷ fs) other a = (ground (arith, a.0), settle_passes i g fs other a.1)

  register_passes :
      (f : LakeFile) (fs : List LakeFile)
      → (f.id == j) ≡ false
      → All Held fs
      → All Held (fs ++ f ∷ [])
  register_passes f [] other a = (ground (arith, other), tt)
  register_passes f (x ∷ fs) other a = (a.0, register_passes f fs other a.1)

  step_passes :
      (e : Event) (fs : List LakeFile)
      → is_quiet j (now + 1800) e ≡ true
      → All Held fs
      → Passed (step e fs)
  unfolding step register_file
  step_passes (claim l locked now' limit) fs q a =
      claim_by_passes l locked now' limit fs (leb→le now' (now + 1800) q) a
  step_passes (settle i g) fs q a = (refl, settle_passes i g fs (ground (arith, q)) a)
  step_passes (register i source entity path count t) fs q a =
      (refl, register_passes (landed_file i source entity path count t) fs (ground (arith, q)) a)

  run_passes :
      (es : List Event) (fs : List LakeFile)
      → any (λ e. not (is_quiet j (now + 1800) e)) es ≡ false
      → All Held fs
      → takes j (run es fs).0 ≡ false
  unfolding run
  run_passes [] fs q a = refl
  run_passes (e ∷ es) fs q a =
      let (untaken, held) = step_passes e fs (ground (arith, q)) a in
      ground (
        arith,
        any-append (λ (c : LakeFile). c.id == j) (step e fs).0 (run es (step e fs).1).0,
        untaken,
        run_passes es (step e fs).1 (ground (arith, q)) held,
      )

  claim_by-Held :
      (l : Loader) (locked : ℕ → Bool) (limit : ℕ) (fs : List LakeFile)
      → Ascends fs
      → takes j (claim_by l locked now limit fs).0 ≡ true
      → All Held (claim_by l locked now limit fs).1
  unfolding claim_by claim_lake_files claim_sos_files
  claim_by-Held (general source entity) locked limit fs a t =
      claim_files-Held (is_selected source entity locked now) limit fs a t
  claim_by-Held (sos entity) locked limit fs a t =
      claim_files-Held (is_sos_selected entity locked now) limit fs a t

-- A file that a claim has taken is taken by no claim within the next thirty minutes, whatever claims
-- of either loader, ends of loads and registrations follow one another. The conditions are that the
-- load of the file itself does not end meanwhile, that the ids of the table ascend, and that no new
-- file gets the id.
pub claim_once :
    (j : ℕ) (l : Loader) (locked : ℕ → Bool) (now limit : ℕ) (es : List Event) (fs : List LakeFile)
    → Ascends fs
    → takes j (claim_by l locked now limit fs).0 ≡ true
    → any (λ e. not (is_quiet j (now + 1800) e)) es ≡ false
    → takes j (run es (claim_by l locked now limit fs).1).0 ≡ false
claim_once j l locked now limit es fs a t q =
    run_passes j now es (claim_by l locked now limit fs).1 q
      (claim_by-Held j now l locked limit fs a t)

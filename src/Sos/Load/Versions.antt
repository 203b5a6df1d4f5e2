-- ===== src/Sos/Load/Versions.antt =====
-- Which version of a record the table holds after a load, and what the counts say.
use Prim.Native.Nat.{max}
use bokser_app.Prelude.{
  ℕ, suc, ◌+◌, ◌≤◌, ◌<◌, ap, leb→le, ◌≡◌, refl, false, Option, none, some, List, [], ◌∷◌, leb, ◌==◌,
  if◌then◌else◌, arith, length, All, Bool-cases, inl, inr, ◌∙◌,
}
use bokser_app.Lake.Manifest.{Status, loaded, failed, skipped, partial, empty}
use bokser_app.Sos.Load.{
  Data, Table, token_or_zero, is_stale, Counts, no_counts, token_of, load_one, load_all,
  file_status,
}

abbrev pub total : Counts → ℕ
total c = c.loaded_count + c.skipped_count + c.failed_count

-- A token as a version: a row without one, or no row, is version 0.
abbrev pub version : Option ℕ → ℕ
version none = 0
version (some t) = suc t

-- The version that one record leaves at its own id, from the token that was there.
own_version :
    (existing : Option ℕ) (t : ℕ)
    → (if is_stale existing t then version existing else suc t) ≡ max (version existing) (suc t)
own_version none t = omega arith
own_version (some u) t = elim (Bool-cases (leb t u)) [
  | inl e ↦ rw e (omega (arith, leb→le t u e))
  | inr e ↦ rw e (omega (arith, above))
]
  where
    above : leb t u ≡ false → u < t
    above h = ground arith

module _ {ℓ} {B : Type ℓ} where
  total-load_one :
      (m : Option (Data B)) (s : Table B × Counts) → total (load_one m s).1 ≡ total s.1 + 1
  unfolding load_one
  total-load_one none s = omega arith
  total-load_one (some d) s = ground arith

  total-load_all :
      (ms : List (Option (Data B))) (s : Table B × Counts)
      → total (load_all ms s).1 ≡ total s.1 + length ms
  unfolding load_all
  total-load_all [] s = omega arith
  total-load_all (m ∷ ms) s = omega (arith, total-load_all ms (load_one m s), total-load_one m s)

  -- Every record has a token.
  abbrev pub HasToken : Option (Data B) → Type 0
  HasToken none = Unit
  HasToken (some d) = d.sync_token ≡ some (token_or_zero d.sync_token)

  -- The version that a mapped record brings for an id.
  abbrev pub brought : ℕ → Option (Data B) → ℕ
  brought i none = 0
  brought i (some d) = if i == d.id then version d.sync_token else 0

  -- The highest version of an id among the records.
  abbrev pub newest : ℕ → List (Option (Data B)) → ℕ
  newest i [] = 0
  newest i (m ∷ ms) = max (brought i m) (newest i ms)

  version-load_one :
      (i : ℕ) (m : Option (Data B)) (s : Table B × Counts)
      → HasToken m
      → version (token_of ((load_one m s).0 i)) ≡ max (version (token_of (s.0 i))) (brought i m)
  unfolding load_one
  version-load_one i none s h = omega arith
  version-load_one i (some d) s h = elim (Bool-cases (i == d.id)) [
    | inl same ↦
        let e : i ≡ d.id = ground arith in
        ground (arith, own_version (token_of (s.0 d.id)) (token_or_zero d.sync_token), ap s.0 e)
    | inr other ↦ ground arith
  ]

  version-load_all :
      (i : ℕ) (ms : List (Option (Data B))) (s : Table B × Counts)
      → All HasToken ms
      → version (token_of ((load_all ms s).0 i)) ≡ max (version (token_of (s.0 i))) (newest i ms)
  unfolding load_all
  version-load_all i [] s a = omega arith
  version-load_all i (m ∷ ms) s a =
      omega (arith, version-load_all i ms (load_one m s) a.1, version-load_one i m s a.0)

  load_one_grows :
      (i : ℕ) (m : Option (Data B)) (s : Table B × Counts)
      → version (token_of (s.0 i)) ≤ version (token_of ((load_one m s).0 i))
  unfolding load_one
  load_one_grows i none s = omega arith
  load_one_grows i (some d) s = elim (Bool-cases (i == d.id)) [
    | inl same ↦
        let e : i ≡ d.id = ground arith in
        ground (arith, not_below (token_of (s.0 d.id)) d.sync_token, ap s.0 e)
    | inr other ↦ ground arith
  ]
    where
      not_below :
          (existing incoming : Option ℕ)
          → is_stale existing (token_or_zero incoming) ≡ false
          → version existing ≤ version incoming
      not_below none incoming h = omega arith
      not_below (some u) none h = absurd (ground arith)
      not_below (some u) (some t) h = ground arith

  -- No load takes a row back to an older version, with tokens or without.
  pub load_all_grows :
      (i : ℕ) (ms : List (Option (Data B))) (s : Table B × Counts)
      → version (token_of (s.0 i)) ≤ version (token_of ((load_all ms s).0 i))
  unfolding load_all
  load_all_grows i [] s = omega arith
  load_all_grows i (m ∷ ms) s =
      omega (arith, load_one_grows i m s, load_all_grows i ms (load_one m s))

  -- The table has this version of a record, or a newer one.
  abbrev pub HasVersion : Table B → Option (Data B) → Type 0
  HasVersion table none = Unit
  HasVersion table (some d) = version d.sync_token ≤ version (token_of (table d.id))

  reload_keeps :
      (m : Option (Data B)) (s : Table B × Counts)
      → HasToken m
      → HasVersion s.0 m
      → (load_one m s).0 ≡ s.0
  unfolding load_one
  reload_keeps none s h v = refl
  reload_keeps (some d) s h v =
      elim (Bool-cases (is_stale (token_of (s.0 d.id)) (token_or_zero d.sync_token))) [
        | inl stale ↦ rw stale
        | inr fresh ↦ absurd (ground arith)
      ]

  -- Records whose versions the table has, or newer ones, change nothing.
  pub reloading_keeps :
      (ms : List (Option (Data B))) (s : Table B × Counts)
      → All HasToken ms
      → All (HasVersion s.0) ms
      → (load_all ms s).0 ≡ s.0
  unfolding load_all
  reloading_keeps [] s a v = refl
  reloading_keeps (m ∷ ms) s a v =
      let same : (load_one m s).0 ≡ s.0 = reload_keeps m s a.0 v.0 in
      reloading_keeps ms (load_one m s) a.1 (rw same v.1) ∙ same

  brought_self : (d : Data B) → brought d.id (some d) ≡ version d.sync_token
  brought_self d = ground arith

  pub has_newest :
      (ms : List (Option (Data B))) (table : Table B)
      → ((i : ℕ) → newest i ms ≤ version (token_of (table i)))
      → All (HasVersion table) ms
  has_newest [] table h = tt
  has_newest (none ∷ ms) table h = (tt, has_newest ms table (λ i. omega (arith, h i)))
  has_newest (some d ∷ ms) table h =
      (omega (arith, h d.id, brought_self d), has_newest ms table (λ i. omega (arith, h i)))

-- Every record of a load is counted once: as loaded, as skipped or as failed.
pub every_record_counted {ℓ} :
    {B : Type ℓ} (ms : List (Option (Data B))) (table : Table B)
    → total (load_all ms (table, no_counts)).1 ≡ length ms
every_record_counted ms table = omega (arith, total-load_all ms (table, no_counts))

-- Where every mapped record has a sync token, the table ends with the highest version of each record
-- among what it held and what was loaded, in whatever order the records came.
pub highest_version_wins {ℓ} :
    {B : Type ℓ} (i : ℕ) (ms : List (Option (Data B))) (table : Table B) (c : Counts)
    → All HasToken ms
    → version (token_of ((load_all ms (table, c)).0 i))
      ≡ max (version (token_of (table i))) (newest i ms)
highest_version_wins i ms table c a = version-load_all i ms (table, c) a

-- What each status says of the counts of its file.
abbrev pub Means : Status → Counts → Type 0
Means loaded c = (0 < c.loaded_count) × (c.skipped_count ≡ 0) × (c.failed_count ≡ 0)
Means failed c = (0 < c.failed_count) × (c.loaded_count ≡ 0) × (c.skipped_count ≡ 0)
Means skipped c = (0 < c.skipped_count) × (c.loaded_count ≡ 0) × (c.failed_count ≡ 0)
Means partial c =
    (0 < c.failed_count + c.skipped_count)
    × (c.failed_count < total c)
    × (c.skipped_count < total c)
Means empty c = total c ≡ 0
Means _ c = ⊥

status-Means :
    (n : ℕ) (c : Counts) → total c ≡ n → Means (file_status n c.failed_count c.skipped_count) c
unfolding file_status
status-Means n c h = ground arith

-- The status that a file gets says what became of its records: loaded, failed or skipped if that is
-- true of all of them and there are some, empty if there are none, and partial in the other cases.
pub file_status-Means {ℓ} :
    {B : Type ℓ} (ms : List (Option (Data B))) (table : Table B)
    → let c = (load_all ms (table, no_counts)).1 in
      Means (file_status (length ms) c.failed_count c.skipped_count) c
file_status-Means ms table =
    status-Means (length ms) (load_all ms (table, no_counts)).1 (every_record_counted ms table)

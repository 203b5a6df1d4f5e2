-- ===== src/Lake/Manifest/Claims.antt =====
-- Which files a claim takes.
use bokser_app.Prelude.{
  ℕ, zero, suc, ◌-◌, ◌<◌, String, ◌≡◌, refl, Bool, true, false, ◌&&◌, List, [], ◌∷◌, map, filter_b,
  All, ltb, arith, Bool-cases, inl, inr, ap, ◌∙◌,
}
use bokser_app.Lake.Manifest.{LakeFile, mark_claimed, claim_files, is_selected, claim_lake_files}

-- The first so many elements.
unfoldable pub take {ℓ} : {A : Type ℓ} → ℕ → List A → List A
take zero xs = []
take (suc n) [] = []
take (suc n) (x ∷ xs) = x ∷ take n xs

abbrev pub Above : ℕ → LakeFile → Type 0
Above lo f = lo < f.id

-- Listed by ascending ids.
abbrev pub Ascends : List LakeFile → Type 0
Ascends [] = Unit
Ascends (f ∷ fs) = All (Above f.id) fs × Ascends fs

claim_none :
    (p : LakeFile → Bool) (now : ℕ) (fs : List LakeFile) → claim_files p now 0 fs ≡ ([], fs)
unfolding claim_files
claim_none p now [] = refl
claim_none p now (f ∷ fs) = rw (claim_none p now fs)

pub claim_hit :
    (p : LakeFile → Bool) (now m : ℕ) (f : LakeFile) (fs : List LakeFile)
    → (ltb 0 m && p f) ≡ true
    → let (cs, rest) = claim_files p now (m - 1) fs in
      claim_files p now m (f ∷ fs) ≡ (mark_claimed now f ∷ cs, mark_claimed now f ∷ rest)
unfolding claim_files
claim_hit p now m f fs h = rw (h, claim_files)

pub claim_miss :
    (p : LakeFile → Bool) (now m : ℕ) (f : LakeFile) (fs : List LakeFile)
    → (ltb 0 m && p f) ≡ false
    → let (cs, rest) = claim_files p now m fs in claim_files p now m (f ∷ fs) ≡ (cs, f ∷ rest)
unfolding claim_files
claim_miss p now m f fs h = rw (h, claim_files)

claim-take :
    (p : LakeFile → Bool) (now limit : ℕ) (fs : List LakeFile)
    → (claim_files p now limit fs).0 ≡ map (mark_claimed now) (take limit (filter_b p fs))
unfolding take filter_b
claim-take p now zero fs = ap (λ (s : List LakeFile × List LakeFile). s.0) (claim_none p now fs)
claim-take p now (suc n) [] = unfold claim_files in refl
claim-take p now (suc n) (f ∷ fs) = elim (Bool-cases (p f)) [
  | inl hit ↦
      let one_less : suc n - 1 ≡ n = omega arith in
      ap (λ (s : List LakeFile × List LakeFile). s.0)
        (claim_hit p now (suc n) f fs (ground (arith, hit)))
      ∙ ap (λ k. mark_claimed now f ∷ (claim_files p now k fs).0) one_less
      ∙ rw hit (ap (λ cs. mark_claimed now f ∷ cs) (claim-take p now n fs))
  | inr miss ↦
      ap (λ (s : List LakeFile × List LakeFile). s.0)
        (claim_miss p now (suc n) f fs (ground (arith, miss)))
      ∙ rw miss (claim-take p now (suc n) fs)
]

-- A claim takes the first `limit` files that are due, in the order of their ids, and no other.
pub claim_lake_files-take :
    (source entity : String) (locked : ℕ → Bool) (now limit : ℕ) (fs : List LakeFile)
    → (claim_lake_files source entity locked now limit fs).0
      ≡ map (mark_claimed now) (take limit (filter_b (is_selected source entity locked now) fs))
unfolding claim_lake_files
claim_lake_files-take source entity locked now limit fs =
    claim-take (is_selected source entity locked now) now limit fs

pub claim-Above :
    (lo : ℕ) (p : LakeFile → Bool) (now limit : ℕ) (fs : List LakeFile)
    → All (Above lo) fs
    → let (cs, rest) = claim_files p now limit fs in All (Above lo) cs × All (Above lo) rest
unfolding claim_files
claim-Above lo p now limit [] a = (tt, tt)
claim-Above lo p now limit (f ∷ fs) a = elim (Bool-cases (ltb 0 limit && p f)) [
  | inl hit ↦
      let below = claim-Above lo p now (limit - 1) fs a.1 in rw hit ((a.0, below.0), (a.0, below.1))
  | inr miss ↦ let below = claim-Above lo p now limit fs a.1 in rw miss (below.0, (a.0, below.1))
]

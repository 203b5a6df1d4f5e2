-- ===== src/Lake/Manifest/Tests.antt =====
-- A registration, and claims of files.
use bokser_app.Prelude.{ℕ, ◌≡◌, refl, Bool, false, List, [], ◌∷◌}
use bokser_app.Lake.Manifest.{
  LakeFile, landed_file, register_file, mark_claimed, claim_lake_files, claim_files,
}

abbrev unlocked : ℕ → Bool
unlocked _ = false

abbrev orders_1 : LakeFile
orders_1 = landed_file 1 "acenda" "orders" "raw/1.json" 3 100

abbrev returns_2 : LakeFile
returns_2 = landed_file 2 "acenda" "returns" "raw/2.json" 1 110

abbrev orders_3 : LakeFile
orders_3 = landed_file 3 "acenda" "orders" "raw/3.json" 2 120

abbrev manifest : List LakeFile
manifest = orders_1 ∷ returns_2 ∷ orders_3 ∷ []

registered :
    register_file 3 "acenda" "orders" "raw/3.json" 2 120 (orders_1 ∷ returns_2 ∷ []) ≡ manifest
unfolding register_file
registered = refl

two_claimed :
    claim_lake_files "acenda" "orders" unlocked 500 1 manifest
    ≡ (mark_claimed 500 orders_1 ∷ [], mark_claimed 500 orders_1 ∷ returns_2 ∷ orders_3 ∷ [])
unfolding claim_lake_files claim_files
two_claimed = refl

-- The claim is stale after half an hour.
stale_claimed :
    (claim_lake_files "acenda" "" unlocked 2301 1 (mark_claimed 500 orders_1 ∷ [])).0
    ≡ mark_claimed 2301 (mark_claimed 500 orders_1) ∷ []
unfolding claim_lake_files claim_files
stale_claimed = refl

-- ===== src/Prelude/Lists.antt =====
-- Lists measured by native numbers, predicates over them, and the sums that the parts share.
use Prim.Native.Nat.{ℕ, suc, ◌+◌}
use mathlib.Core.Path.{◌≡◌, refl}
use mathlib.Core.Bool.{Bool, true, false, ◌||◌}
use mathlib.Core.List.{List, [], ◌∷◌, ◌++◌, map}
use bokser_app.Prelude.Tests.{◌==◌, if◌then◌else◌}
use native.Mathlib.Omega.{arith}

module _ {ℓ} {A : Type ℓ} where
  abbrev pub length : List A → ℕ
  length [] = 0
  length (x ∷ xs) = suc (length xs)

  pub length-append : (xs ys : List A) → length (xs ++ ys) ≡ length xs + length ys
  length-append [] ys = omega arith
  length-append (x ∷ xs) ys = omega (arith, length-append xs ys)

  abbrev pub any : (A → Bool) → List A → Bool
  any p [] = false
  any p (x ∷ xs) = p x || any p xs

  abbrev pub All {κ} : (A → Type κ) → List A → Type κ
  All P [] = Unit
  All P (x ∷ xs) = P x × All P xs

  -- The elements that pass a test.
  unfoldable pub filter_b : (A → Bool) → List A → List A
  filter_b p [] = []
  filter_b p (x ∷ xs) = if p x then x ∷ filter_b p xs else filter_b p xs

module _ {ℓ} {A : Type ℓ} where
  -- A test that holds of some image holds of some element, where the map does not create it.
  pub any-map :
      (p : A → Bool) (g : A → A) (xs : List A)
      → ((x : A) → p (g x) ≡ true → p x ≡ true)
      → any p (map g xs) ≡ true
      → any p xs ≡ true
  any-map p g [] back h = h
  any-map p g (x ∷ xs) back h = ground (arith, back x, any-map p g xs back)

  pub any-map_same :
      (p : A → Bool) (g : A → A) (xs : List A)
      → ((x : A) → p (g x) ≡ p x)
      → any p (map g xs) ≡ any p xs
  any-map_same p g [] h = refl
  any-map_same p g (x ∷ xs) h = ground (arith, h x, any-map_same p g xs h)

  pub any-append : (p : A → Bool) (xs ys : List A) → any p (xs ++ ys) ≡ (any p xs || any p ys)
  any-append p [] ys = refl
  any-append p (x ∷ xs) ys = ground (arith, any-append p xs ys)

abbrev pub count : ℕ → List ℕ → ℕ
count j [] = 0
count j (i ∷ is) = if i == j then suc (count j is) else count j is

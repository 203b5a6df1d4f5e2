-- ===== src/Tracking/Reference/CheckDigit.antt =====
-- Which wrong digits the check digit finds.
use bokser_app.Prelude.{
  ℕ, zero, suc, ◌+◌, ◌*◌, ◌^◌, ◌%◌, ◌<◌, ◌≤◌, ◌≡◌, ◌≢◌, refl, Bool, ◌&&◌, true, [], ◌∷◌, ◌++◌,
  length, ◌==◌, arith, subst, inl, inr, Bool-cases,
}
use bokser_app.Tracking.Reference.{
  Text, is_digit, value, weighted, last_digit, is_container_number, is_valid_number,
}

-- Two texts that differ in one place below n: the sums differ by that place alone.
weighted_differ :
    (n i : ℕ) (before after : Text) (c d : ℕ)
    → length before < n
    → weighted n i (before ++ c ∷ after) + value d * 2 ^ (i + length before)
      ≡ weighted n i (before ++ d ∷ after) + value c * 2 ^ (i + length before)
unfolding weighted
weighted_differ zero i before after c d h = absurd (omega arith)
weighted_differ (suc n) i [] after c d h = let e : i + 0 ≡ i = omega arith in rw e (omega arith)
weighted_differ (suc n) i (b ∷ before) after c d h =
    let e : i + suc (length before) ≡ suc i + length before = omega arith in
    rw e (omega (arith, weighted_differ n (suc i) before after c d (omega arith)))

rescale : (t t' v v' p : ℕ) → t + v' * (2 * p) ≡ t' + v * (2 * p) → t + 2 * v' * p ≡ t' + 2 * v * p
rescale t t' v v' p e = omega arith

-- Two is invertible modulo eleven, so equal remainders of the sums mean equal remainders of the
-- values, whatever the place.
cancel_place :
    (k t t' v v' : ℕ) → t + v' * 2 ^ k ≡ t' + v * 2 ^ k → t % 11 ≡ t' % 11 → v % 11 ≡ v' % 11
cancel_place zero t t' v v' e h = omega arith
cancel_place (suc k) t t' v v' e h =
    let p : 2 ^ suc k ≡ 2 * 2 ^ k = omega arith in
    let e' : t + 2 * v' * 2 ^ k ≡ t' + 2 * v * 2 ^ k =
      rescale t t' v v' (2 ^ k) (subst (λ (q : ℕ). t + v' * q ≡ t' + v * q) p e) in
    let h' : (2 * v) % 11 ≡ (2 * v') % 11 = cancel_place k t t' (2 * v) (2 * v') e' h in omega arith

last_digit_kept :
    (before after : Text) (c d e : ℕ)
    → last_digit (before ++ c ∷ e ∷ after) ≡ last_digit (before ++ d ∷ e ∷ after)
unfolding last_digit
last_digit_kept [] after c d e = refl
last_digit_kept (a ∷ []) after c d e = refl
last_digit_kept (a ∷ b ∷ before) after c d e = last_digit_kept (b ∷ before) after c d e

value-of_digit : (c : ℕ) → is_digit c ≡ true → value c + b'0' ≡ c
unfolding value
value-of_digit c h = ground arith

value-le : (c : ℕ) → is_digit c ≡ true → value c ≤ 9
unfolding value
value-le c h = ground arith

second_eq : (b : Bool) (x y : ℕ) → (b && x == y) ≡ true → x ≡ y
second_eq b x y h = ground arith

valid_sum : (s : Text) → is_valid_number s ≡ true → weighted 10 0 s % 11 % 10 ≡ last_digit s
unfolding is_valid_number
valid_sum s h = second_eq (is_container_number s) (weighted 10 0 s % 11 % 10) (last_digit s) h

differ_at_start :
    (before after : Text) (c d : ℕ)
    → length before < 10
    → weighted 10 0 (before ++ c ∷ after) + value d * 2 ^ length before
      ≡ weighted 10 0 (before ++ d ∷ after) + value c * 2 ^ length before
differ_at_start before after c d h =
    let e : 0 + length before ≡ length before = omega arith in
    subst
      (λ (q : ℕ).
        weighted 10 0 (before ++ c ∷ after) + value d * 2 ^ q
        ≡ weighted 10 0 (before ++ d ∷ after) + value c * 2 ^ q)
      e (weighted_differ 10 0 before after c d h)

-- One wrong digit before the last place, in a number whose check digit is not 0, is always found:
-- if two numbers pass both tests, and differ in one place where both have a digit, and that is not
-- the last place, then the check digit is 0. (0 stands for the remainder 0 and for 10.)
pub single_wrong_digit :
    (before after : Text) (c d e : ℕ)
    → length before < 10
    → is_digit c ≡ true
    → is_digit d ≡ true
    → c ≢ d
    → is_valid_number (before ++ c ∷ e ∷ after) ≡ true
    → is_valid_number (before ++ d ∷ e ∷ after) ≡ true
    → last_digit (before ++ c ∷ e ∷ after) ≡ 0
single_wrong_digit before after c d e short hc hd differ valid_c valid_d =
    let s = weighted 10 0 (before ++ c ∷ e ∷ after) in
    let t = weighted 10 0 (before ++ d ∷ e ∷ after) in
    elim (Bool-cases (s % 11 == t % 11)) [
      | inl same ↦ absurd (
          differ (
            omega (
              arith,
              value-of_digit c hc,
              value-of_digit d hd,
              value-le c hc,
              value-le d hd,
              cancel_place (length before) s t (value c) (value d)
                  (differ_at_start before (e ∷ after) c d short) (ground (arith, same)),
            )))
      | inr other ↦ ground (
        arith,
        other,
        valid_sum (before ++ c ∷ e ∷ after) valid_c,
        valid_sum (before ++ d ∷ e ∷ after) valid_d,
        last_digit_kept before after c d e,
      )
    ]

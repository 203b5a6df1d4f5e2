-- ===== src/Lake/Names/Safe.antt =====
-- What the cleaned names are made of, so that no name leaves the lake.
use bokser_app.Prelude.{
  ℕ, ◌≡◌, ◌≢◌, refl, Bool, true, false, ◌&&◌, some, [], ◌∷◌, ◌==◌, if◌then◌else◌, arith, All,
  Bool-cases, inl, inr, ap, subst, ◌∙◌,
}
use mathlib.Core.Option.{some-injective}
use bokser_app.Lake.Names.{
  Text, Unicode, is_alnum, is_mark, is_safe, strip_left, is_empty, strip_right, strip,
  replace_unsafe, nonempty, safe_path_part, after_last_dot, keep_alnum, safe_file_type,
}

abbrev pub IsSafe : ℕ → Type 0
IsSafe c = is_safe c ≡ true

abbrev pub IsAlnum : ℕ → Type 0
IsAlnum c = is_alnum c ≡ true

-- The first and the last character are no marks.
abbrev pub StartsClean : Text → Type 0
StartsClean [] = ⊥
StartsClean (c ∷ s) = is_mark c ≡ false

abbrev pub EndsClean : Text → Type 0
EndsClean [] = ⊥
EndsClean (c ∷ []) = is_mark c ≡ false
EndsClean (c ∷ d ∷ s) = EndsClean (d ∷ s)

-- A name of lower-case letters, digits, dots, underscores and dashes that neither begins nor ends
-- with one of the last three.
pub record IsSafeName (s : Text) : Type 0 where
  pub chars : All IsSafe s
  pub first : StartsClean s
  pub last : EndsClean s

All-replace_unsafe : (b : Bool) (s : Text) → All IsSafe (replace_unsafe b s)
unfolding replace_unsafe
All-replace_unsafe b [] = tt
All-replace_unsafe b (c ∷ s) = ground (arith, All-replace_unsafe true s, All-replace_unsafe false s)

All-strip_left : (p : ℕ → Bool) (s : Text) → All IsSafe s → All IsSafe (strip_left p s)
unfolding strip_left
All-strip_left p [] a = tt
All-strip_left p (c ∷ s) a = ground (arith, All-strip_left p s a.1)

All-strip_right : (p : ℕ → Bool) (s : Text) → All IsSafe s → All IsSafe (strip_right p s)
unfolding strip_right
All-strip_right p [] a = tt
All-strip_right p (c ∷ s) a = ground (arith, All-strip_right p s a.1)

-- After the left strip, an empty text or a clean start.
abbrev StartsOrEmpty : Text → Type 0
StartsOrEmpty [] = Unit
StartsOrEmpty (c ∷ s) = is_mark c ≡ false

starts-strip_left : (s : Text) → StartsOrEmpty (strip_left is_mark s)
unfolding strip_left
starts-strip_left [] = tt
starts-strip_left (c ∷ s) = elim (Bool-cases (is_mark c)) [
  | inl m ↦ rw m (starts-strip_left s)
  | inr m ↦ rw m m
]

starts-strip_right : (s : Text) → StartsOrEmpty s → StartsOrEmpty (strip_right is_mark s)
unfolding strip_right
starts-strip_right [] h = tt
starts-strip_right (c ∷ s) h = rw h h

abbrev EndsOrEmpty : Text → Type 0
EndsOrEmpty [] = Unit
EndsOrEmpty (c ∷ s) = EndsClean (c ∷ s)

ends-strip_right : (s : Text) → EndsOrEmpty (strip_right is_mark s)
unfolding strip_right
ends-strip_right [] = tt
ends-strip_right (c ∷ s) = glue (strip_right is_mark s) (ends-strip_right s)
  where
    glue :
        (rest : Text)
        → EndsOrEmpty rest
        → EndsOrEmpty (if is_mark c && is_empty rest then [] else c ∷ rest)
    glue [] h = elim (Bool-cases (is_mark c)) [ inl m ↦ rw m tt | inr m ↦ rw m m ]
    glue (d ∷ rest) h = elim (Bool-cases (is_mark c)) [ inl m ↦ rw m h | inr m ↦ rw m h ]

nonempty-IsSafeName :
    (s : Text) {p : Text}
    → All IsSafe s
    → StartsOrEmpty s
    → EndsOrEmpty s
    → nonempty s ≡ some p
    → IsSafeName p
nonempty-IsSafeName [] a f l e = absurd (cc)
nonempty-IsSafeName (c ∷ s) a f l e =
    subst IsSafeName (some-injective _ _ e) (record { chars = a; first = f; last = l })

-- Whatever a source system or an entity is called, a path part that is accepted is a safe name: it is
-- not empty, holds no separator, and is neither "." nor "..".
pub safe_path_part-IsSafeName :
    (u : Unicode) (value : Text) {p : Text} → safe_path_part u value ≡ some p → IsSafeName p
unfolding safe_path_part
safe_path_part-IsSafeName u value h =
    let cleaned : Text = replace_unsafe false (u.lower (strip u.is_space value)) in
    let left : Text = strip_left is_mark cleaned in
    nonempty-IsSafeName (strip_right is_mark left)
      (All-strip_right is_mark left (
        All-strip_left is_mark cleaned
          (All-replace_unsafe false (u.lower (strip u.is_space value)))))
      (starts-strip_right left (starts-strip_left cleaned)) (ends-strip_right left) h

All-keep_alnum : (s : Text) → All IsAlnum (keep_alnum s)
unfolding keep_alnum
All-keep_alnum [] = tt
All-keep_alnum (c ∷ s) = ground (arith, All-keep_alnum s)

nonempty-All :
    (s : Text) {p : Text} → All IsAlnum s → nonempty s ≡ some p → (p ≢ []) × All IsAlnum p
nonempty-All [] a e = absurd (cc)
nonempty-All (c ∷ s) a e =
    subst (λ p. (p ≢ []) × All IsAlnum p) (some-injective _ _ e) (λ h. absurd (cc), a)

-- An accepted file type is not empty and made of lower-case letters and digits alone.
pub safe_file_type-IsAlnum :
    (u : Unicode) (file_type : Text) {t : Text}
    → safe_file_type u file_type ≡ some t
    → (t ≢ []) × All IsAlnum t
unfolding safe_file_type
safe_file_type-IsAlnum u file_type h =
    let rest : Text =
      after_last_dot (strip_left (λ c. c == b'.') (strip u.is_space (u.lower file_type))) in
    nonempty-All (keep_alnum rest) (All-keep_alnum rest) h

-- Cleaning a name again.
replace_safe : (b : Bool) (s : Text) → All IsSafe s → replace_unsafe b s ≡ s
unfolding replace_unsafe
replace_safe b [] a = refl
replace_safe b (c ∷ s) a = rw a.0 (ap (λ (r : Text). c ∷ r) (replace_safe false s a.1))

strip_left_none : (p : ℕ → Bool) (c : ℕ) (s : Text) → p c ≡ false → strip_left p (c ∷ s) ≡ c ∷ s
unfolding strip_left
strip_left_none p c s h = rw h

-- Nothing is stripped on the right where the last character stays.
abbrev Keeps : (ℕ → Bool) → Text → Type 0
Keeps p [] = ⊥
Keeps p (c ∷ []) = p c ≡ false
Keeps p (c ∷ d ∷ s) = Keeps p (d ∷ s)

strip_right_none :
    (p : ℕ → Bool) (c : ℕ) (s : Text) → Keeps p (c ∷ s) → strip_right p (c ∷ s) ≡ c ∷ s
unfolding strip_right
strip_right_none p c [] h = rw h
strip_right_none p c (d ∷ s) h = rw (strip_right_none p d s h) (ground arith)

Keeps-marks : (c : ℕ) (s : Text) → EndsClean (c ∷ s) → Keeps is_mark (c ∷ s)
Keeps-marks c [] h = h
Keeps-marks c (d ∷ s) h = Keeps-marks d s h

Keeps-spaces :
    (u : Unicode) (c : ℕ) (s : Text)
    → ((d : ℕ) → is_safe d ≡ true → u.is_space d ≡ false)
    → All IsSafe (c ∷ s)
    → Keeps u.is_space (c ∷ s)
Keeps-spaces u c [] solid a = solid c a.0
Keeps-spaces u c (d ∷ s) solid a = Keeps-spaces u d s solid a.1

strip_none :
    (p : ℕ → Bool) (c : ℕ) (s : Text) → p c ≡ false → Keeps p (c ∷ s) → strip p (c ∷ s) ≡ c ∷ s
unfolding strip
strip_none p c s h k = ap (strip_right p) (strip_left_none p c s h) ∙ strip_right_none p c s k

-- A safe name is a fixed point of the cleaning, where `str.lower` leaves a text of safe characters
-- alone and no safe character is whitespace. So the name that a file's metadata carries and the name
-- of its folder are one, however often it is cleaned.
pub safe_path_part_fixed :
    (u : Unicode) (s : Text)
    → ((t : Text) → All IsSafe t → u.lower t ≡ t)
    → ((d : ℕ) → is_safe d ≡ true → u.is_space d ≡ false)
    → IsSafeName s
    → safe_path_part u s ≡ some s
safe_path_part_fixed u [] low solid n = absurd n.first
safe_path_part_fixed u (c ∷ s) low solid n =
    unfold safe_path_part in
    rw (strip_none u.is_space c s (solid c n.chars.0) (Keeps-spaces u c s solid n.chars)) (
      rw (low (c ∷ s) n.chars) (
        rw (replace_safe false (c ∷ s) n.chars)
          (rw (strip_none is_mark c s n.first (Keeps-marks c s n.last)))))

-- ===== src/PyInt.antt =====
-- Python's `int` on a text, over its code points, and `str.strip` on ASCII whitespace. Digits
-- outside ASCII are not modelled: such a text is refused here.
use Prim.Native.Char.{code}
use bokser_app.Prelude.{
  ℕ, zero, suc, ◌+◌, ◌-◌, ◌*◌, ◌≡◌, refl, Bool, true, false, ◌&&◌, ◌||◌, Option, none, some, List,
  [], ◌∷◌, leb, ◌==◌, String, if◌then◌else◌,
}
use bokser_app.Prelude.Int.{ℤ, pos, negsuc}

abbrev pub codes : String → List ℕ
codes String.[] = []
codes (String.◌∷◌ c s) = code c ∷ codes s

abbrev pub is_digit : ℕ → Bool
is_digit c = leb b'0' c && leb c b'9'

abbrev pub is_space : ℕ → Bool
is_space c = c == 32 || (leb 9 c && leb c 13) || (leb 28 c && leb c 31)

unfoldable pub all_space : List ℕ → Bool
all_space [] = true
all_space (c ∷ s) = is_space c && all_space s

unfoldable pub skip_space : List ℕ → List ℕ
skip_space [] = []
skip_space (c ∷ s) = let rest = skip_space s in if is_space c then rest else c ∷ s

-- The digits after at least one digit: single underscores may stand between digits, and only
-- whitespace may follow.
unfoldable pub digits : ℕ → List ℕ → Option ℕ
unfolding all_space
digits n [] = some n
digits n (c ∷ []) =
    if is_digit c then some (n * 10 + (c - 48)) else if is_space c then some n else none
digits n (c ∷ d ∷ s) =
    let plain = digits (n * 10 + (c - 48)) (d ∷ s) in
    let joined = digits (n * 10 + (d - 48)) s in
    if is_digit c
    then plain
    else if c == b'_' && is_digit d
    then joined
    else if is_space c && all_space (d ∷ s)
    then some n
    else none

unfoldable pub magnitude : List ℕ → Option ℕ
unfolding digits
magnitude [] = none
magnitude (c ∷ s) = if is_digit c then digits (c - 48) s else none

abbrev pub negate : ℕ → ℤ
negate zero = pos 0
negate (suc n) = negsuc n

abbrev pub with_sign : Bool → Option ℕ → Option ℤ
with_sign minus none = none
with_sign minus (some n) = some (if minus then negate n else pos n)

unfoldable pub signed : List ℕ → Option ℤ
unfolding magnitude
signed [] = none
signed (c ∷ s) =
    if c == b'-'
    then with_sign true (magnitude s)
    else with_sign false (magnitude (if c == b'+' then s else c ∷ s))

-- `int(text)`, with `none` for a `ValueError`.
unfoldable pub parse_int : String → Option ℤ
unfolding signed skip_space
parse_int t = signed (skip_space (codes t))

parse_int_samples :
    (parse_int " -1_000 " ≡ some (negsuc 999))
    × (parse_int "+07" ≡ some (pos 7))
    × (parse_int "1__0" ≡ none)
    × (parse_int "5.0" ≡ none)
    × (parse_int "" ≡ none)
unfolding parse_int
parse_int_samples = (refl, refl, refl, refl, refl)

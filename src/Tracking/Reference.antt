-- ===== src/Tracking/Reference.antt =====
-- `validate_input` and its check digit (src/integrations/terminal49_client/initiation.py), over code
-- points. `clean`, which drops whitespace and upper-cases by Python's tables, is an argument.
pub mod CheckDigit
use bokser_app.Prelude.{
  ℕ, zero, suc, ◌+◌, ◌-◌, ◌*◌, ◌^◌, ◌%◌, ◌≡◌, Bool, true, false, not, ◌&&◌, ◌||◌, Option, none,
  some, List, [], ◌∷◌, length, leb, ◌==◌, if◌then◌else◌,
}

abbrev pub Text : Type 0
Text = List ℕ

-- [A-Z], [0-9], [UJZ]
abbrev pub is_upper : ℕ → Bool
is_upper c = leb b'A' c && leb c b'Z'

abbrev pub is_digit : ℕ → Bool
is_digit c = leb b'0' c && leb c b'9'

abbrev pub is_category : ℕ → Bool
is_category c = c == b'U' || c == b'J' || c == b'Z'

unfoldable pub all_digits : Text → Bool
all_digits [] = true
all_digits (c ∷ s) = is_digit c && all_digits s

-- `re.fullmatch(r'[A-Z]{3}[UJZ][0-9]{7}', number)`
unfoldable pub is_container_number : Text → Bool
unfolding all_digits
is_container_number (a ∷ b ∷ c ∷ d ∷ s) =
    is_upper a && (is_upper b && (is_upper c && (is_category d && (length s == 7 && all_digits s))))
is_container_number _ = false

-- The values of the letters, which omit multiples of eleven.
abbrev pub letter_values : List ℕ
letter_values =
    10 ∷ 12 ∷ 13 ∷ 14 ∷ 15 ∷ 16 ∷ 17 ∷ 18 ∷ 19 ∷ 20 ∷ 21 ∷ 23 ∷ 24 ∷ 25 ∷ 26 ∷ 27 ∷ 28 ∷ 29 ∷ 30
    ∷ 31 ∷ 32 ∷ 34 ∷ 35 ∷ 36 ∷ 37 ∷ 38 ∷ []

unfoldable pub nth : List ℕ → ℕ → ℕ
nth [] n = 0
nth (x ∷ xs) zero = x
nth (x ∷ xs) (suc n) = nth xs n

-- `int(c) if c.isdigit() else letters[c]`
unfoldable pub value : ℕ → ℕ
unfolding nth
value c = if is_digit c then c - b'0' else nth letter_values (c - b'A')

-- The sum over the first so many characters, from the place i.
unfoldable pub weighted : ℕ → ℕ → Text → ℕ
unfolding value
weighted zero i s = 0
weighted (suc n) i [] = 0
weighted (suc n) i (c ∷ s) = value c * 2 ^ i + weighted n (suc i) s

-- `int(number[-1])`
unfoldable pub last_digit : Text → ℕ
last_digit [] = 0
last_digit (c ∷ []) = c - b'0'
last_digit (c ∷ d ∷ s) = last_digit (d ∷ s)

-- Both tests of a container number.
unfoldable pub is_valid_number : Text → Bool
unfolding is_container_number weighted last_digit
is_valid_number s = is_container_number s && weighted 10 0 s % 11 % 10 == last_digit s

pub data RequestType : Type 0 where
  container bill_of_lading booking : RequestType

-- `re.fullmatch(r'[A-Z0-9]{1,64}', …)` and `re.fullmatch(r'[A-Z]{2,4}', …)`
unfoldable pub all_pass : (ℕ → Bool) → Text → Bool
all_pass p [] = true
all_pass p (c ∷ s) = p c && all_pass p s

abbrev pub is_reference : Text → Bool
is_reference s =
    leb 1 (length s) && (leb (length s) 64 && all_pass (λ c. is_upper c || is_digit c) s)

abbrev pub is_scac : Text → Bool
is_scac s = leb 2 (length s) && (leb (length s) 4 && all_pass is_upper s)

abbrev pub is_empty : Text → Bool
is_empty [] = true
is_empty (c ∷ s) = false

pub record Input : Type 0 where
  pub number : Text
  pub request_type : RequestType
  pub request_number : Text
  pub scac : Text

abbrev pub reference_of : RequestType → Text → Text → Text
reference_of container number reference = number
reference_of _ number reference = reference

-- `validate_input`, with `none` for its `ValueError`s; a type that is none of the three raises too.
unfoldable pub validate_input :
    (Text → Text) → Text → Option RequestType → Text → Text → Option Input
unfolding is_valid_number all_pass
validate_input clean number none reference scac = none
validate_input clean number (some kind) reference scac =
    let n = clean number in
    let r = reference_of kind n (clean reference) in
    let s = clean scac in
    if is_valid_number n && (is_reference r && (is_empty s || is_scac s))
    then some (record { number = n; request_type = kind; request_number = r; scac = s })
    else none

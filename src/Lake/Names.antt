-- ===== src/Lake/Names.antt =====
-- The names of lake files: `_safe_path_part`, `_safe_file_type`, `_build_output_dir` and
-- `_build_file_name` of `RawPayloadWriter` (src/storage/raw/writer.py), over code points. Unicode
-- lower-casing and whitespace are Python's own tables, and enter as arguments.
pub mod Safe
pub mod Confined
use bokser_app.Prelude.{
  ℕ, ◌≡◌, Bool, true, false, not, ◌&&◌, ◌||◌, Option, none, some, List, [], ◌∷◌, ◌++◌, any, leb,
  ◌==◌, if◌then◌else◌,
}

abbrev pub Text : Type 0
Text = List ℕ

-- `str.lower`, and the code points that `str.strip` drops.
pub record Unicode : Type 0 where
  pub lower : Text → Text
  pub is_space : ℕ → Bool

-- [a-z0-9]
abbrev pub is_alnum : ℕ → Bool
is_alnum c = (leb b'a' c && leb c b'z') || (leb b'0' c && leb c b'9')

-- [._-]
abbrev pub is_mark : ℕ → Bool
is_mark c = c == b'.' || c == b'_' || c == b'-'

-- [a-z0-9._-]
abbrev pub is_safe : ℕ → Bool
is_safe c = is_alnum c || is_mark c

-- `lstrip`, `rstrip` and `strip` of the characters that pass a test.
unfoldable pub strip_left : (ℕ → Bool) → Text → Text
strip_left p [] = []
strip_left p (c ∷ s) = let rest = strip_left p s in if p c then rest else c ∷ s

abbrev pub is_empty : Text → Bool
is_empty [] = true
is_empty (c ∷ s) = false

unfoldable pub strip_right : (ℕ → Bool) → Text → Text
strip_right p [] = []
strip_right p (c ∷ s) = let rest = strip_right p s in if p c && is_empty rest then [] else c ∷ rest

unfoldable pub strip : (ℕ → Bool) → Text → Text
unfolding strip_left strip_right
strip p s = strip_right p (strip_left p s)

-- `re.sub(r"[^a-z0-9._-]+", "_", value)`, with whether the last character was replaced.
unfoldable pub replace_unsafe : Bool → Text → Text
replace_unsafe replaced [] = []
replace_unsafe replaced (c ∷ s) =
    let kept = replace_unsafe false s in
    let rest = replace_unsafe true s in
    if is_safe c then c ∷ kept else if replaced then rest else b'_' ∷ rest

abbrev pub nonempty : Text → Option Text
nonempty [] = none
nonempty (c ∷ s) = some (c ∷ s)

-- `_safe_path_part`, with `none` for its `ValueError`.
unfoldable pub safe_path_part : Unicode → Text → Option Text
unfolding strip replace_unsafe
safe_path_part u value =
    nonempty (strip is_mark (replace_unsafe false (u.lower (strip u.is_space value))))

-- `value.rsplit(".", 1)[-1]`: what follows the last dot, or all.
unfoldable pub after_last_dot : Text → Text
after_last_dot [] = []
after_last_dot (c ∷ s) =
    let rest = after_last_dot s in
    if any (λ d. d == b'.') s then rest else if c == b'.' then s else c ∷ s

unfoldable pub keep_alnum : Text → Text
keep_alnum [] = []
keep_alnum (c ∷ s) = if is_alnum c then c ∷ keep_alnum s else keep_alnum s

-- `_safe_file_type`
unfoldable pub safe_file_type : Unicode → Text → Option Text
unfolding strip after_last_dot keep_alnum
safe_file_type u file_type = nonempty (
    keep_alnum
      (after_last_dot (strip_left (λ c. c == b'.') (strip u.is_space (u.lower file_type)))))

-- `_build_file_name`: the entity, the time, the ingestion id and the type.
unfoldable pub build_file_name : Unicode → Text → Text → Text → Text → Option Text
build_file_name u entity stamp ingestion_id file_type = elim (safe_file_type u file_type) [
  | none ↦ none
  | some t ↦ some (entity ++ b'_' ∷ (stamp ++ b'_' ∷ (ingestion_id ++ b'.' ∷ t)))
]

abbrev pub raw_folder : Text
raw_folder = b'r' ∷ b'a' ∷ b'w' ∷ []

-- The parts of a file's path below the lake root, as a writer method builds them.
unfoldable pub file_path :
    Unicode → Text → Text → Text → Text → Text → Text → Text → Text → Option (List Text)
unfolding build_file_name
file_path u source entity year month day stamp ingestion_id file_type =
    elim (safe_path_part u source) [
      | none ↦ none
      | some s ↦ elim (safe_path_part u entity) [
        | none ↦ none
        | some e ↦ elim (build_file_name u e stamp ingestion_id file_type) [
          | none ↦ none
          | some name ↦ some (raw_folder ∷ s ∷ e ∷ year ∷ month ∷ day ∷ name ∷ [])
        ]
      ]
    ]

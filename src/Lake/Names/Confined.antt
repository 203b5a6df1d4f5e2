-- ===== src/Lake/Names/Confined.antt =====
-- No file of the lake lies outside it.
use bokser_app.Prelude.{
  ℕ, ◌≡◌, refl, false, some, List, [], ◌∷◌, ◌++◌, ◌==◌, arith, All, subst, Option-cases, inl, inr,
}
use mathlib.Core.Option.{some-injective}
use bokser_app.Lake.Names.{
  Text, Unicode, safe_path_part, safe_file_type, build_file_name, file_path,
}
use bokser_app.Lake.Names.Safe.{
  IsSafe, IsAlnum, StartsClean, IsSafeName, safe_path_part-IsSafeName, safe_file_type-IsAlnum,
}

abbrev pub NoSlash : ℕ → Type 0
NoSlash c = (c == b'/') ≡ false

-- A part of a path that names something in its folder: it holds no separator, and begins with
-- something else than a dot, so that it is neither empty nor "." nor "..".
abbrev pub IsConfined : Text → Type 0
IsConfined s = All NoSlash s × StartsClean s

safe-NoSlash : (s : Text) → All IsSafe s → All NoSlash s
safe-NoSlash [] a = tt
safe-NoSlash (c ∷ s) a = (ground (arith, a.0), safe-NoSlash s a.1)

alnum-NoSlash : (s : Text) → All IsAlnum s → All NoSlash s
alnum-NoSlash [] a = tt
alnum-NoSlash (c ∷ s) a = (ground (arith, a.0), alnum-NoSlash s a.1)

All-append_NoSlash : (s t : Text) → All NoSlash s → All NoSlash t → All NoSlash (s ++ t)
All-append_NoSlash [] t a b = b
All-append_NoSlash (c ∷ s) t a b = (a.0, All-append_NoSlash s t a.1 b)

StartsClean-append : (s t : Text) → StartsClean s → StartsClean (s ++ t)
StartsClean-append [] t c = absurd c
StartsClean-append (d ∷ s) t c = c

safe_name-IsConfined : (s : Text) → IsSafeName s → IsConfined s
safe_name-IsConfined s n = (safe-NoSlash s n.chars, n.first)

module _ (u : Unicode) (stamp ingestion_id : Text) (a : All NoSlash stamp)
    (b : All NoSlash ingestion_id) where
  file_name-IsConfined :
      (entity file_type : Text) {name : Text}
      → IsSafeName entity
      → build_file_name u entity stamp ingestion_id file_type ≡ some name
      → IsConfined name
  unfolding build_file_name
  file_name-IsConfined entity file_type n = elim (Option-cases (safe_file_type u file_type)) [
    | inl refused ↦ rw (refused, build_file_name) (λ h. absurd (cc))
    | inr (t, e) ↦
        let tail : Text = b'_' ∷ (stamp ++ b'_' ∷ (ingestion_id ++ b'.' ∷ t)) in
        let rest : All NoSlash tail = (
          refl,
          All-append_NoSlash stamp (b'_' ∷ (ingestion_id ++ b'.' ∷ t)) a (
            refl,
            All-append_NoSlash ingestion_id (b'.' ∷ t) b
                (refl, alnum-NoSlash t (safe_file_type-IsAlnum u file_type e).1),
          ),
        ) in
        let whole : IsConfined (entity ++ tail) = (
          All-append_NoSlash entity tail (safe-NoSlash entity n.chars) rest,
          StartsClean-append entity tail n.first,
        ) in
        rw (e, build_file_name) (λ h. subst IsConfined (some-injective _ _ h) whole)
  ]

-- Whatever the source system, the entity and the file type are called, every part of the path of a
-- file below the root of the lake stays in its folder. The conditions are on what the writer puts in
-- itself: the folders of the date are such parts, and the time and the ingestion id hold no separator.
pub file_path-IsConfined :
    (u : Unicode) (source entity year month day stamp ingestion_id file_type : Text)
    {parts : List Text}
    → IsConfined year
    → IsConfined month
    → IsConfined day
    → All NoSlash stamp
    → All NoSlash ingestion_id
    → file_path u source entity year month day stamp ingestion_id file_type ≡ some parts
    → All IsConfined parts
unfolding file_path
file_path-IsConfined u source entity year month day stamp ingestion_id file_type y m d a b =
    elim (Option-cases (safe_path_part u source)) [
      | inl refused ↦ rw (refused, file_path) (λ h. absurd (cc))
      | inr (s, es) ↦ elim (Option-cases (safe_path_part u entity)) [
        | inl refused ↦ rw (es, refused, file_path) (λ h. absurd (cc))
        | inr (e, ee) ↦ elim (Option-cases (build_file_name u e stamp ingestion_id file_type)) [
          | inl refused ↦ rw (es, ee, refused, file_path) (λ h. absurd (cc))
          | inr (name, en) ↦
              let n = safe_path_part-IsSafeName u entity ee in
              rw (es, ee, en, file_path)
                (λ h. subst (All IsConfined) (some-injective _ _ h) (
                  ((refl, (refl, (refl, tt))), refl),
                  (
                    safe_name-IsConfined s (safe_path_part-IsSafeName u source es),
                    (
                      safe_name-IsConfined e n,
                      (
                        y,
                        (
                          m,
                          (d, (file_name-IsConfined u stamp ingestion_id a b e file_type n en, tt)),
                        ),
                      ),
                    ),
                  ),
                ))
        ]
      ]
    ]

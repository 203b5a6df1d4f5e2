-- ===== src/Http/Headers.antt =====
-- Which header wins in `_merge_headers`.
use bokser_app.Prelude.{
  String, ◌≡◌, refl, Option, none, some, [], ◌∷◌, str_eq, eq_iff, if◌then◌else◌, ap, ◌∙◌,
  Bool-cases, inl, inr,
}
use bokser_app.Dict.{Dict, lookup, insert, lookup-insert}
use bokser_app.Http.{update_headers, merge_headers}

-- No key twice, as in every Python dict.
abbrev pub KeysDiffer : Dict String → Type 0
KeysDiffer [] = Unit
KeysDiffer ((k, v) ∷ d) = (lookup k d ≡ none) × KeysDiffer d

abbrev pub or_else : Option String → Option String → Option String
or_else (some v) w = some v
or_else none w = w

lookup-update_headers :
    (h d : Dict String) (k : String)
    → KeysDiffer d
    → lookup k (update_headers h d) ≡ or_else (lookup k d) (lookup k h)
unfolding update_headers lookup
lookup-update_headers h [] k u = refl
lookup-update_headers h ((j, v) ∷ d) k u =
    lookup-update_headers (insert j v h) d k u.1
    ∙ ap (or_else (lookup k d)) (lookup-insert j k v h)
    ∙ first (lookup k d) refl
  where
    first :
        (o : Option String)
        → lookup k d ≡ o
        → or_else (lookup k d) (if str_eq j k then some v else lookup k h)
          ≡ or_else (if str_eq j k then some v else lookup k d) (lookup k h)
    first o e = elim (Bool-cases (str_eq j k)) [
      | inl same ↦
          let absent : lookup k d ≡ none = rw ((eq_iff j k).0 same) at u.0 in rw (same, absent)
      | inr other ↦ rw other
    ]

-- A header of the request has the value of the extra headers, or else of the auth strategy, or else
-- of the client's base headers, and there is no other header.
pub merge_headers_order :
    (base auth extra : Dict String) (k : String)
    → KeysDiffer base
    → KeysDiffer auth
    → KeysDiffer extra
    → lookup k (merge_headers base auth extra)
      ≡ or_else (lookup k extra) (or_else (lookup k auth) (lookup k base))
unfolding merge_headers lookup
merge_headers_order base auth extra k u v w =
    let own = update_headers [] base in
    lookup-update_headers (update_headers own auth) extra k w
    ∙ ap (or_else (lookup k extra)) (lookup-update_headers own auth k v)
    ∙ ap (λ o. or_else (lookup k extra) (or_else (lookup k auth) o))
        (base_only (lookup k base) refl)
  where
    base_only : (o : Option String) → lookup k base ≡ o → lookup k (update_headers [] base) ≡ o
    base_only none e = lookup-update_headers [] base k u ∙ ap (λ o. or_else o (lookup k [])) e
    base_only (some x) e = lookup-update_headers [] base k u ∙ ap (λ o. or_else o (lookup k [])) e

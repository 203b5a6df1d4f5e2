-- ===== src/State/Merge.antt =====
-- What a key holds after `deep_merge_dict`.
use bokser_app.Prelude.{
  String, ◌≡◌, refl, Option, none, some, if◌then◌else◌, str_eq, eq_iff, inl, inr, Bool-cases, ap,
  ap₂, ◌∙◌,
}
use bokser_app.Json.{Json, obj, Fields, end, field, get, put, get-put}
use bokser_app.State.{deep_merge_dict, merge_value}

-- No key of the object comes twice.
abbrev pub KeysDiffer : Fields → Type 0
KeysDiffer end = Unit
KeysDiffer (field k v d) = (get k d ≡ none) × KeysDiffer d

abbrev pub merged : Option Json → Option Json → Option Json
merged old none = old
merged old (some v) = some (merge_value old v)

-- At every key a deep merge keeps what the target had where the updates have nothing, and holds the
-- merged value where they have one.
get-deep_merge_dict :
    (target updates : Fields) (k : String)
    → KeysDiffer updates
    → get k (deep_merge_dict target updates) ≡ merged (get k target) (get k updates)
unfolding deep_merge_dict get
get-deep_merge_dict target end k u = refl
get-deep_merge_dict target (field j v d) k u =
    let target' : Fields = put j (merge_value (get j target) v) target in
    get-deep_merge_dict target' d k u.1
    ∙ ap (λ o. merged o (get k d)) (get-put j k (merge_value (get j target) v) target)
    ∙ first
  where
    first :
        merged (if str_eq j k then some (merge_value (get j target) v) else get k target) (get k d)
        ≡ merged (get k target) (if str_eq j k then some v else get k d)
    first = elim (Bool-cases (str_eq j k)) [
      | inl same ↦
          let e : j ≡ k = (eq_iff j k).0 same in
          let absent : get k d ≡ none = rw e at u.0 in
          rw (same, absent) (ap (λ i. some (merge_value (get i target) v)) e)
      | inr other ↦ rw other
    ]

-- Deep merging of an object into an object: at a key where both hold objects, the result holds
-- their merge, which again has what the old one had where the new one has nothing.
pub nested_merge :
    (target updates old new : Fields) (k j : String)
    → KeysDiffer updates
    → KeysDiffer new
    → get k target ≡ some (obj old)
    → get k updates ≡ some (obj new)
    → (inner : Fields) × (get k (deep_merge_dict target updates) ≡ some (obj inner))
      × (get j inner ≡ merged (get j old) (get j new))
nested_merge target updates old new k j u u' e e' = (
  deep_merge_dict old new,
  get-deep_merge_dict target updates k u ∙ ap₂ merged e e' ∙ unfold deep_merge_dict in refl,
  get-deep_merge_dict old new j u',
)

-- ===== src/State/Paths.antt =====
-- What `get_path` reads after `set_path`.
use bokser_app.Prelude.{
  String, ◌≡◌, ◌≢◌, refl, none, some, List, [], ◌∷◌, arith, eq_iff, ◌⊎◌, inl, inr, Option-cases,
  sym, ◌∙◌,
}
use bokser_app.Json.{Json, null, bool, num, float, str, arr, obj, Fields, end, get, put, get-put}
use bokser_app.State.{walk, get_path, set_below, existing}

get-put_self : (k : String) (v : Json) (d : Fields) → get k (put k v d) ≡ some v
get-put_self k v d = rw get-put (ground (arith, eq_iff k k))

get-put_ne : (k j : String) (v : Json) (d : Fields) → k ≢ j → get j (put k v d) ≡ get j d
get-put_ne k j v d ne = rw get-put (ground (arith, eq_iff k j))

walk_found :
    (k : String) (path : List String) (default : Json) (d : Fields) (v : Json)
    → get k d ≡ some v
    → walk (k ∷ path) default (obj d) ≡ walk path default v
unfolding walk
walk_found k path default d v e = rw (e, walk)

walk_missing :
    (k : String) (path : List String) (default : Json) (d : Fields)
    → get k d ≡ none
    → walk (k ∷ path) default (obj d) ≡ default
unfolding walk
walk_missing k path default d e = rw (e, walk)

walk-set_below :
    (k : String) (path : List String) (value default : Json) (d : Fields)
    → walk (k ∷ path) default (obj (set_below k path value d)) ≡ value
unfolding set_below
walk-set_below k [] value default d =
    walk_found k [] default (put k value d) value (get-put_self k value d) ∙ unfold walk in refl
walk-set_below k (j ∷ path) value default d =
    let inner : Fields = set_below j path value (existing (get k d)) in
    walk_found k (j ∷ path) default (put k (obj inner) d) (obj inner) (get-put_self k (obj inner) d)
    ∙ walk-set_below j path value default (existing (get k d))

-- Two paths that part ways at some key: neither leads through the other.
abbrev pub Diverge : String → List String → String → List String → Type 0
Diverge k [] j q = k ≢ j
Diverge k (k' ∷ p) j [] = k ≢ j
Diverge k (k' ∷ p) j (j' ∷ q) = (k ≢ j) ⊎ ((k ≡ j) × Diverge k' p j' q)

walk_same :
    (j : String) (q : List String) (default : Json) (d d' : Fields)
    → get j d ≡ get j d'
    → walk (j ∷ q) default (obj d) ≡ walk (j ∷ q) default (obj d')
walk_same j q default d d' e = elim (Option-cases (get j d')) [
  | inl absent ↦ walk_missing j q default d (e ∙ absent) ∙ sym (walk_missing j q default d' absent)
  | inr (v, found) ↦
      walk_found j q default d v (e ∙ found) ∙ sym (walk_found j q default d' v found)
]

-- A walk from the object that `set_path` goes on in: an object that it makes is empty.
walk-existing :
    (j : String) (q : List String) (default : Json) (k : String) (d : Fields)
    → walk (k ∷ j ∷ q) default (obj d) ≡ walk (j ∷ q) default (obj (existing (get k d)))
unfolding walk
walk-existing j q default k d = elim (Option-cases (get k d)) [
  | inl absent ↦
      walk_missing k (j ∷ q) default d absent
      ∙ rw absent (sym (walk_missing j q default end (unfold get in refl)))
  | inr (v, found) ↦ walk_found k (j ∷ q) default d v found ∙ rw found (of_value v)
]
  where
    of_value : (v : Json) → walk (j ∷ q) default v ≡ walk (j ∷ q) default (obj (existing (some v)))
    of_value (obj x) = refl
    of_value null = sym (walk_missing j q default end (unfold get in refl))
    of_value (bool b) = sym (walk_missing j q default end (unfold get in refl))
    of_value (num z) = sym (walk_missing j q default end (unfold get in refl))
    of_value (float t) = sym (walk_missing j q default end (unfold get in refl))
    of_value (str t) = sym (walk_missing j q default end (unfold get in refl))
    of_value (arr x) = sym (walk_missing j q default end (unfold get in refl))

walk-set_below_apart :
    (k : String) (p : List String) (j : String) (q : List String) (value default : Json)
    (d : Fields)
    → Diverge k p j q
    → walk (j ∷ q) default (obj (set_below k p value d)) ≡ walk (j ∷ q) default (obj d)
unfolding set_below
walk-set_below_apart k [] j q value default d ne =
    walk_same j q default (put k value d) d (get-put_ne k j value d ne)
walk-set_below_apart k (k' ∷ p) j [] value default d ne =
    let new : Json = obj (set_below k' p value (existing (get k d))) in
    walk_same j [] default (put k new d) d (get-put_ne k j new d ne)
walk-set_below_apart k (k' ∷ p) j (j' ∷ q) value default d (inl ne) =
    let new : Json = obj (set_below k' p value (existing (get k d))) in
    walk_same j (j' ∷ q) default (put k new d) d (get-put_ne k j new d ne)
walk-set_below_apart k (k' ∷ p) j (j' ∷ q) value default d (inr (e, apart)) =
    let old : Fields = existing (get k d) in
    let new : Json = obj (set_below k' p value old) in
    rw (← e) (
      walk_found k (j' ∷ q) default (put k new d) new (get-put_self k new d)
      ∙ walk-set_below_apart k' p j' q value default old apart
      ∙ sym (walk-existing j' q default k d))

-- `get_path` after the writes of `set_path` on an object: the path reads the value that was set,
-- whatever stood in the way before.
pub get_path-set_self :
    (k : String) (path : List String) (value default : Json) (d : Fields)
    → get_path (k ∷ path) default (obj (set_below k path value d)) ≡ value
unfolding get_path
get_path-set_self k path value default d = walk-set_below k path value default d

-- Every path that parts ways with the one that is set reads what it read before: its value, or the
-- default where it leads nowhere.
pub get_path-set_apart :
    (k : String) (p : List String) (j : String) (q : List String) (value default : Json)
    (d : Fields)
    → Diverge k p j q
    → get_path (j ∷ q) default (obj (set_below k p value d)) ≡ get_path (j ∷ q) default (obj d)
unfolding get_path
get_path-set_apart k p j q value default d apart =
    walk-set_below_apart k p j q value default d apart

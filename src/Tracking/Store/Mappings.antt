-- ===== src/Tracking/Store/Mappings.antt =====
-- The mappings bind containers and Odoo records one to one.
use bokser_app.Prelude.{
  ℕ, String, ◌≡◌, subst, ◌∙◌, Bool, true, false, ◌&&◌, ◌||◌, some, List, [], ◌∷◌, ◌++◌, map, any,
  All, any-append, any-map_same, ◌==◌, arith, str_eq, eq_iff, inl, inr, Bool-cases,
}
use bokser_app.Tracking.Store.{Mapping, touches, conflicts, refreshed, mapping}

abbrev pub binds : String → ℕ → Mapping → Bool
binds cid odoo_id m = str_eq m.container_id cid && m.odoo_container_id == odoo_id

-- No mapping has one id of another and not its second.
abbrev pub IsOneToOne : List Mapping → Type 0
IsOneToOne ms =
    All (λ (m : Mapping). any (conflicts m.container_id m.odoo_container_id) ms ≡ false) ms

All-map :
    (P Q : Mapping → Type 0) (g : Mapping → Mapping) (ms : List Mapping)
    → ((m : Mapping) → P m → Q (g m))
    → All P ms
    → All Q (map g ms)
All-map P Q g [] h a = tt
All-map P Q g (m ∷ ms) h a = (h m a.0, All-map P Q g ms h a.1)

module _ (now : ℕ) (cid : String) (odoo_id : ℕ) (number : String) (active refresh : Bool) where
  abbrev change : Mapping → Mapping
  change = refreshed now cid number active refresh

  abbrev new : Mapping
  new = record {
    container_id = cid;
    odoo_container_id = odoo_id;
    expected_number = number;
    active = active;
    next_refresh_at = now;
  }

  change_cid : (m : Mapping) → (change m).container_id ≡ m.container_id
  change_cid m = ground arith

  change_odoo : (m : Mapping) → (change m).odoo_container_id ≡ m.odoo_container_id
  change_odoo m = ground arith

  change-IsOneToOne : (ms : List Mapping) → IsOneToOne ms → IsOneToOne (map change ms)
  change-IsOneToOne ms h =
      All-map _
        (λ (m : Mapping).
          any (conflicts m.container_id m.odoo_container_id) (map change ms) ≡ false)
        change ms
        (λ m a.
          rw (change_cid m, change_odoo m)
            (any-map_same (conflicts m.container_id m.odoo_container_id) change ms
                (λ n. rw (change_cid n, change_odoo n))
              ∙ a))
        h

  append-All :
      (ms qs : List Mapping)
      → any (conflicts cid odoo_id) ms ≡ false
      → any (touches cid odoo_id) qs ≡ false
      → All (λ (m : Mapping). any (conflicts m.container_id m.odoo_container_id) ms ≡ false) qs
      → All
          (λ (m : Mapping).
            any (conflicts m.container_id m.odoo_container_id) (ms ++ new ∷ []) ≡ false)
          (qs ++ new ∷ [])
  append-All ms [] c t a =
      (ground (arith, any-append (conflicts cid odoo_id) ms (new ∷ []), c, eq_iff cid cid), tt)
  append-All ms (m ∷ qs) c t a = (
    ground (
      arith,
      any-append (conflicts m.container_id m.odoo_container_id) ms (new ∷ []),
      a.0,
      t,
      eq_iff cid m.container_id,
      eq_iff m.container_id cid,
    ),
    append-All ms qs c (ground (arith, t)) a.1,
  )

  touched :
      (ms : List Mapping)
      → any (conflicts cid odoo_id) ms ≡ false
      → any (touches cid odoo_id) ms ≡ true
      → any (binds cid odoo_id) ms ≡ true
  touched [] c t = cc
  touched (m ∷ ms) c t = ground (arith, touched ms)

  absorbed :
      (c : String) (o : ℕ) (ms : List Mapping)
      → any (binds cid odoo_id) ms ≡ true
      → any (binds c o) ms ≡ (any (binds c o) ms || (str_eq c cid && o == odoo_id))
  absorbed c o ms h = elim (Bool-cases (str_eq c cid && o == odoo_id)) [
    | inl both ↦
        let i : cid ≡ c = ground (arith, both, eq_iff c cid) in
        let j : odoo_id ≡ o = ground (arith, both) in
        let k : any (binds c o) ms ≡ true = rw (i, j) at h in rw k
    | inr apart ↦ ground (arith, apart)
  ]

  change-binds :
      (c : String) (o : ℕ) (ms : List Mapping)
      → any (binds c o) (map change ms) ≡ any (binds c o) ms
  change-binds c o ms = any-map_same (binds c o) change ms (λ n. rw (change_cid n, change_odoo n))

  append-binds :
      (c : String) (o : ℕ) (ms : List Mapping)
      → any (binds c o) (ms ++ new ∷ []) ≡ (any (binds c o) ms || (str_eq c cid && o == odoo_id))
  append-binds c o ms =
      ground (arith, any-append (binds c o) ms (new ∷ []), eq_iff c cid, eq_iff cid c)

-- If the mappings are one to one, no mapping has one id of another and not its second, and a container
-- is bound to an Odoo record without a conflict, then the mappings are one to one again, and bind
-- this pair and the pairs that were bound, and no other.
pub mapping-IsOneToOne :
    (now : ℕ) (cid : String) (odoo_id : ℕ) (number : String) (active refresh : Bool)
    (ms after : List Mapping) (c : String) (o : ℕ)
    → IsOneToOne ms
    → mapping now cid odoo_id number active refresh ms ≡ some after
    → IsOneToOne after
      × (any (binds c o) after ≡ (any (binds c o) ms || (str_eq c cid && o == odoo_id)))
unfolding mapping
mapping-IsOneToOne now cid odoo_id number active refresh ms after c o h e =
    elim (Bool-cases (any (conflicts cid odoo_id) ms)) [
      | inl conflict ↦ absurd (let e' = rw conflict at e in cc)
      | inr none_there ↦ elim (Bool-cases (any (touches cid odoo_id) ms)) [
        | inl there ↦
            let e' : map (refreshed now cid number active refresh) ms ≡ after =
              let f = rw (none_there, there) at e in cc in
            subst Bound e' (
              change-IsOneToOne now cid odoo_id number active refresh ms h,
              change-binds now cid odoo_id number active refresh c o ms
                  ∙ absorbed now cid odoo_id number active refresh c o ms
                      (touched now cid odoo_id number active refresh ms none_there there),
            )
        | inr absent ↦
            let e' : ms ++ new now cid odoo_id number active refresh ∷ [] ≡ after =
              let f = rw (none_there, absent) at e in cc in
            subst Bound e' (
              append-All now cid odoo_id number active refresh ms ms none_there absent h,
              append-binds now cid odoo_id number active refresh c o ms,
            )
      ]
    ]
  where
    Bound : List Mapping → Type 0
    Bound l =
        IsOneToOne l × (any (binds c o) l ≡ (any (binds c o) ms || (str_eq c cid && o == odoo_id)))

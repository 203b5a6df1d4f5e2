-- ===== src/Ksp/Worker/Safety/Submits.antt =====
-- Staging and `start_post` keep the invariant.
use bokser_app.Prelude.{
  any-map_same, ℕ, String, ◌≡◌, refl, true, false, Option, none, some, List, [], ◌∷◌, ◌++◌, map,
  any, arith, str_eq, eq_iff, if◌then◌else◌, inl, inr, ap, sym, ◌∙◌, Bool-cases, Option-cases,
  any-append,
}
use bokser_app.Json.{Json}
use bokser_app.Ksp.Journal.{
  Digest, Mapping, Binding, Db, is_ready, has_code, is_startable, find, new_binding, stage,
  start_one, start_post,
}
use bokser_app.Ksp.Worker.{
  Phase, idle, staged, owner, checking, World, set_phase, go, phase_of_staged, submit_step,
  start_step,
}
use bokser_app.Ksp.Worker.Safety.{inflight, SafeAt, IsQuiet, quiet, keep, keep_map, stay}

find-none :
    (code : String) (bs : List Binding) → find code bs ≡ none → any (has_code code) bs ≡ false
unfolding find
find-none code [] h = refl
find-none code (b ∷ bs) h = ground (arith, find-none code bs)

stage_absent :
    (digest : Digest) (body : Json) (m : Mapping) (token : String) (db : Db)
    → find m.code db.bindings ≡ none
    → let b = new_binding (digest.of_request body m token) body m token in
      stage digest body m token db ≡ (some b, record db { bindings = db.bindings ++ b ∷ [] })
unfolding stage
stage_absent digest body m token db h = rw (h, stage)

stage_known :
    (digest : Digest) (body : Json) (m : Mapping) (token : String) (db : Db) (old : Binding)
    → find m.code db.bindings ≡ some old
    → stage digest body m token db
      ≡ (if str_eq old.request_hash (digest.of_request body m token) then some old else none, db)
unfolding stage
stage_known digest body m token db old h =
    elim (Bool-cases (str_eq old.request_hash (digest.of_request body m token))) [
      | inl same ↦ rw (h, same, stage)
      | inr other ↦ rw (h, other, stage)
    ]

module _ (j : String) where
  phase_of_staged-IsQuiet : (o : Option Binding) → IsQuiet j (phase_of_staged o)
  phase_of_staged-IsQuiet none = quiet refl refl refl
  phase_of_staged-IsQuiet (some b) = elim (Bool-cases (is_ready b.state)) [
    | inl e ↦ rw e (quiet refl refl refl)
    | inr e ↦ rw e (quiet refl refl refl)
  ]

  new_row-SafeAt :
      (k : ℕ) (p : Phase) (b : Binding) (w : World)
      → SafeAt j w
      → IsQuiet j p
      → find b.code w.db.bindings ≡ none
      → SafeAt j (go k p (record w.db { bindings = w.db.bindings ++ b ∷ [] }) w)
  new_row-SafeAt k p b w s q absent =
      keep j k p (record w.db { bindings = w.db.bindings ++ b ∷ [] }) w s q
        (λ h. s.unknown (ground (arith, any-append (has_code j) w.db.bindings (b ∷ []))))
        (λ h. elim (Bool-cases (any (is_startable j) w.db.bindings)) [
          | inl old ↦ s.startable old
          | inr new ↦ s.unknown (
              ground (
                arith,
                any-append (is_startable j) w.db.bindings (b ∷ []),
                eq_iff b.code j,
                ap (λ c. any (has_code c) w.db.bindings),
                find-none b.code w.db.bindings absent,
              ))
        ])

  pub submit-SafeAt :
      (digest : Digest) (k : ℕ) (body : Json) (m : Mapping) (token : String) (w : World)
      → SafeAt j w
      → SafeAt j (submit_step digest k body m token idle w)
  unfolding submit_step
  submit-SafeAt digest k body m token w s =
      let hash = digest.of_request body m token in
      elim (Option-cases (find m.code w.db.bindings)) [
        | inl absent ↦
            let b = new_binding hash body m token in
            rw (stage_absent digest body m token w.db absent)
              (new_row-SafeAt k (phase_of_staged (some b)) b w s (quiet refl refl refl) absent)
        | inr (old, e) ↦
            let o = if str_eq old.request_hash hash then some old else none in
            rw (stage_known digest body m token w.db old e)
              (stay j k (phase_of_staged o) w s (phase_of_staged-IsQuiet o))
      ]

  none_left : (bs : List Binding) → any (is_startable j) (map (start_one j) bs) ≡ false
  none_left [] = refl
  none_left (b ∷ bs) = ground (arith, none_left bs)

  has_code-start_one : (code : String) (b : Binding) → has_code j (start_one code b) ≡ has_code j b
  has_code-start_one code b = ground arith

  startable-start_one :
      (code : String) (b : Binding)
      → is_startable j (start_one code b) ≡ true
      → is_startable j b ≡ true
  startable-start_one code b = ground arith

  startable_known :
      (bs : List Binding) → any (is_startable j) bs ≡ true → any (has_code j) bs ≡ true
  startable_known [] h = absurd (cc)
  startable_known (b ∷ bs) h = ground (arith, startable_known bs)

  -- The worker that moves the code to posting is its one owner.
  own_start-SafeAt :
      (k : ℕ) (w : World)
      → SafeAt j w
      → any (is_startable j) w.db.bindings ≡ true
      → SafeAt j (go k (owner j) (record w.db { bindings = map (start_one j) w.db.bindings }) w)
  own_start-SafeAt k w s h =
      let f = s.startable h in
      record {
        once = s.once;
        unknown = λ e. absurd (
            ground (
              arith,
              any-map_same (has_code j) (start_one j) w.db.bindings (has_code-start_one j),
              startable_known w.db.bindings h,
            ));
        startable = λ e. absurd (ground (arith, none_left w.db.bindings));
        holding = λ l e. f.all_limited;
        refused = λ l e. f.all_limited;
        single = λ l m hl hm. sole l hl ∙ sym (sole m hm);
      }
    where
      sole : (l : ℕ) → inflight (set_phase k (owner j) w.workers l) j ≡ true → l ≡ k
      sole l e = ground (arith, (s.startable h).nobody l)

  pub start-SafeAt :
      (k : ℕ) (code : String) (w : World) → SafeAt j w → SafeAt j (start_step k (staged code) w)
  unfolding start_step start_post
  start-SafeAt k code w s = elim (Bool-cases (any (is_startable code) w.db.bindings)) [
    | inr refused ↦ rw refused (
        keep_map j k (checking code) (start_one code) w s (quiet refl refl refl)
          (has_code-start_one code) (startable-start_one code))
    | inl started ↦ elim (Bool-cases (str_eq code j)) [
      | inl same ↦
          let e : code ≡ j = (eq_iff code j).0 same in
          rw started (rw e (own_start-SafeAt k w s (rw e at started)))
      | inr other ↦ rw started (
          keep_map j k (owner code) (start_one code) w s (quiet other other refl)
            (has_code-start_one code) (startable-start_one code))
    ]
  ]

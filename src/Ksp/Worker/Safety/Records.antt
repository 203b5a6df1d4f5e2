-- ===== src/Ksp/Worker/Safety/Records.antt =====
-- The record of an answer keeps the invariant.
use bokser_app.Prelude.{
  ℕ, ◌≤◌, String, ◌≡◌, refl, Bool, true, false, Option, none, some, arith, str_eq, eq_iff,
  if◌then◌else◌, inl, inr, ap, ◌∙◌, Bool-cases,
}
use bokser_app.Ksp.Journal.{Binding, ready, uncertain, is_startable, set_one, set_state}
use bokser_app.Ksp.Worker.{
  Answer, replied, gateway_error, Phase, idle, answered, checking, World, is_limited, set_phase, go,
  accept_response, record_step,
}
use bokser_app.Ksp.Worker.Safety.{
  has_limited, inflight, posts_of, limited_of, Free, SafeAt, IsQuiet, quiet, keep_map,
  has_code-set_one, set_state-SafeAt, Moved-SafeAt,
}
use bokser_app.Ksp.Worker.Safety.Responses.{accept_response-Moved}

module _ (j : String) where
  -- The answer 429 of the owner of the code makes it ready again.
  own_limited-SafeAt :
      (k : ℕ) (a : Answer) (n : Option String) (w : World)
      → w.workers k ≡ answered j a
      → is_limited a ≡ true
      → SafeAt j w
      → SafeAt j (go k idle (set_state j ready none none n w.db) w)
  unfolding set_state
  own_limited-SafeAt k a n w e lim s = record {
    once = s.once;
    unknown = λ h. free;
    startable = λ h. free;
    holding = λ l h. at_most;
    refused = λ l h. at_most;
    single = λ l m hl hm. absurd (ground (arith, nobody l));
  }
    where
      own : str_eq j j ≡ true
      own = (eq_iff j j).1 refl

      at_most : posts_of j w ≤ limited_of j w
      at_most = s.refused k (ap (λ p. has_limited p j) e ∙ ground (arith, own, lim))

      flying : inflight (w.workers k) j ≡ true
      flying = ap (λ p. inflight p j) e ∙ own

      nobody : (l : ℕ) → inflight (set_phase k idle w.workers l) j ≡ false
      nobody l = ground (arith, λ (h : inflight (w.workers l) j ≡ true). s.single l k h flying)

      free : Free j (go k idle (set_state j ready none none n w.db) w)
      free = record { all_limited = at_most; nobody = nobody }

  other_ready :
      (code : String) (n : Option String) (b : Binding)
      → str_eq code j ≡ false
      → is_startable j (set_one code ready none none n b) ≡ true
      → is_startable j b ≡ true
  other_ready code n b h = ground (arith, eq_iff b.code code, eq_iff b.code j, eq_iff code j)

  record_limited-SafeAt :
      (k : ℕ) (code : String) (a : Answer) (n : Option String) (w : World)
      → w.workers k ≡ answered code a
      → is_limited a ≡ true
      → SafeAt j w
      → SafeAt j (go k idle (set_state code ready none none n w.db) w)
  record_limited-SafeAt k code a n w e lim s = elim (Bool-cases (str_eq code j)) [
    | inl same ↦
        let p : code ≡ j = (eq_iff code j).0 same in
        rw p (own_limited-SafeAt k a n w (rw p at e) lim s)
    | inr other ↦
        unfold set_state in
        keep_map j k idle (set_one code ready none none n) w s (quiet refl refl refl)
          (has_code-set_one j code ready none none n) (λ b. other_ready code n b other)
  ]

  pub if-IsQuiet :
      (b : Bool) (p q : Phase) → IsQuiet j p → IsQuiet j q → IsQuiet j (if b then p else q)
  if-IsQuiet true p q x y = x
  if-IsQuiet false p q x y = y

  pub record-SafeAt :
      (k : ℕ) (code : String) (a : Answer) (w : World)
      → w.workers k ≡ answered code a
      → SafeAt j w
      → SafeAt j (record_step k (answered code a) w)
  unfolding record_step
  record-SafeAt k code (replied r) w e s =
      let (ok, db') = accept_response code r w.db in
      Moved-SafeAt j k (if ok then checking code else idle) code db' w s
        (if-IsQuiet ok (checking code) idle (quiet refl refl refl) (quiet refl refl refl))
        (accept_response-Moved code r w.db)
  record-SafeAt k code (gateway_error x) w e s =
      let note : Option String = some "KSP gateway request failed" in
      elim (Bool-cases (is_limited (gateway_error x))) [
        | inl lim ↦ rw lim (record_limited-SafeAt k code (gateway_error x) note w e lim s)
        | inr other ↦ rw other (
            set_state-SafeAt j k idle code uncertain none none note w s (quiet refl refl refl) refl)
      ]

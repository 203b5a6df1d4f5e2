-- ===== src/Tokens/Store/Frame.antt =====
-- What a refresh leaves alone: the other providers, and, where it fails, the table.
use bokser_app.Prelude.{
  String, ◌≡◌, ◌≢◌, refl, Bool, true, false, not, ◌&&◌, Option, none, some, eq_iff, if◌then◌else◌,
  arith, Option-cases, Bool-cases, inl, inr, ap, ◌∙◌,
}
use bokser_app.Prelude.Int.{ℤ}
use bokser_app.Dict.{Dict, lookup, insert, lookup-insert}
use bokser_app.Tokens.Provider.{Env, RefreshedToken, refresh_provider_token}
use bokser_app.Tokens.Store.{
  TokenRecord, Store, cache_loaded, get, upsert_auth_token, short_circuit, refresh_token_of,
  merged_record, store_refreshed, is_missing, refresh_row, refresh_with_cross_container_lock,
  force_refresh,
}
use bokser_app.Tokens.Store.Steps.{
  get_cached, get_absent, cross_usable, cross_row, force_usable, force_locked,
}

-- The cached record and the row of one provider.
abbrev pub SameAt : String → Store → Store → Type 0
SameAt k st st' = (lookup k st'.tokens ≡ lookup k st.tokens) × (lookup k st'.db ≡ lookup k st.db)

lookup-insert_ne :
    (key k : String) (r : TokenRecord) (d : Dict TokenRecord)
    → key ≢ k
    → lookup k (insert key r d) ≡ lookup k d
lookup-insert_ne key k r d ne = rw lookup-insert (ground (arith, eq_iff key k))

SameAt-trans : (k : String) (a b c : Store) → SameAt k a b → SameAt k b c → SameAt k a c
SameAt-trans k a b c p q = (q.0 ∙ p.0, q.1 ∙ p.1)

module _ (env : Env) (key k : String) (ne : key ≢ k) where
  get-SameAt : (load : Bool) (st : Store) → SameAt k st (get key load st).1
  get-SameAt load st = elim (Option-cases (lookup key st.tokens)) [
    | inr (r, e) ↦ rw (get_cached key load st r e) (refl, refl)
    | inl absent ↦ rw (get_absent key load st absent) (from_db load)
  ]
    where
      loaded : (o : Option TokenRecord) → SameAt k st (cache_loaded key o st).1
      loaded none = (refl, refl)
      loaded (some r) = (lookup-insert_ne key k r st.tokens ne, refl)

      from_db :
          (load : Bool)
          → SameAt k st (if load then cache_loaded key (lookup key st.db) st else (none, st)).1
      from_db true = loaded (lookup key st.db)
      from_db false = (refl, refl)

  stored-SameAt :
      (current : Option TokenRecord) (t : Option RefreshedToken) (st : Store)
      → SameAt k st (store_refreshed env key current t st).1
  unfolding upsert_auth_token
  stored-SameAt current none st = (refl, refl)
  stored-SameAt current (some t) st = elim (Bool-cases env.commit_fails) [
    | inl refused ↦ rw refused (refl, refl)
    | inr committed ↦ rw committed (
      lookup-insert_ne key k (merged_record key t current) st.tokens ne,
      lookup-insert_ne key k _ st.db ne,
    )
  ]

  refresh_row-SameAt :
      (allow : Bool) (current : Option TokenRecord) (st : Store)
      → SameAt k st (refresh_row env key allow current st).1
  unfolding refresh_row
  refresh_row-SameAt allow current st = elim (Bool-cases (is_missing current && not allow)) [
    | inl missing ↦ rw missing (refl, refl)
    | inr go ↦
        rw go (stored-SameAt current (refresh_provider_token env key (refresh_token_of current)) st)
  ]

  cross-SameAt :
      (expected : Option String) (allow : Bool) (skew : ℤ) (st : Store)
      → SameAt k st (refresh_with_cross_container_lock env key expected allow skew st).1
  cross-SameAt expected allow skew st =
      elim (Option-cases (short_circuit env.now (lookup key st.db) expected skew)) [
        | inl none_usable ↦
            rw (cross_row env key expected allow skew st none_usable)
              (refresh_row-SameAt allow (lookup key st.db) st)
        | inr (r, e) ↦
            rw (cross_usable env key expected allow skew st r e)
              (lookup-insert_ne key k r st.tokens ne, refl)
      ]

  -- A forced refresh of one provider changes neither the cached record nor the row of another.
  pub force_refresh-SameAt :
      (expected : Option String) (allow : Bool) (skew : ℤ) (st : Store)
      → SameAt k st (force_refresh env key expected allow skew st).1
  force_refresh-SameAt expected allow skew st =
      let (current, st') = get key true st in
      elim (Option-cases (short_circuit env.now current expected skew)) [
        | inl none_usable ↦
            rw (force_locked env key expected allow skew st none_usable)
              (SameAt-trans k st st' _ (get-SameAt true st) (cross-SameAt expected allow skew st'))
        | inr (r, e) ↦ rw (force_usable env key expected allow skew st r e) (get-SameAt true st)
      ]

module _ (env : Env) (key : String) where
  db-cache_loaded : (o : Option TokenRecord) (st : Store) → (cache_loaded key o st).1.db ≡ st.db
  db-cache_loaded none st = refl
  db-cache_loaded (some r) st = refl

  pub db-get : (load : Bool) (st : Store) → (get key load st).1.db ≡ st.db
  db-get load st = elim (Option-cases (lookup key st.tokens)) [
    | inr (r, e) ↦ rw (get_cached key load st r e)
    | inl absent ↦ rw (get_absent key load st absent) (from_db load)
  ]
    where
      from_db :
          (load : Bool)
          → (if load then cache_loaded key (lookup key st.db) st else (none, st)).1.db ≡ st.db
      from_db true = db-cache_loaded (lookup key st.db) st
      from_db false = refl

  -- The call failed and changed nothing.
  abbrev Unchanged : Store → Option TokenRecord × Store → Type 0
  Unchanged st (o, st') = o ≡ none → st' ≡ st

  stored-Unchanged :
      (current : Option TokenRecord) (t : Option RefreshedToken) (st : Store)
      → Unchanged st (store_refreshed env key current t st)
  stored-Unchanged current none st h = refl
  stored-Unchanged current (some t) st h = ground arith

  cross-Unchanged :
      (expected : Option String) (allow : Bool) (skew : ℤ) (st : Store)
      → Unchanged st (refresh_with_cross_container_lock env key expected allow skew st)
  unfolding refresh_row
  cross-Unchanged expected allow skew st =
      let current = lookup key st.db in
      elim (Option-cases (short_circuit env.now current expected skew)) [
        | inr (r, e) ↦ rw (cross_usable env key expected allow skew st r e) (λ h. absurd (cc))
        | inl none_usable ↦
            rw (cross_row env key expected allow skew st none_usable)
              (elim (Bool-cases (is_missing current && not allow)) [
                | inl missing ↦ rw missing (λ h. refl)
                | inr go ↦ rw go (
                    stored-Unchanged current
                      (refresh_provider_token env key (refresh_token_of current)) st)
              ])
      ]

  -- A forced refresh that returns nothing, be it for a missing row, a refused grant or a refused commit,
  -- leaves the store as `get` left it; in particular no row of the table has changed.
  pub failed_refresh :
      (expected : Option String) (allow : Bool) (skew : ℤ) (st : Store)
      → (force_refresh env key expected allow skew st).0 ≡ none
      → let (_, st') = force_refresh env key expected allow skew st in
        (st' ≡ (get key true st).1) × (st'.db ≡ st.db)
  failed_refresh expected allow skew st =
      let (current, st1) = get key true st in
      elim (Option-cases (short_circuit env.now current expected skew)) [
        | inr (r, e) ↦ rw (force_usable env key expected allow skew st r e) (λ h. absurd (cc))
        | inl none_usable ↦ rw (force_locked env key expected allow skew st none_usable) (λ h.
            let same = cross-Unchanged expected allow skew st1 h in
            (same, ap (λ (s : Store). s.db) same ∙ db-get true st))
      ]

-- ===== src/Tokens/Store/Refresh.antt =====
-- What a refresh returns, caches and stores.
use bokser_app.Prelude.{
  String, ◌≡◌, refl, Bool, true, false, not, ◌&&◌, Option, none, some, eq_iff, if◌then◌else◌, arith,
  Option-cases, Bool-cases, inl, inr, subst,
}
use bokser_app.Prelude.Int.{ℤ}
use bokser_app.Dict.{Dict, lookup, insert, lookup-insert}
use bokser_app.Tokens.Provider.{Env, RefreshedToken, refresh_provider_token}
use bokser_app.Tokens.Store.Steps.{
  get_cached, get_absent, cross_usable, cross_row, force_usable, force_locked,
}
use bokser_app.Tokens.Store.{
  TokenRecord, Store, cache_loaded, get, kept_refresh_token, upsert_auth_token, short_circuit,
  refresh_token_of, merge_refresh_token, merged_record, store_refreshed, is_missing, refresh_row,
  refresh_with_cross_container_lock, force_refresh,
}

-- The cache holds no record of the provider but the table's.
abbrev pub Agrees : String → Store → Type 0
Agrees k st = (r : TokenRecord) → lookup k st.tokens ≡ some r → lookup k st.db ≡ some r

-- The result, if any, is the cached record of the provider, which is the table's.
abbrev pub Settled : String → Option TokenRecord × Store → Type 0
Settled key (none, st) = Unit
Settled key (some r, st) = (lookup key st.tokens ≡ some r) × (lookup key st.db ≡ some r)

pub lookup-insert_self :
    (k : String) (r : TokenRecord) (d : Dict TokenRecord) → lookup k (insert k r d) ≡ some r
lookup-insert_self k r d = rw lookup-insert (ground (arith, eq_iff k k))

-- A refresh token that was merged with the row's is what the upsert keeps.
kept_own :
    (current : Option TokenRecord)
    → kept_refresh_token (refresh_token_of current) current ≡ refresh_token_of current
kept_own none = refl
kept_own (some r) = ground arith

kept_merged :
    (t : Option String) (current : Option TokenRecord)
    → kept_refresh_token (merge_refresh_token t current) current ≡ merge_refresh_token t current
kept_merged none current = kept_own current
kept_merged (some t) current = ground (arith, kept_own current)

module _ (env : Env) (key : String) where
  -- What the refresh stores is what it caches.
  store_refreshed-Settled :
      (t : RefreshedToken) (st : Store)
      → Settled key (store_refreshed env key (lookup key st.db) (some t) st)
  unfolding upsert_auth_token
  store_refreshed-Settled t st = elim (Bool-cases env.commit_fails) [
    | inl refused ↦ rw refused tt
    | inr committed ↦
        let current = lookup key st.db in
        let r = merged_record key t current in
        rw committed (
          lookup-insert_self key r st.tokens,
          rw (kept_merged t.refresh_token current) (lookup-insert_self key r st.db),
        )
  ]

  refresh_row-Settled :
      (allow : Bool) (st : Store) → Settled key (refresh_row env key allow (lookup key st.db) st)
  unfolding refresh_row
  refresh_row-Settled allow st =
      let current = lookup key st.db in
      elim (Bool-cases (is_missing current && not allow)) [
        | inl missing ↦ rw missing tt
        | inr go ↦ rw go (stored (refresh_provider_token env key (refresh_token_of current)))
      ]
    where
      stored :
          (t : Option RefreshedToken)
          → Settled key (store_refreshed env key (lookup key st.db) t st)
      stored none = tt
      stored (some t) = store_refreshed-Settled t st

  short_circuit_id :
      (current : Option TokenRecord) (expected : Option String) (skew : ℤ) (r : TokenRecord)
      → short_circuit env.now current expected skew ≡ some r
      → current ≡ some r
  unfolding short_circuit
  short_circuit_id none expected skew r h = absurd (cc)
  short_circuit_id (some c) expected skew r h = ground arith

  cross_container-Settled :
      (expected : Option String) (allow : Bool) (skew : ℤ) (st : Store)
      → Settled key (refresh_with_cross_container_lock env key expected allow skew st)
  cross_container-Settled expected allow skew st =
      elim (Option-cases (short_circuit env.now (lookup key st.db) expected skew)) [
        | inl none_usable ↦
            rw (cross_row env key expected allow skew st none_usable) (refresh_row-Settled allow st)
        | inr (r, e) ↦ rw (cross_usable env key expected allow skew st r e) (
          lookup-insert_self key r st.tokens,
          short_circuit_id (lookup key st.db) expected skew r e,
        )
      ]

  get-Settled : (load : Bool) (st : Store) → Agrees key st → Settled key (get key load st)
  get-Settled load st a = elim (Option-cases (lookup key st.tokens)) [
    | inr (r, e) ↦ rw (get_cached key load st r e) (e, a r e)
    | inl absent ↦ rw (get_absent key load st absent) (from_db load)
  ]
    where
      loaded : (o : Option TokenRecord) → lookup key st.db ≡ o → Settled key (cache_loaded key o st)
      loaded none e = tt
      loaded (some r) e = (lookup-insert_self key r st.tokens, e)

      from_db :
          (load : Bool)
          → Settled key (if load then cache_loaded key (lookup key st.db) st else (none, st))
      from_db true = loaded (lookup key st.db) refl
      from_db false = tt

  -- Where the cache agrees with the table for the provider, whatever record a forced refresh returns
  -- is both the cached record and the row of the table afterwards.
  pub force_refresh-Settled :
      (expected : Option String) (allow : Bool) (skew : ℤ) (st : Store)
      → Agrees key st
      → Settled key (force_refresh env key expected allow skew st)
  force_refresh-Settled expected allow skew st a =
      let (current, st') = get key true st in
      elim (Option-cases (short_circuit env.now current expected skew)) [
        | inl none_usable ↦
            rw (force_locked env key expected allow skew st none_usable)
              (cross_container-Settled expected allow skew st')
        | inr (r, e) ↦
            rw (force_usable env key expected allow skew st r e)
              (settled_of (short_circuit_id current expected skew r e))
      ]
    where
      settled_of :
          {r : TokenRecord}
          → (get key true st).0 ≡ some r
          → Settled key (some r, (get key true st).1)
      settled_of {r} e = subst (λ o. Settled key (o, (get key true st).1)) e (get-Settled true st a)

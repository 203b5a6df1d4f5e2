-- ===== src/Tokens/Store/Valid.antt =====
-- The token that a caller gets is not expired or is newly issued, and a token that another container
-- has refreshed is taken over.
use bokser_app.Prelude.{
  String, ◌≡◌, refl, Bool, true, false, not, ◌&&◌, Option, none, some, str_eq, eq_iff,
  if◌then◌else◌, arith, Option-cases, Bool-cases, inl, inr, ◌⊎◌, ap, subst, ◌∙◌,
}
use bokser_app.Prelude.Int.{ℤ}
use bokser_app.Dict.{Dict, lookup, insert}
use bokser_app.Tokens.Provider.{Env, RefreshedToken, refresh_provider_token}
use bokser_app.Tokens.Store.{
  TokenRecord, Store, is_expired, cache_loaded, get, short_circuit, refresh_token_of, merged_record,
  store_refreshed, is_missing, refresh_row, refresh_with_cross_container_lock, force_refresh,
  access_token_of, is_valid, get_valid_access_token,
}
use bokser_app.Tokens.Store.Steps.{
  get_cached, get_absent, cross_usable, cross_row, force_usable, force_locked,
}
use bokser_app.Tokens.Store.Refresh.{Settled, Agrees, force_refresh-Settled, lookup-insert_self}

module _ (env : Env) (key : String) (skew : ℤ) where
  -- The record was made from a token that the provider issued in this call.
  abbrev pub IsIssued : TokenRecord → Type 0
  IsIssued r =
      (t : RefreshedToken) × (current : Option TokenRecord) × (refresh_provider_token env key
          (refresh_token_of current)
        ≡ some t)
      × (r ≡ merged_record key t current)

  abbrev pub IsGood : TokenRecord → Type 0
  IsGood r = (is_expired env.now r.expires_at skew ≡ false) ⊎ IsIssued r

  -- A record that comes back is cached and good.
  abbrev GoodResult : Option TokenRecord × Store → Type 0
  GoodResult (none, st) = Unit
  GoodResult (some r, st) = (lookup key st.tokens ≡ some r) × IsGood r

  usable_unexpired :
      (current : Option TokenRecord) (expected : Option String) (r : TokenRecord)
      → short_circuit env.now current expected skew ≡ some r
      → (current ≡ some r) × (is_expired env.now r.expires_at skew ≡ false)
  unfolding short_circuit
  usable_unexpired none expected r h = absurd (cc)
  usable_unexpired (some c) none r h = ground arith
  usable_unexpired (some c) (some e) r h = ground arith

  get_cached_result :
      (load : Bool) (st : Store) (r : TokenRecord)
      → (get key load st).0 ≡ some r
      → lookup key (get key load st).1.tokens ≡ some r
  get_cached_result load st r = elim (Option-cases (lookup key st.tokens)) [
    | inr (c, e) ↦ rw (get_cached key load st c e) (λ h. e ∙ h)
    | inl absent ↦ rw (get_absent key load st absent) (from_db load)
  ]
    where
      loaded :
          (o : Option TokenRecord)
          → (cache_loaded key o st).0 ≡ some r
          → lookup key (cache_loaded key o st).1.tokens ≡ some r
      loaded none h = absurd (cc)
      loaded (some c) h = lookup-insert_self key c st.tokens ∙ h

      from_db :
          (load : Bool)
          → let got = if load then cache_loaded key (lookup key st.db) st else (none, st) in
            got.0 ≡ some r → lookup key got.1.tokens ≡ some r
      from_db true h = loaded (lookup key st.db) h
      from_db false h = absurd (cc)

  stored-GoodResult :
      (current : Option TokenRecord) (st : Store) (t : Option RefreshedToken)
      → refresh_provider_token env key (refresh_token_of current) ≡ t
      → GoodResult (store_refreshed env key current t st)
  stored-GoodResult current st none e = tt
  stored-GoodResult current st (some t) e = elim (Bool-cases env.commit_fails) [
    | inl refused ↦ rw refused tt
    | inr committed ↦
        simp committed (
          lookup-insert_self key (merged_record key t current) st.tokens,
          inr (t, current, e, refl),
        )
  ]

  refresh_row-GoodResult :
      (allow : Bool) (current : Option TokenRecord) (st : Store)
      → GoodResult (refresh_row env key allow current st)
  unfolding refresh_row
  refresh_row-GoodResult allow current st = elim (Bool-cases (is_missing current && not allow)) [
    | inl missing ↦ rw missing tt
    | inr go ↦ rw go (
        stored-GoodResult current st (refresh_provider_token env key (refresh_token_of current))
          refl)
  ]

  cross-GoodResult :
      (expected : Option String) (allow : Bool) (st : Store)
      → GoodResult (refresh_with_cross_container_lock env key expected allow skew st)
  cross-GoodResult expected allow st =
      let current = lookup key st.db in
      elim (Option-cases (short_circuit env.now current expected skew)) [
        | inl none_usable ↦
            rw (cross_row env key expected allow skew st none_usable)
              (refresh_row-GoodResult allow current st)
        | inr (r, e) ↦
            rw (cross_usable env key expected allow skew st r e)
              (lookup-insert_self key r st.tokens, inl (usable_unexpired current expected r e).1)
      ]

  force_refresh-GoodResult :
      (expected : Option String) (allow : Bool) (st : Store)
      → GoodResult (force_refresh env key expected allow skew st)
  force_refresh-GoodResult expected allow st =
      let (current, st') = get key true st in
      elim (Option-cases (short_circuit env.now current expected skew)) [
        | inl none_usable ↦
            rw (force_locked env key expected allow skew st none_usable)
              (cross-GoodResult expected allow st')
        | inr (r, e) ↦
            let u = usable_unexpired current expected r e in
            rw (force_usable env key expected allow skew st r e)
              (get_cached_result true st r u.0, inl u.1)
      ]

  -- The access token of a cached record that is good.
  abbrev pub GoodToken : String → Store → Type 0
  GoodToken t st =
      (r : TokenRecord) × (lookup key st.tokens ≡ some r) × (r.access_token ≡ t) × IsGood r

  token_of_result :
      (t : String) (p : Option TokenRecord × Store)
      → GoodResult p
      → access_token_of p.0 ≡ some t
      → GoodToken t p.1
  token_of_result t (none, st) g h = absurd (cc)
  token_of_result t (some r, st) g h = (r, g.0, cc, g.1)

  token_of_valid :
      (t : String) (o : Option TokenRecord) (st : Store)
      → ((r : TokenRecord) → o ≡ some r → lookup key st.tokens ≡ some r)
      → is_valid env.now skew o ≡ true
      → access_token_of o ≡ some t
      → GoodToken t st
  token_of_valid t none st cached v h = absurd (cc)
  token_of_valid t (some r) st cached v h = (r, cached r refl, cc, inl (ground arith))

  -- Whenever `get_valid_access_token` returns a token, it is the access token of the provider's cached
  -- record, and that record is not within the skew of its expiry or was issued by the provider in
  -- this very call.
  pub valid_token :
      (st : Store) (t : String)
      → (get_valid_access_token env key skew st).0 ≡ some t
      → GoodToken t (get_valid_access_token env key skew st).1
  unfolding get_valid_access_token
  valid_token st t = elim (Bool-cases (is_valid env.now skew (get key true st).0)) [
    | inl v ↦
        rw v
          (token_of_valid t (get key true st).0 (get key true st).1 (get_cached_result true st) v)
    | inr v ↦ rw v (
        let (r, st') = get key true st in
        token_of_result t (force_refresh env key (access_token_of r) true skew st')
          (force_refresh-GoodResult (access_token_of r) true st'))
  ]

-- A second container that still caches the token which the first has replaced takes over the record
-- that the first has stored, and caches it, whatever the endpoint would answer it: its refresh sends
-- no grant. The condition is that the new token differs from the old one and is not near its expiry.
pub second_container :
    (first second : Env) (key : String) (expected : Option String) (allow allow' : Bool)
    (skew skew' : ℤ) (st st' : Store) (tokens : Dict TokenRecord) (r old : TokenRecord)
    → Agrees key st
    → force_refresh first key expected allow skew st ≡ (some r, st')
    → lookup key tokens ≡ some old
    → str_eq r.access_token old.access_token ≡ false
    → is_expired second.now r.expires_at skew' ≡ false
    → force_refresh second key
        (some old.access_token)
        allow'
        skew'
        (record { tokens = tokens; db = st'.db })
      ≡ (some r, record { tokens = insert key r tokens; db = st'.db })
unfolding short_circuit
second_container first second key expected allow allow' skew skew' st st' tokens r old a done cached
      new live =
    force_locked second key (some old.access_token) allow' skew' own stale
    ∙ ap (refresh_with_cross_container_lock second key (some old.access_token) allow' skew')
        (ap (λ (p : Option TokenRecord × Store). p.1) (get_cached key true own old cached))
    ∙ cross_usable second key (some old.access_token) allow' skew' own r usable
  where
    own : Store
    own = record { tokens = tokens; db = st'.db }

    stale : short_circuit second.now (get key true own).0 (some old.access_token) skew' ≡ none
    stale =
        rw (get_cached key true own old cached)
          (ground (arith, eq_iff old.access_token old.access_token))

    stored : lookup key st'.db ≡ some r
    stored = (subst (Settled key) done (force_refresh-Settled first key expected allow skew st a)).1

    usable : short_circuit second.now (lookup key own.db) (some old.access_token) skew' ≡ some r
    usable = rw stored (ground arith)

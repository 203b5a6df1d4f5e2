-- ===== src/Tokens/Store/Steps.antt =====
-- The branches of `TokenStore.get`, of `_refresh_with_cross_container_lock` and of `force_refresh`.
use bokser_app.Prelude.{String, ◌≡◌, Bool, true, Option, none, some, if◌then◌else◌}
use bokser_app.Prelude.Int.{ℤ}
use bokser_app.Dict.{lookup}
use bokser_app.Tokens.Provider.{Env}
use bokser_app.Tokens.Store.{
  TokenRecord, Store, set_cached_record, cache_loaded, get, short_circuit, refresh_row,
  refresh_with_cross_container_lock, force_refresh,
}

pub get_cached :
    (key : String) (load : Bool) (st : Store) (r : TokenRecord)
    → lookup key st.tokens ≡ some r
    → get key load st ≡ (some r, st)
unfolding get
get_cached key load st r e = rw (e, get)

pub get_absent :
    (key : String) (load : Bool) (st : Store)
    → lookup key st.tokens ≡ none
    → get key load st ≡ (if load then cache_loaded key (lookup key st.db) st else (none, st))
unfolding get
get_absent key load st e = rw (e, get)

module _ (env : Env) (key : String) (expected : Option String) (allow : Bool) (skew : ℤ)
    (st : Store) where
  pub cross_usable :
      (r : TokenRecord)
      → short_circuit env.now (lookup key st.db) expected skew ≡ some r
      → refresh_with_cross_container_lock env key expected allow skew st
        ≡ (some r, set_cached_record key r st)
  unfolding refresh_with_cross_container_lock
  cross_usable r e = rw (e, refresh_with_cross_container_lock)

  pub cross_row :
      short_circuit env.now (lookup key st.db) expected skew ≡ none
      → refresh_with_cross_container_lock env key expected allow skew st
        ≡ refresh_row env key allow (lookup key st.db) st
  unfolding refresh_with_cross_container_lock
  cross_row e = rw (e, refresh_with_cross_container_lock)

  pub force_usable :
      (r : TokenRecord)
      → short_circuit env.now (get key true st).0 expected skew ≡ some r
      → force_refresh env key expected allow skew st ≡ (some r, (get key true st).1)
  unfolding force_refresh
  force_usable r e = rw (e, force_refresh)

  pub force_locked :
      short_circuit env.now (get key true st).0 expected skew ≡ none
      → force_refresh env key expected allow skew st
        ≡ refresh_with_cross_container_lock env key expected allow skew (get key true st).1
  unfolding force_refresh
  force_locked e = rw (e, force_refresh)

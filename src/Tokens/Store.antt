-- ===== src/Tokens/Store.antt =====
-- `TokenStore`, its cache over the table `auth_tokens`
-- (src/integrations/_base_client/token_cache.py). The calls of one store for one provider do not
-- overlap in the parts between its locks; each function below is the state change of one call. An
-- exception is `none`.
mod Steps
pub mod Refresh
pub mod Frame
pub mod Valid
use bokser_app.Prelude.{
  String, ◌≡◌, Bool, true, false, not, ◌&&◌, ◌||◌, Option, none, some, List, [], ◌∷◌, str_eq,
  if◌then◌else◌,
}
use bokser_app.Prelude.Int.{ℤ, ◌+ℤ◌, ◌≤ℤ◌, pos_part, neg_part}
use bokser_app.Dict.{Dict, lookup, insert, remove}
use bokser_app.Tokens.Provider.{Env, RefreshedToken, refresh_provider_token, is_empty}
use bokser_app.Prelude.{leb, ◌+◌}

-- `TokenRecord`; a row of `AuthToken` has the same fields.
pub record TokenRecord : Type 0 where
  pub provider : String
  pub access_token : String
  pub refresh_token : Option String
  pub expires_at : ℤ

pub record Store : Type 0 where
  pub tokens : Dict TokenRecord
  pub db : Dict TokenRecord

-- `_is_expired`: now >= expires_at - skew.
unfoldable pub is_expired : ℤ → ℤ → ℤ → Bool
is_expired now expires_at skew =
    leb (pos_part expires_at + neg_part (now +ℤ skew))
      (pos_part (now +ℤ skew) + neg_part expires_at)

-- `_set_cached_record`
abbrev pub set_cached_record : String → TokenRecord → Store → Store
set_cached_record key r st = record st { tokens = insert key r st.tokens }

-- A `db_record` that is found is cached.
abbrev pub cache_loaded : String → Option TokenRecord → Store → Option TokenRecord × Store
cache_loaded key none st = (none, st)
cache_loaded key (some r) st = (some r, set_cached_record key r st)

-- `TokenStore.get`
unfoldable pub get : String → Bool → Store → Option TokenRecord × Store
get key load_from_db st = elim (lookup key st.tokens) [
  | some r ↦ (some r, st)
  | none ↦ if load_from_db then cache_loaded key (lookup key st.db) st else (none, st)
]

-- The refresh token that an upsert leaves: a missing one keeps the row's.
abbrev pub kept_refresh_token : Option String → Option TokenRecord → Option String
kept_refresh_token (some t) old = some t
kept_refresh_token none none = none
kept_refresh_token none (some r) = r.refresh_token

-- `_upsert_auth_token_in_session`
unfoldable pub upsert_auth_token : TokenRecord → Dict TokenRecord → Dict TokenRecord
upsert_auth_token r db =
    insert r.provider
      (record r { refresh_token = kept_refresh_token r.refresh_token (lookup r.provider db) }) db

-- `TokenStore.set`
unfoldable pub set : TokenRecord → Bool → Store → Store
unfolding upsert_auth_token
set r persist st = record {
  tokens = insert r.provider r st.tokens;
  db = if persist then upsert_auth_token r st.db else st.db;
}

-- The tests of `_short_circuit_if_already_refreshed`, on a record that is there.
abbrev pub is_usable : ℤ → Option String → ℤ → TokenRecord → Bool
is_usable now none skew r = not (is_expired now r.expires_at skew)
is_usable now (some t) skew r =
    not (str_eq r.access_token t) && not (is_expired now r.expires_at skew)

-- `_short_circuit_if_already_refreshed`
unfoldable pub short_circuit : ℤ → Option TokenRecord → Option String → ℤ → Option TokenRecord
short_circuit now none expected skew = none
short_circuit now (some r) expected skew = if is_usable now expected skew r then some r else none

abbrev pub refresh_token_of : Option TokenRecord → Option String
refresh_token_of none = none
refresh_token_of (some r) = r.refresh_token

-- `refreshed.refresh_token or (current.refresh_token if current is not None else None)`
abbrev pub merge_refresh_token : Option String → Option TokenRecord → Option String
merge_refresh_token none current = refresh_token_of current
merge_refresh_token (some t) current = if is_empty t then refresh_token_of current else some t

-- The record that is stored.
abbrev pub merged_record : String → RefreshedToken → Option TokenRecord → TokenRecord
merged_record key t current = record {
  provider = key;
  access_token = t.access_token;
  refresh_token = merge_refresh_token t.refresh_token current;
  expires_at = t.expires_at;
}

-- The upsert, the commit and the caching. A refused commit is caught, and leaves all as it was.
abbrev pub store_refreshed :
    Env → String → Option TokenRecord → Option RefreshedToken → Store → Option TokenRecord × Store
store_refreshed env key current none st = (none, st)
store_refreshed env key current (some t) st =
    let r = merged_record key t current in
    if env.commit_fails
    then (none, st)
    else (some r, record { tokens = insert key r st.tokens; db = upsert_auth_token r st.db })

abbrev pub is_missing : Option TokenRecord → Bool
is_missing none = true
is_missing (some r) = false

-- After the short circuit on the row of the table.
unfoldable pub refresh_row :
    Env → String → Bool → Option TokenRecord → Store → Option TokenRecord × Store
refresh_row env key allow_missing current st =
    if is_missing current && not allow_missing
    then (none, st)
    else store_refreshed env key current (refresh_provider_token env key (refresh_token_of current))
        st

-- `_refresh_with_cross_container_lock`
unfoldable pub refresh_with_cross_container_lock :
    Env → String → Option String → Bool → ℤ → Store → Option TokenRecord × Store
unfolding refresh_row
refresh_with_cross_container_lock env key expected allow_missing skew st =
    let current = lookup key st.db in
    elim (short_circuit env.now current expected skew) [
      | some r ↦ (some r, set_cached_record key r st)
      | none ↦ refresh_row env key allow_missing current st
    ]

-- `force_refresh`, within the provider's refresh lock.
unfoldable pub force_refresh :
    Env → String → Option String → Bool → ℤ → Store → Option TokenRecord × Store
unfolding get short_circuit refresh_with_cross_container_lock
force_refresh env key expected allow_missing skew st =
    let (current, st') = get key true st in
    elim (short_circuit env.now current expected skew) [
      | some r ↦ (some r, st')
      | none ↦ refresh_with_cross_container_lock env key expected allow_missing skew st'
    ]

abbrev pub access_token_of : Option TokenRecord → Option String
access_token_of none = none
access_token_of (some r) = some r.access_token

abbrev pub is_valid : ℤ → ℤ → Option TokenRecord → Bool
is_valid now skew none = false
is_valid now skew (some r) = not (is_expired now r.expires_at skew)

-- `get_valid_access_token`, with `none` for its `RuntimeError`.
unfoldable pub get_valid_access_token : Env → String → ℤ → Store → Option String × Store
unfolding force_refresh
get_valid_access_token env key skew st =
    let (r, st') = get key true st in
    let (refreshed, st'') = force_refresh env key (access_token_of r) true skew st' in
    if is_valid env.now skew r then (access_token_of r, st') else (access_token_of refreshed, st'')

-- `_warm_provider`, with `false` for its `RuntimeError`.
unfoldable pub warm_provider : Env → ℤ → String → Store → Bool × Store
unfolding force_refresh
warm_provider env skew key st =
    let (r, st') = get key true st in
    let (refreshed, st'') = force_refresh env key (access_token_of r) true skew st' in
    if is_valid env.now skew r then (true, st') else (not (is_missing refreshed), st'')

-- `warmup_on_startup`: a failure stops a strict warmup.
unfoldable pub warm_all : Env → ℤ → Bool → List String → Store → Bool × Store
unfolding warm_provider
warm_all env skew strict [] st = (true, st)
warm_all env skew strict (p ∷ ps) st =
    let (done, st') = warm_provider env skew p st in
    let rest = warm_all env skew strict ps st' in if not done && strict then (false, st') else rest

abbrev pub all_providers : List String
all_providers = "sos_inventory" ∷ "productiv" ∷ "acenda" ∷ []

unfoldable pub warmup_on_startup : Env → ℤ → Bool → Store → Bool × Store
unfolding warm_all
warmup_on_startup env skew strict st = warm_all env skew strict all_providers st

-- `clear_memory`, of one provider or of all.
unfoldable pub clear_memory : Option String → Store → Store
clear_memory none st = record st { tokens = [] }
clear_memory (some key) st = record st { tokens = remove key st.tokens }

-- `clear`, with `delete_auth_token_from_db`.
unfoldable pub clear : String → Bool → Store → Store
clear key delete_from_db st = record {
  tokens = remove key st.tokens;
  db = if delete_from_db then remove key st.db else st.db;
}

-- ===== src/Tokens/Provider.antt =====
-- The token endpoints: cleaning of texts, the reading of a token response, and the refresh of each
-- provider (src/integrations/_base_client/token_cache.py). What the endpoint answers to a grant, and
-- Python's `str` and `int` on JSON values that are no texts, are fields of an environment. Times are
-- seconds since the epoch.
use Prim.Native.Char.{code}
use bokser_app.Prelude.{
  ℕ, String, Bool, true, false, ◌&&◌, ◌||◌, Option, none, some, str_eq, if◌then◌else◌,
}
use bokser_app.Prelude.Int.{ℤ, pos, ◌+ℤ◌}
use bokser_app.Json.{Json, null, bool, num, float, str, Fields, get}
use bokser_app.PyInt.{is_space, parse_int}

unfoldable pub strip_left : String → String
strip_left String.[] = String.[]
strip_left (String.◌∷◌ c s) =
    let rest = strip_left s in if is_space (code c) then rest else String.◌∷◌ c s

abbrev pub is_empty : String → Bool
is_empty String.[] = true
is_empty (String.◌∷◌ c s) = false

unfoldable pub strip_right : String → String
strip_right String.[] = String.[]
strip_right (String.◌∷◌ c s) =
    let rest = strip_right s in
    if is_space (code c) && is_empty rest then String.[] else String.◌∷◌ c rest

unfoldable pub strip : String → String
unfolding strip_left strip_right
strip s = strip_right (strip_left s)

-- `value or None`, for a text.
abbrev pub or_none : String → Option String
or_none s = if is_empty s then none else some s

pub data Grant : Type 0 where
  refresh_grant : String → Grant
  -- client id, client secret, code, redirect uri
  code_grant : String → String → String → String → Grant
  -- key, user
  user_grant : String → String → Grant
  -- client id, client secret
  client_grant : String → String → Grant

-- The settings that the refreshes read, and the code and services outside the repository.
pub record Env : Type 0 where
  pub now : ℤ
  pub sos_authorization_code : String
  pub sos_client_id : String
  pub sos_client_secret : String
  pub sos_oauth_redirect_uri : String
  pub productiv_auth_key : String
  pub productiv_auth_user : String
  pub acenda_client_id : String
  pub acenda_client_secret : String
  -- `_post_for_token`: none for a failed request, an error status, or a body that is no object
  pub post_for_token : String → Grant → Option Fields
  pub str_of : Json → String
  pub int_of_float : String → ℤ
  -- the transaction's commit is refused
  pub commit_fails : Bool

-- `_clean`, of a value that may be missing.
unfoldable pub clean : Env → Option Json → Option String
unfolding strip
clean env none = none
clean env (some null) = none
clean env (some (str s)) = or_none (strip s)
clean env (some v) = or_none (strip (env.str_of v))

-- `_clean` of a setting.
unfoldable pub clean_text : String → Option String
unfolding strip
clean_text s = or_none (strip s)

-- `value or default_seconds`, then `int`, with the default where that raises.
abbrev pub or_default : Option ℤ → ℤ → ℤ
or_default none d = d
or_default (some z) d = z

abbrev pub nonzero_or : ℤ → ℤ → ℤ
nonzero_or (pos ℕ.zero) d = d
nonzero_or z d = z

unfoldable pub expires_in : Env → Option Json → ℤ → ℤ
unfolding parse_int
expires_in env (some (num z)) d = nonzero_or z d
expires_in env (some (str s)) d = if is_empty s then d else or_default (parse_int s) d
expires_in env (some (bool true)) d = pos 1
expires_in env (some (float t)) d =
    (if str_eq t "0.0" || str_eq t "-0.0" then d else env.int_of_float t)
expires_in env _ d = d

-- `_expires_at_from_payload`
unfoldable pub expires_at_from_payload : Env → Fields → ℤ → ℤ
unfolding expires_in
expires_at_from_payload env payload d = env.now +ℤ expires_in env (get "expires_in" payload) d

pub record RefreshedToken : Type 0 where
  pub access_token : String
  pub refresh_token : Option String
  pub expires_at : ℤ
  pub token_type : Option String
  pub scope : Option String

abbrev pub with_access : Env → Fields → ℤ → Option String → Option RefreshedToken
with_access env payload d none = none
with_access env payload d (some t) = some (record {
  access_token = t;
  refresh_token = clean env (get "refresh_token" payload);
  expires_at = expires_at_from_payload env payload d;
  token_type = clean env (get "token_type" payload);
  scope = clean env (get "scope" payload);
})

-- `_as_refreshed_token`
unfoldable pub as_refreshed_token : Env → ℤ → Fields → Option RefreshedToken
as_refreshed_token env d payload =
    with_access env payload d (clean env (get "access_token" payload))

-- `_post_for_token`, then `_as_refreshed_token`.
abbrev pub exchange : Env → String → ℤ → Grant → Option RefreshedToken
exchange env provider d grant = elim (env.post_for_token provider grant) [
  | none ↦ none
  | some payload ↦ as_refreshed_token env d payload
]

-- The grant from the authorization code, where all four settings are there.
unfoldable pub code_exchange : Env → Option RefreshedToken
code_exchange env = elim (clean_text env.sos_authorization_code) [
  | none ↦ none
  | some auth_code ↦ elim (clean_text env.sos_client_id) [
    | none ↦ none
    | some client_id ↦ elim (clean_text env.sos_client_secret) [
      | none ↦ none
      | some secret ↦ elim (clean_text env.sos_oauth_redirect_uri) [
        | none ↦ none
        | some uri ↦
            exchange env "sos_inventory" (pos 3600) (code_grant client_id secret auth_code uri)
      ]
    ]
  ]
]

abbrev pub or_code_exchange : Env → Option RefreshedToken → Option RefreshedToken
or_code_exchange env (some t) = some t
or_code_exchange env none = code_exchange env

-- `_refresh_sos_token`, of the refresh token of the current record.
unfoldable pub refresh_sos_token : Env → Option String → Option RefreshedToken
unfolding code_exchange
refresh_sos_token env none = code_exchange env
refresh_sos_token env (some t) = elim (clean_text t) [
  | none ↦ code_exchange env
  | some token ↦
      or_code_exchange env (exchange env "sos_inventory" (pos 3600) (refresh_grant token))
]

-- `_refresh_productiv_token`
unfoldable pub refresh_productiv_token : Env → Option RefreshedToken
refresh_productiv_token env = elim (clean_text env.productiv_auth_key) [
  | none ↦ none
  | some key ↦ elim (clean_text env.productiv_auth_user) [
    | none ↦ none
    | some user ↦ exchange env "productiv" (pos 3600) (user_grant key user)
  ]
]

-- `_refresh_acenda_token`
unfoldable pub refresh_acenda_token : Env → Option RefreshedToken
refresh_acenda_token env = elim (clean_text env.acenda_client_id) [
  | none ↦ none
  | some client_id ↦ elim (clean_text env.acenda_client_secret) [
    | none ↦ none
    | some secret ↦ exchange env "acenda" (pos 300) (client_grant client_id secret)
  ]
]

-- `refresh_provider_token`; of the current record only the refresh token is read.
unfoldable pub refresh_provider_token : Env → String → Option String → Option RefreshedToken
unfolding refresh_sos_token refresh_productiv_token refresh_acenda_token
refresh_provider_token env provider current =
    if str_eq provider "sos_inventory"
    then refresh_sos_token env current
    else if str_eq provider "productiv"
    then refresh_productiv_token env
    else if str_eq provider "acenda"
    then refresh_acenda_token env
    else none

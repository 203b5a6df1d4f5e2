-- ===== src/Tokens/Tests.antt =====
-- Two containers that share the table of tokens.
use bokser_app.Prelude.{
  String, ◌≡◌, ◌≢◌, refl, true, false, Option, none, some, [], ◌∷◌, arith, eq_iff,
}
use bokser_app.Prelude.Int.{pos, ◌+ℤ◌}
use bokser_app.Json.{str, num, end, field, Fields, get as json_get}
use bokser_app.Dict.{lookup, insert}
use bokser_app.Tokens.Provider.{
  Env, Grant, refresh_grant, refresh_provider_token, refresh_sos_token, refresh_acenda_token,
  as_refreshed_token, clean, clean_text, strip, strip_left, strip_right, expires_at_from_payload,
  expires_in,
}
use bokser_app.Tokens.Store.{
  TokenRecord, Store, is_expired, get, upsert_auth_token, short_circuit,
  refresh_with_cross_container_lock, refresh_row, force_refresh, get_valid_access_token,
}
use bokser_app.Tokens.Store.Refresh.{Agrees, Settled, force_refresh-Settled}
use bokser_app.Tokens.Store.Frame.{SameAt, force_refresh-SameAt}
use bokser_app.Tokens.Store.Valid.{GoodToken, valid_token, second_container}

-- An endpoint that knows one refresh token.
abbrev answer : String → Grant → Option Fields
answer provider (refresh_grant t) =
    some (field "access_token" (str " new ") (field "expires_in" (num (pos 600)) end))
answer provider _ = none

abbrev noon : Env
noon = record {
  now = pos 1000;
  sos_authorization_code = "";
  sos_client_id = "id";
  sos_client_secret = "secret";
  sos_oauth_redirect_uri = "";
  productiv_auth_key = "";
  productiv_auth_user = "";
  acenda_client_id = "";
  acenda_client_secret = "";
  post_for_token = answer;
  str_of = λ _. "";
  int_of_float = λ _. pos 0;
  commit_fails = false;
}

abbrev stale : TokenRecord
stale = record {
  provider = "sos_inventory";
  access_token = "old";
  refresh_token = some "r1";
  expires_at = pos 1010;
}

-- The grant names no new refresh token, so the old one is kept.
abbrev renewed : TokenRecord
renewed = record stale { access_token = "new"; expires_at = pos 1600 }

abbrev before : Store
before = record { tokens = ("sos_inventory", stale) ∷ []; db = ("sos_inventory", stale) ∷ [] }

abbrev after : Store
after = record { tokens = ("sos_inventory", renewed) ∷ []; db = ("sos_inventory", renewed) ∷ [] }

before-Agrees : Agrees "sos_inventory" before
before-Agrees r h = h

refreshed :
    force_refresh noon "sos_inventory" (some "old") false (pos 60) before ≡ (some renewed, after)
unfolding force_refresh refresh_with_cross_container_lock refresh_row short_circuit is_expired get
    lookup insert upsert_auth_token refresh_provider_token refresh_sos_token as_refreshed_token
    clean clean_text strip strip_left strip_right expires_at_from_payload expires_in json_get ◌+ℤ◌
refreshed = refl

valid_again : (get_valid_access_token noon "sos_inventory" (pos 60) before).0 ≡ some "new"
unfolding get_valid_access_token force_refresh refresh_with_cross_container_lock refresh_row
    short_circuit is_expired get lookup insert upsert_auth_token refresh_provider_token
    refresh_sos_token as_refreshed_token clean clean_text strip strip_left strip_right
    expires_at_from_payload expires_in json_get ◌+ℤ◌
valid_again = refl

force_refresh-Settled_example :
    Settled "sos_inventory" (force_refresh noon "sos_inventory" (some "old") false (pos 60) before)
force_refresh-Settled_example =
    force_refresh-Settled noon "sos_inventory" (some "old") false (pos 60) before before-Agrees

other_provider : ◌≢◌ {A = String} "sos_inventory" "acenda"
other_provider = ground (arith, eq_iff "sos_inventory" "acenda")

force_refresh-SameAt_example :
    SameAt "acenda" before (force_refresh noon "sos_inventory" (some "old") false (pos 60) before).1
force_refresh-SameAt_example =
    force_refresh-SameAt noon "sos_inventory" "acenda" other_provider (some "old") false (pos 60)
      before

-- Acenda's settings are empty, so nothing can be had.
acenda_fails : (force_refresh noon "acenda" none true (pos 60) before).0 ≡ none
unfolding force_refresh refresh_with_cross_container_lock refresh_row short_circuit get lookup
    refresh_provider_token refresh_acenda_token clean_text strip strip_left strip_right
acenda_fails = refl

valid_token_example :
    GoodToken noon "sos_inventory"
      (pos 60)
      "new"
      (get_valid_access_token noon "sos_inventory" (pos 60) before).1
valid_token_example = valid_token noon "sos_inventory" (pos 60) before "new" valid_again

stale_cached : lookup "sos_inventory" before.tokens ≡ some stale
unfolding lookup
stale_cached = refl

renewed_live : is_expired (pos 1001) renewed.expires_at (pos 60) ≡ false
unfolding is_expired ◌+ℤ◌
renewed_live = refl

second_container_example :
    force_refresh
      (record noon { now = pos 1001 })
      "sos_inventory"
      (some "old")
      false
      (pos 60)
      (record { tokens = before.tokens; db = after.db })
    ≡ (
      some renewed,
      record { tokens = insert "sos_inventory" renewed before.tokens; db = after.db },
    )
second_container_example =
    second_container noon (record noon { now = pos 1001 }) "sos_inventory" (some "old") false false
      (pos 60) (pos 60) before after before.tokens renewed stale before-Agrees refreshed
      stale_cached refl renewed_live

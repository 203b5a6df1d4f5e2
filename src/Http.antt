-- ===== src/Http.antt =====
-- `AuthenticatedHttpClient` (src/integrations/_base_client/base_client.py): the retry loop of
-- `_request`, its delays, the rate limiter and the headers. Durations are milliseconds. What the
-- network and the auth strategy do at each attempt is an argument.
pub mod Loop
pub mod Once
pub mod Delay
pub mod Headers
mod Tests
use bokser_app.Prelude.{
  ℕ, zero, suc, ◌+◌, ◌-◌, ◌*◌, ◌^◌, ◌≤◌, String, ◌≡◌, Bool, true, false, not, ◌&&◌, ◌||◌, Option,
  none, some, List, [], ◌∷◌, any, leb, ltb, min, ◌==◌, str_eq, if◌then◌else◌,
}
use bokser_app.Prelude.Int.{ℤ, pos, negsuc, ◌≤ℤ◌, ltb_ℤ, ◌+ℤ◌}
use bokser_app.Dict.{Dict, lookup, insert}

pub record RetryConfig : Type 0 where
  pub max_attempts : ℕ
  pub base_delay : ℕ
  pub max_delay : ℕ
  pub jitter : ℕ
  pub retry_statuses : List ℕ
  pub unauthorized_statuses : List ℕ

-- A response: the status, the `Retry-After` header as a number, if it is one, and the text that
-- `_json_message` finds.
pub record Response : Type 0 where
  pub status : ℕ
  pub retry_after : Option ℤ
  pub message : String

-- One attempt: the headers cannot be had, the transport fails, or a response comes back.
pub data Reply : Type 0 where
  auth_error : Reply
  transport_error : Reply
  reply : Response → Reply

-- How `_request` ends.
pub data Result : Type 0 where
  returned : Response → Result
  raised : Result

abbrev pub is_in : List ℕ → ℕ → Bool
is_in statuses s = any (λ x. x == s) statuses

-- `_is_unauthorized`
abbrev pub is_unauthorized : RetryConfig → Response → Bool
is_unauthorized c r = is_in c.unauthorized_statuses r.status

-- `_should_retry`
abbrev pub should_retry : RetryConfig → Response → Bool
should_retry c r =
    is_in c.retry_statuses r.status
    || ((r.status == 200 || r.status == 400) && str_eq r.message "Throttle limit exceeded.")

-- The `while True` of `_request`, on fuel: `replies n` is what attempt n meets, `recovers` what
-- `handle_unauthorized` returns. The result, with the number of attempts made.
unfoldable pub request_loop : RetryConfig → (ℕ → Reply) → Bool → ℕ → ℕ → Bool → Option (Result × ℕ)
request_loop c replies recovers zero attempt recovered = none
request_loop c replies recovers (suc fuel) attempt recovered =
    let n = suc attempt in
    let again = request_loop c replies recovers fuel n recovered in
    let again_recovered = request_loop c replies recovers fuel n true in
    elim (replies n) [
      | auth_error ↦ some (raised, n)
      | transport_error ↦ if leb c.max_attempts n then some (raised, n) else again
      | reply r ↦
          if is_unauthorized c r && not recovered
          then if recovers then again_recovered else some (returned r, n)
          else if should_retry c r
          then if leb c.max_attempts n then some (returned r, n) else again
          else some (returned r, n)
    ]

-- Fuel for every attempt: one more than `max_attempts`, one for the recovery, one to spare.
unfoldable pub request : RetryConfig → (ℕ → Reply) → Bool → Option (Result × ℕ)
unfolding request_loop
request c replies recovers = request_loop c replies recovers (c.max_attempts + 3) 0 false

-- `_retry_delay`: attempt, `Retry-After`, and the random part, which is at most `jitter`.
abbrev pub min_ℤ : ℤ → ℤ → ℤ
min_ℤ a b = if ltb_ℤ b a then b else a

unfoldable pub retry_delay : RetryConfig → ℕ → Option ℤ → ℕ → ℤ
retry_delay c attempt (some after) random = min_ℤ after (pos c.max_delay)
retry_delay c attempt none random =
    pos (min c.max_delay (c.base_delay * 2 ^ (attempt - 1)) + random)

-- `AsyncRateLimiter.wait`: the time of the last call, the clock at the call, and the clock after the
-- sleep that is asked for. The new time of the last call, and the sleep.
unfoldable pub limiter_wait : ℕ → ℕ → ℕ → (ℕ → ℕ) → ℕ × ℕ
limiter_wait min_interval last now clock_after =
    if leb min_interval 0
    then (last, 0)
    else (let sleep_for = (min_interval + last) - now in (clock_after sleep_for, sleep_for))

-- `headers.update(other)`
unfoldable pub update_headers : Dict String → Dict String → Dict String
update_headers headers [] = headers
update_headers headers ((k, v) ∷ other) = update_headers (insert k v headers) other

-- `_merge_headers`, where no extra headers are an empty dict.
unfoldable pub merge_headers : Dict String → Dict String → Dict String → Dict String
unfolding update_headers
merge_headers base auth extra = update_headers (update_headers (update_headers [] base) auth) extra

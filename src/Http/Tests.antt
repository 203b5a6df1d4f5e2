-- ===== src/Http/Tests.antt =====
-- Requests that are retried, recovered and given up, and the waits between them.
use bokser_app.Prelude.{ℕ, zero, suc, ◌≤◌, ◌≡◌, String, refl, true, none, some, [], ◌∷◌}
use bokser_app.Prelude.Int.{pos}
use bokser_app.Dict.{Dict}
use bokser_app.Http.{
  RetryConfig, Response, Reply, transport_error, reply, Result, returned, request, request_loop,
  retry_delay,
}
use bokser_app.Http.Loop.{allowed, Explains, EachRepeatable, request-Ends}

abbrev three_attempts : RetryConfig
three_attempts = record {
  max_attempts = 3;
  base_delay = 500;
  max_delay = 5000;
  jitter = 250;
  retry_statuses = 408 ∷ 429 ∷ 500 ∷ 502 ∷ 503 ∷ 504 ∷ [];
  unauthorized_statuses = 401 ∷ [];
}

abbrev once : RetryConfig
once = record three_attempts { max_attempts = 1 }

abbrev with_status : ℕ → Response
with_status s = record { status = s; retry_after = none; message = "" }

-- A lost connection, a stale token, and then the answer.
abbrev rough_start : ℕ → Reply
rough_start (suc zero) = transport_error
rough_start (suc (suc zero)) = reply (with_status 401)
rough_start _ = reply (with_status 201)

rough_start_returns : request three_attempts rough_start true ≡ some (returned (with_status 201), 3)
unfolding request request_loop
rough_start_returns = refl

always_busy :
    request three_attempts (λ _. reply (with_status 503)) true
    ≡ some (returned (with_status 503), 3)
unfolding request request_loop
always_busy = refl

request-Ends_example :
    (res : Result) × (earlier : ℕ) × (request three_attempts rough_start true
      ≡ some (res, suc earlier))
    × (earlier ≤ allowed three_attempts)
    × Explains three_attempts (rough_start (suc earlier)) res
    × EachRepeatable three_attempts true rough_start earlier
request-Ends_example = request-Ends three_attempts rough_start true

second_wait : retry_delay three_attempts 2 none 17 ≡ pos 1017
unfolding retry_delay
second_wait = refl

abbrev accepts_json : Dict String
accepts_json = ("Accept", "application/json") ∷ []

abbrev bearer : Dict String
bearer = ("Authorization", "Bearer t") ∷ []

abbrev accepts_text : Dict String
accepts_text = ("Accept", "text/plain") ∷ []

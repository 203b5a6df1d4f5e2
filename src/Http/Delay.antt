-- ===== src/Http/Delay.antt =====
-- Bounds of the waits between attempts and between calls.
use bokser_app.Prelude.{ℕ, ◌+◌, ◌-◌, ◌≤◌, ◌<◌, Option, none, some, arith}
use bokser_app.Prelude.Int.{ℤ, pos, ◌≤ℤ◌}
use bokser_app.Http.{RetryConfig, retry_delay, limiter_wait}

-- A wait before a retry is never longer than the configured maximum and the jitter together, whatever
-- the attempt and whatever the server asks for in `Retry-After`.
pub retry_delay-le :
    (c : RetryConfig) (attempt : ℕ) (after : Option ℤ) (random : ℕ)
    → random ≤ c.jitter
    → retry_delay c attempt after random ≤ℤ pos (c.max_delay + c.jitter)
unfolding retry_delay
retry_delay-le c attempt none random h = omega arith
retry_delay-le c attempt (some after) random h = ground arith

-- Where a sleep takes at least the time asked for, a rate limiter lets two consecutive calls pass at
-- least its interval apart.
pub limiter_spacing :
    (min_interval last now : ℕ) (clock_after : ℕ → ℕ)
    → 0 < min_interval
    → ((sleep : ℕ) → now + sleep ≤ clock_after sleep)
    → last + min_interval ≤ (limiter_wait min_interval last now clock_after).0
unfolding limiter_wait
limiter_spacing min_interval last now clock_after on sleeps =
    ground (arith, sleeps ((min_interval + last) - now))

-- ===== src/Http/Once.antt =====
-- A client that allows one attempt.
use bokser_app.Prelude.{
  ℕ, suc, ◌+◌, ◌≤◌, ◌≡◌, refl, Bool, true, false, some, leb, arith, inl, inr, Bool-cases,
}
use bokser_app.Http.{
  RetryConfig, Reply, auth_error, transport_error, reply, Result, returned, raised, is_unauthorized,
  should_retry, request_loop, request,
}
use bokser_app.Http.Loop.{loop_auth, loop_transport, loop_reply}

-- The response is not an unauthorized one, if there is a response.
abbrev pub IsAuthorized : RetryConfig → Reply → Type 0
IsAuthorized c (reply r) = is_unauthorized c r ≡ false
IsAuthorized c _ = Unit

-- A client that allows one attempt, such as the one of the shipment posts, sends a request once and
-- never again, whatever happens to it, unless the very first response is an unauthorized one.
pub one_attempt :
    (c : RetryConfig) (replies : ℕ → Reply) (recovers : Bool)
    → c.max_attempts ≤ 1
    → IsAuthorized c (replies 1)
    → (res : Result) × (request c replies recovers ≡ some (res, 1))
unfolding request
one_attempt c replies recovers few authorized =
    let e : c.max_attempts + 3 ≡ suc (c.max_attempts + 2) = omega arith in
    rw e (first (replies 1) refl authorized)
  where
    full : leb c.max_attempts 1 ≡ true
    full = ground arith

    fuel : ℕ
    fuel = c.max_attempts + 2

    first :
        (p : Reply)
        → replies 1 ≡ p
        → IsAuthorized c p
        → (res : Result) × (request_loop c replies recovers (suc fuel) 0 false ≡ some (res, 1))
    first auth_error e a = (raised, loop_auth c replies recovers fuel 0 false e)
    first transport_error e a =
        (raised, rw (loop_transport c replies recovers fuel 0 false e) (rw full))
    first (reply r) e a = (
      returned r,
      rw (loop_reply c replies recovers fuel 0 false r e)
          (rw (a, full) (elim (Bool-cases (should_retry c r)) [ inl y ↦ rw y | inr n ↦ rw n ])),
    )

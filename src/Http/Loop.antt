-- ===== src/Http/Loop.antt =====
-- The retry loop ends, and makes no attempt that it has no reason for.
use bokser_app.Prelude.{
  ℕ, zero, suc, ◌+◌, ◌≤◌, ◌<◌, ◌≡◌, refl, Bool, true, false, not, ◌&&◌, Option, none, some, leb,
  ◌==◌, if◌then◌else◌, arith, ◌⊎◌, inl, inr, Bool-cases,
}
use bokser_app.Http.{
  RetryConfig, Response, Reply, auth_error, transport_error, reply, Result, returned, raised,
  is_unauthorized, should_retry, request_loop, request,
}

-- Attempts allowed: at least one is made whatever the configuration says.
abbrev pub allowed : RetryConfig → ℕ
allowed c = if c.max_attempts == 0 then 1 else c.max_attempts

-- An attempt that the loop may go on after.
abbrev pub IsRepeatable : RetryConfig → Bool → Reply → Type 0
IsRepeatable c recovers auth_error = ⊥
IsRepeatable c recovers transport_error = Unit
IsRepeatable c recovers (reply r) =
    (should_retry c r ≡ true) ⊎ ((is_unauthorized c r ≡ true) × (recovers ≡ true))

-- How the last attempt explains the result.
abbrev pub Explains : RetryConfig → Reply → Result → Type 0
Explains c (reply r) (returned r') = r ≡ r'
Explains c (reply r) raised = ⊥
Explains c _ (returned r') = ⊥
Explains c _ raised = Unit

-- What is shown of the loop from `attempt` attempts made.
abbrev Ends : RetryConfig → (ℕ → Reply) → Bool → ℕ → Option (Result × ℕ) → Type 0
Ends c replies recovers attempt none = ⊥
Ends c replies recovers attempt (some (res, n)) =
    (attempt < n)
    × (n ≤ allowed c + 1)
    × Explains c (replies n) res
    × ((i : ℕ) → attempt < i → i < n → IsRepeatable c recovers (replies i))

module _ (c : RetryConfig) (replies : ℕ → Reply) (recovers : Bool) where
  -- Attempts left before and after the one recovery.
  abbrev Room : ℕ → Bool → Type 0
  Room attempt recovered = (attempt + 1) ≤ (if recovered then allowed c + 1 else allowed c)

  one_more :
      (attempt : ℕ) (o : Option (Result × ℕ))
      → IsRepeatable c recovers (replies (suc attempt))
      → Ends c replies recovers (suc attempt) o
      → Ends c replies recovers attempt o
  one_more attempt none again e = e
  one_more attempt (some (res, n)) again e = (
    omega arith,
    e.1,
    e.2,
    λ i lo hi. elim (Bool-cases (i == suc attempt)) [
      | inl same ↦ (let p : i ≡ suc attempt = ground arith in rw p again)
      | inr other ↦ e.3 i (ground arith) hi
    ],
  )

  -- The loop stops here, with what the attempt gave.
  stop :
      (attempt : ℕ) (recovered : Bool) (res : Result)
      → Room attempt recovered
      → Explains c (replies (suc attempt)) res
      → Ends c replies recovers attempt (some (res, suc attempt))
  stop attempt recovered res r e = (omega arith, ground arith, e, λ i lo hi. absurd (omega arith))

  module _ (fuel attempt : ℕ) (recovered : Bool) where
    abbrev next : Bool → Option (Result × ℕ)
    next b = request_loop c replies recovers fuel (suc attempt) b

    abbrev whole : Option (Result × ℕ)
    whole = request_loop c replies recovers (suc fuel) attempt recovered

    pub loop_auth : replies (suc attempt) ≡ auth_error → whole ≡ some (raised, suc attempt)
    unfolding request_loop
    loop_auth e = rw (e, request_loop)

    pub loop_transport :
        replies (suc attempt) ≡ transport_error
        → whole ≡ (
            if leb c.max_attempts (suc attempt) then some (raised, suc attempt) else next recovered)
    unfolding request_loop
    loop_transport e = rw (e, request_loop)

    pub loop_reply :
        (r : Response)
        → replies (suc attempt) ≡ reply r
        → whole ≡ (
            if is_unauthorized c r && not recovered
            then if recovers then next true else some (returned r, suc attempt)
            else if should_retry c r
            then if leb c.max_attempts (suc attempt)
              then some (returned r, suc attempt)
              else next recovered
            else some (returned r, suc attempt))
    unfolding request_loop
    loop_reply r e = rw (e, request_loop)

    module _ (r : Room attempt recovered)
        (rest : (b : Bool)
          → Room (suc attempt) b
          → Ends c replies recovers (suc attempt) (next b)) where
      -- Another attempt, where the count allows it.
      go_on :
          leb c.max_attempts (suc attempt) ≡ false
          → IsRepeatable c recovers (replies (suc attempt))
          → Ends c replies recovers attempt (next recovered)
      go_on left again = one_more attempt (next recovered) again (rest recovered (ground arith))

      -- The one recovery, and its refusal.
      recover-Ends :
          (x : Response)
          → replies (suc attempt) ≡ reply x
          → (is_unauthorized c x && not recovered) ≡ true
          → Ends c replies recovers attempt (some (returned x, suc attempt))
          → (b : Bool) → recovers ≡ b
          → Ends c replies recovers attempt
              (if b then next true else some (returned x, suc attempt))
      recover-Ends x e un done true ok =
          one_more attempt (next true) (rw e (inr (ground arith, ok))) (rest true (ground arith))
      recover-Ends x e un done false refused = done

      reply-Ends :
          (x : Response) → replies (suc attempt) ≡ reply x → Ends c replies recovers attempt whole
      reply-Ends x e =
          let done : Ends c replies recovers attempt (some (returned x, suc attempt)) =
            stop attempt recovered (returned x) r (rw e refl) in
          rw (loop_reply x e) (elim (Bool-cases (is_unauthorized c x && not recovered)) [
            | inl un ↦ rw un (recover-Ends x e un done recovers refl)
            | inr other ↦ rw other (elim (Bool-cases (should_retry c x)) [
              | inl again ↦ rw again (elim (Bool-cases (leb c.max_attempts (suc attempt))) [
                | inl full ↦ rw full done
                | inr left ↦ rw left (go_on left (rw e (inl again)))
              ])
              | inr final ↦ rw final done
            ])
          ])

      attempt-Ends : (p : Reply) → replies (suc attempt) ≡ p → Ends c replies recovers attempt whole
      attempt-Ends auth_error e = rw (loop_auth e) (stop attempt recovered raised r (rw e tt))
      attempt-Ends transport_error e =
          rw (loop_transport e) (elim (Bool-cases (leb c.max_attempts (suc attempt))) [
            | inl full ↦ rw full (stop attempt recovered raised r (rw e tt))
            | inr left ↦ rw left (go_on left (rw e tt))
          ])
      attempt-Ends (reply x) e = reply-Ends x e

  loop-Ends :
      (fuel attempt : ℕ) (recovered : Bool)
      → Room attempt recovered
      → allowed c + 2 ≤ fuel + attempt
      → Ends c replies recovers attempt (request_loop c replies recovers fuel attempt recovered)
  loop-Ends zero attempt true r enough = absurd (omega arith)
  loop-Ends zero attempt false r enough = absurd (omega arith)
  loop-Ends (suc fuel) attempt recovered r enough =
      attempt-Ends fuel attempt recovered r
        (λ b room'. loop-Ends fuel (suc attempt) b room' (omega arith)) (replies (suc attempt)) refl

-- Attempts 1 to m are all repeatable.
abbrev pub EachRepeatable : RetryConfig → Bool → (ℕ → Reply) → ℕ → Type 0
EachRepeatable c recovers replies zero = Unit
EachRepeatable c recovers replies (suc m) =
    IsRepeatable c recovers (replies (suc m)) × EachRepeatable c recovers replies m

each_of_all :
    (c : RetryConfig) (recovers : Bool) (replies : ℕ → Reply) (m n : ℕ)
    → m < n
    → ((i : ℕ) → 0 < i → i < n → IsRepeatable c recovers (replies i))
    → EachRepeatable c recovers replies m
each_of_all c recovers replies zero n lt all = tt
each_of_all c recovers replies (suc m) n lt all =
    (all (suc m) (omega arith) lt, each_of_all c recovers replies m n (omega arith) all)

-- The retry loop always ends within its fuel. It makes at least one attempt, the last one, and at
-- most one more than the attempts allowed (`max_attempts`, or one where that is zero). The last
-- attempt explains the result: a returned response is the one it got, and an exception means that it
-- got none. Every earlier attempt failed in transport, got a response with a retryable status or the
-- throttle message, or got an unauthorized response while the strategy recovers from these.
pub request-Ends :
    (c : RetryConfig) (replies : ℕ → Reply) (recovers : Bool)
    → (res : Result) × (earlier : ℕ) × (request c replies recovers ≡ some (res, suc earlier))
      × (earlier ≤ allowed c)
      × Explains c (replies (suc earlier)) res
      × EachRepeatable c recovers replies earlier
unfolding request
request-Ends c replies recovers =
    ending (request_loop c replies recovers (c.max_attempts + 3) 0 false) refl
      (loop-Ends c replies recovers (c.max_attempts + 3) 0 false (ground arith) (ground arith))
  where
    ending :
        (o : Option (Result × ℕ))
        → request_loop c replies recovers (c.max_attempts + 3) 0 false ≡ o
        → Ends c replies recovers 0 o
        → (res : Result) × (earlier : ℕ) × (request_loop c replies recovers
              (c.max_attempts + 3)
              0
              false
            ≡ some (res, suc earlier))
          × (earlier ≤ allowed c)
          × Explains c (replies (suc earlier)) res
          × EachRepeatable c recovers replies earlier
    ending none eq e = absurd e
    ending (some (res, zero)) eq e = absurd (omega (arith, e.0))
    ending (some (res, suc m)) eq e = (
      res,
      m,
      eq,
      omega (arith, e.1),
      e.2,
      each_of_all c recovers replies m (suc m) (omega arith) e.3,
    )

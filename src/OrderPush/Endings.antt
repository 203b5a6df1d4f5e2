-- ===== src/OrderPush/Endings.antt =====
-- How the answers decide the end of a push.
use bokser_app.Prelude.{ℕ, zero, suc, String, ◌≡◌, refl, true, List, [], ◌∷◌, ap, inl, inr}
use bokser_app.OrderPush.{
  Response, accepted, duplicate_number, refused, unreadable, next_order_number, prefixed, last_try,
  SyncRow, Order, Outcome, done, rejected, broken, Ending, returned, post_error, other_error,
  recorded, post_loop,
}
use bokser_app.OrderPush.Numbers.{Response-cases, is_duplicate}

-- What the last answer makes of a push.
abbrev pub ending_of : Response → Ending
ending_of (accepted c) = returned
ending_of (duplicate_number e) = post_error
ending_of (refused e) = post_error
ending_of unreadable = other_error

-- The posts from the n-th on: all but the last are answered by a duplicate number, and the answer to
-- the last decides the ending.
abbrev pub Explained : (ℕ → String → Response) → ℕ → List String → Ending → Type 0
Explained answer n [] e = ⊥
Explained answer n (p ∷ []) e = ending_of (answer n p) ≡ e
Explained answer n (p ∷ q ∷ ps) e =
    (is_duplicate (answer n p) ≡ true) × Explained answer (suc n) (q ∷ ps) e

Explained-cons :
    (answer : ℕ → String → Response) (n : ℕ) (p : String) (ps : List String) (e : Ending)
    → is_duplicate (answer n p) ≡ true
    → Explained answer (suc n) ps e
    → Explained answer n (p ∷ ps) e
Explained-cons answer n p [] e d x = absurd x
Explained-cons answer n p (q ∷ ps) e d x = (d, x)

abbrev pub outcome_ending : Outcome → Ending
outcome_ending (done c) = returned
outcome_ending (rejected e) = post_error
outcome_ending broken = other_error

last_ending : (r : Response) → ending_of r ≡ outcome_ending (last_try r)
last_ending (accepted c) = refl
last_ending (duplicate_number e) = refl
last_ending (refused e) = refl
last_ending unreadable = refl

pub post_loop-Explained :
    (answer : ℕ → String → Response) (p fallback : String) (left n : ℕ) (number : String)
    → let o = post_loop answer p fallback left n number in
      Explained answer n o.0 (outcome_ending o.1)
unfolding post_loop
post_loop-Explained answer p fallback zero n number = last_ending (answer n (prefixed p fallback))
post_loop-Explained answer p fallback (suc left) n number =
    elim (Response-cases (answer n (prefixed p number))) [
      | inl (c, e) ↦ rw (e, post_loop) (ap ending_of e)
      | inr (inl (b, e)) ↦
          let o = post_loop answer p fallback left (suc n) (next_order_number number) in
          rw (e, post_loop)
            (Explained-cons answer n (prefixed p number) o.0 (outcome_ending o.1)
              (ap is_duplicate e)
              (post_loop-Explained answer p fallback left (suc n) (next_order_number number)))
      | inr (inr (inl (b, e))) ↦ rw (e, post_loop) (ap ending_of e)
      | inr (inr (inr e)) ↦ rw (e, post_loop) (ap ending_of e)
    ]

pub recorded-Explained :
    (answer : ℕ → String → Response) (now : ℕ) (source : String) (order : Order)
    (rows : List SyncRow) (o : List String × Outcome)
    → Explained answer 0 o.0 (outcome_ending o.1)
    → let r = recorded now source order rows o in Explained answer 0 r.posts r.ending
recorded-Explained answer now source order rows (posts, done c) x = x
recorded-Explained answer now source order rows (posts, rejected e) x = x
recorded-Explained answer now source order rows (posts, broken) x = x

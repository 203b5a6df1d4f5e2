-- ===== src/OrderPush/Numbers.antt =====
-- Which numbers are posted, and how many.
use bokser_app.Prelude.{
  ℕ, zero, suc, ◌+◌, ◌≤◌, ◌<◌, String, ◌≡◌, refl, Bool, true, false, List, [], ◌∷◌, length, arith,
  ◌⊎◌, inl, inr, subst, ap,
}
use bokser_app.OrderPush.{
  Created, Response, accepted, duplicate_number, refused, unreadable, returned, broken, SyncRow,
  Order, Outcome, done, rejected, next_order_number, prefixed, again, post_loop, record_success,
  recorded, post_and_record,
}

-- The number after so many duplicates.
unfoldable pub variant : ℕ → String → String
variant zero n = n
variant (suc k) n = variant k (next_order_number n)

-- The numbers of the first so many posts.
unfoldable pub variants : String → ℕ → String → List String
variants sos_prefix zero n = []
variants sos_prefix (suc k) n = prefixed sos_prefix n ∷ variants sos_prefix k (next_order_number n)

pub Response-cases :
    (r : Response)
    → ((c : Created) × (r ≡ accepted c))
      ⊎ (((e : String) × (r ≡ duplicate_number e))
          ⊎ (((e : String) × (r ≡ refused e)) ⊎ (r ≡ unreadable)))
Response-cases (accepted c) = inl (c, refl)
Response-cases (duplicate_number e) = inr (inl (e, refl))
Response-cases (refused e) = inr (inr (inl (e, refl)))
Response-cases unreadable = inr (inr (inr refl))

posts-le :
    (answer : ℕ → String → Response) (p fallback : String) (left n : ℕ) (number : String)
    → length (post_loop answer p fallback left n number).0 ≤ left + 1
unfolding post_loop
posts-le answer p fallback zero n number = omega arith
posts-le answer p fallback (suc left) n number =
    elim (Response-cases (answer n (prefixed p number))) [
      | inl (c, e) ↦ rw (e, post_loop) (omega arith)
      | inr (inl (b, e)) ↦
          rw (e, post_loop)
            (omega (arith, posts-le answer p fallback left (suc n) (next_order_number number)))
      | inr (inr (inl (b, e))) ↦ rw (e, post_loop) (omega arith)
      | inr (inr (inr e)) ↦ rw (e, post_loop) (omega arith)
    ]

abbrev pub is_duplicate : Response → Bool
is_duplicate (accepted c) = false
is_duplicate (duplicate_number e) = true
is_duplicate (refused e) = false
is_duplicate unreadable = false

duplicates-posted :
    (answer : ℕ → String → Response) (p fallback : String) (k left n : ℕ) (number : String)
    (c : Created)
    → k < left
    → ((i : ℕ) → i < k → is_duplicate (answer (n + i) (prefixed p (variant i number))) ≡ true)
    → answer (n + k) (prefixed p (variant k number)) ≡ accepted c
    → post_loop answer p fallback left n number ≡ (variants p (suc k) number, done c)
unfolding post_loop variant variants
duplicates-posted answer p fallback k zero n number c h dup ok = absurd (omega (arith, h))
duplicates-posted answer p fallback zero (suc left) n number c h dup ok =
    let e : n + 0 ≡ n = omega arith in
    let first : answer n (prefixed p number) ≡ accepted c = rw e at ok in rw (first, post_loop)
duplicates-posted answer p fallback (suc k) (suc left) n number c h dup ok =
    let zero_more : n + 0 ≡ n = omega arith in
    let shift : (i : ℕ) → n + suc i ≡ suc n + i = λ i. omega arith in
    let rest : post_loop answer p fallback left (suc n) (next_order_number number)
        ≡ (variants p (suc k) (next_order_number number), done c) =
      duplicates-posted answer p fallback k left (suc n) (next_order_number number) c
        (omega (arith, h))
        (λ i l.
          subst
            (λ (m : ℕ).
              is_duplicate (answer m (prefixed p (variant i (next_order_number number)))) ≡ true)
            (shift i) (dup (suc i) (omega (arith, l))))
        (subst
          (λ (m : ℕ). answer m (prefixed p (variant k (next_order_number number))) ≡ accepted c)
          (shift k) ok) in
    let first : is_duplicate (answer n (prefixed p number)) ≡ true =
      subst (λ (m : ℕ). is_duplicate (answer m (prefixed p number)) ≡ true) zero_more
        (dup 0 (omega arith)) in
    elim (Response-cases (answer n (prefixed p number))) [
      | inl (d, e) ↦ absurd (let no = rw e at first in cc)
      | inr (inl (b, e)) ↦ rw (e, post_loop) (ap (again (prefixed p number)) rest)
      | inr (inr (inl (b, e))) ↦ absurd (let no = rw e at first in cc)
      | inr (inr (inr e)) ↦ absurd (let no = rw e at first in cc)
    ]

posts_of :
    (now : ℕ) (source : String) (order : Order) (rows : List SyncRow) (o : List String × Outcome)
    → (recorded now source order rows o).posts ≡ o.0
posts_of now source order rows (posts, done c) = refl
posts_of now source order rows (posts, rejected e) = refl
posts_of now source order rows (posts, broken) = refl

-- A push posts at most twenty numbers and the fallback, whatever SOS answers.
pub few_posts :
    (answer : ℕ → String → Response) (now : ℕ) (p fallback source : String) (order : Order)
    (rows : List SyncRow)
    → length (post_and_record answer now p fallback source order rows).posts ≤ 21
unfolding post_and_record
few_posts answer now p fallback source order rows =
    rw (posts_of now source order rows (post_loop answer p fallback 20 0 order.number))
      (posts-le answer p fallback 20 0 order.number)

-- If SOS answers "duplicate number" to the order's number and to its next k - 1 variants, and accepts
-- the variant after those, with k below twenty, then the push has posted these k + 1 numbers and no
-- other, returns, and records the lines as sent: an order whose number is taken, by itself too, is
-- created under another one.
pub duplicates_renumbered :
    (answer : ℕ → String → Response) (now : ℕ) (p fallback source : String) (order : Order)
    (rows : List SyncRow) (k : ℕ) (c : Created)
    → k < 20
    → ((i : ℕ) → i < k → is_duplicate (answer i (prefixed p (variant i order.number))) ≡ true)
    → answer k (prefixed p (variant k order.number)) ≡ accepted c
    → post_and_record answer now p fallback source order rows ≡ record {
      posts = variants p (suc k) order.number;
      ending = returned;
      rows = record_success now source order.number order.lines c rows;
    }
unfolding post_and_record
duplicates_renumbered answer now p fallback source order rows k c h dup ok =
    let from_zero : (i : ℕ) → i ≡ 0 + i = λ i. omega arith in
    ap (recorded now source order rows) (
      duplicates-posted answer p fallback k 20 0 order.number c h
        (λ i l.
          subst (λ (m : ℕ). is_duplicate (answer m (prefixed p (variant i order.number))) ≡ true)
            (from_zero i) (dup i l))
        (subst (λ (m : ℕ). answer m (prefixed p (variant k order.number)) ≡ accepted c)
          (from_zero k) ok))

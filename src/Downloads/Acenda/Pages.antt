-- ===== src/Downloads/Acenda/Pages.antt =====
-- The pages of a list, fetched in any order, are the list.
use mathlib.Core.List.{Perm, Permᴰ, Perm-prop, perm_middle}
use mathlib.Core.List.Perm
use mathlib.Core.Logic.{∥∥₁_elim}
use native.Mathlib.Nat.{lt-div-mul-add}
use bokser_app.Prelude.{
  ℕ, zero, suc, ◌+◌, ◌-◌, ◌*◌, ◌≤◌, ◌≡◌, refl, sym, ap, ◌∙◌, subst, false, Option, some, List, [],
  ◌∷◌, ◌++◌, length, leb, arith, Bool-cases, inl, inr,
}
use bokser_app.Downloads.Acenda.{
  Record, listed, Payload, total_count, total_pages, later_pages, range, page_records, fetch_page,
  collect, with_pages, get_raw_acenda_data,
}

unfoldable pub take : ℕ → List Record → List Record
take zero xs = []
take (suc n) [] = []
take (suc n) (x ∷ xs) = x ∷ take n xs

unfoldable pub drop : ℕ → List Record → List Record
drop zero xs = xs
drop (suc n) [] = []
drop (suc n) (x ∷ xs) = drop n xs

-- A server's page of so many records, counted from 1, of a list that does not change meanwhile.
abbrev pub page : ℕ → List Record → ℕ → Option Payload
page size all p = some (record {
  errors = false;
  result = listed (take size (drop ((p - 1) * size) all));
  num_results = some (length all);
})

take-split : (m n : ℕ) (xs : List Record) → take m xs ++ take n (drop m xs) ≡ take (m + n) xs
unfolding take drop
take-split zero n xs = let e : 0 + n ≡ n = omega arith in rw e
take-split (suc m) n [] = let e : suc m + n ≡ suc (m + n) = omega arith in rw e (take-none n)
  where
    take-none : (k : ℕ) → take k [] ≡ []
    take-none zero = refl
    take-none (suc k) = refl
take-split (suc m) n (x ∷ xs) =
    let e : suc m + n ≡ suc (m + n) = omega arith in
    rw e (ap (λ (s : List Record). x ∷ s) (take-split m n xs))

drop-drop : (m n : ℕ) (xs : List Record) → drop m (drop n xs) ≡ drop (n + m) xs
unfolding drop
drop-drop m zero xs = let e : 0 + m ≡ m = omega arith in rw e
drop-drop m (suc n) [] = let e : suc n + m ≡ suc (n + m) = omega arith in rw e (drop-none m)
  where
    drop-none : (k : ℕ) → drop k [] ≡ []
    drop-none zero = refl
    drop-none (suc k) = refl
drop-drop m (suc n) (x ∷ xs) =
    let e : suc n + m ≡ suc (n + m) = omega arith in rw e (drop-drop m n xs)

take-all : (n : ℕ) (xs : List Record) → length xs ≤ n → take n xs ≡ xs
unfolding take
take-all zero [] h = refl
take-all zero (x ∷ xs) h = absurd (omega (arith, h))
take-all (suc n) [] h = refl
take-all (suc n) (x ∷ xs) h = ap (λ (s : List Record). x ∷ s) (take-all n xs (omega (arith, h)))

swap_blocks : (xs ys zs : List Record) → Perm (xs ++ (ys ++ zs)) (ys ++ (xs ++ zs))
swap_blocks [] ys zs = Perm.refl (ys ++ zs)
swap_blocks (x ∷ xs) ys zs =
    Perm.trans (Perm.cons x (swap_blocks xs ys zs)) (Perm.symm (perm_middle ys (xs ++ zs)))

-- The order in which the pages finish does not matter, but for the order of the records.
collect-perm :
    (answer : ℕ → Option Payload) {ps qs : List ℕ}
    → Permᴰ ps qs
    → Perm (collect answer ps) (collect answer qs)
unfolding collect
collect-perm answer Permᴰ.nil = Perm.refl []
collect-perm answer (Permᴰ.cons {a} {b} {l₁} {l₂} e d) =
    subst
      (λ (c : ℕ).
        Perm (collect answer (a ∷ l₁)) (page_records (fetch_page (answer c)) ++ collect answer l₂))
      e (Perm.append_left (page_records (fetch_page (answer a))) (collect-perm answer d))
collect-perm answer (Permᴰ.swap {a} {b} {a'} {b'} {l} e f) =
    subst (λ (c : ℕ). Perm (collect answer (a ∷ b ∷ l)) (collect answer (a' ∷ c ∷ l))) e
      (subst (λ (c : ℕ). Perm (collect answer (a ∷ b ∷ l)) (collect answer (c ∷ a ∷ l))) f
        (swap_blocks (page_records (fetch_page (answer a))) (page_records (fetch_page (answer b)))
          (collect answer l)))
collect-perm answer (Permᴰ.trans d e) = Perm.trans (collect-perm answer d) (collect-perm answer e)

-- So many pages from one on are the records from where that page begins.
collect-range :
    (size : ℕ) (all : List Record) (i n : ℕ)
    → collect (page size all) (range (suc i) n) ≡ take (n * size) (drop (i * size) all)
unfolding collect range take
collect-range size all i zero = let e : 0 * size ≡ 0 = omega arith in rw e
collect-range size all i (suc n) =
    let e : suc i - 1 ≡ i = omega arith in
    let s : suc n * size ≡ size + n * size = omega arith in
    let t : suc i * size ≡ i * size + size = omega arith in
    let rest : collect (page size all) (range (suc (suc i)) n)
        ≡ take (n * size) (drop size (drop (i * size) all)) =
      collect-range size all (suc i) n
      ∙ ap (λ (k : ℕ). take (n * size) (drop k all)) t
      ∙ ap (take (n * size)) (sym (drop-drop size (i * size) all)) in
    rw (e, s, rest) (take-split size (n * size) (drop (i * size) all))

-- The pages suffice, where the server's pages are at least as large as the ones that are counted.
pages-cover : (n m size : ℕ) → 1 ≤ m → m ≤ size → n ≤ total_pages n m * size
pages-cover n m size h le =
    let counted : n ≤ total_pages n m * m =
      omega (arith, h, lt-div-mul-add {a = n + m - 1} {b = m} (omega (arith, h))) in
    omega (arith, counted, larger (total_pages n m))
  where
    larger : (k : ℕ) → k * m ≤ k * size
    larger zero = omega arith
    larger (suc k) =
        let e : suc k * m ≡ m + k * m = omega arith in
        let e' : suc k * size ≡ size + k * size = omega arith in
        rw (e, e') (omega (arith, larger k, le))

enough : (p m n : ℕ) → n ≤ p * m → n ≤ m + (p - 1) * m
enough zero m n h = omega (arith, h)
enough (suc p) m n h =
    let e : suc p - 1 ≡ p = omega arith in
    let f : suc p * m ≡ m + p * m = omega arith in rw e (omega (arith, h, f))

-- As many records as the loop over the pages in ascending order collects.
ascending :
    (max_results size : ℕ) (all : List Record)
    → 1 ≤ max_results
    → max_results ≤ size
    → take size all ++ collect (page size all) (later_pages (length all) max_results) ≡ all
ascending max_results size all h le =
    let n = total_pages (length all) max_results - 1 in
    let e : 1 * size ≡ size = omega arith in
    rw (collect-range size all 1 n, e)
      (take-split size (n * size) all
        ∙ take-all (size + n * size) all (
            enough (total_pages (length all) max_results) size (length all)
              (pages-cover (length all) max_results size h le)))

-- The first answer's count, of all records.
total-length :
    (size : ℕ) (all : List Record)
    → total_count (some (length all)) (length (take size all)) ≡ length all
unfolding take
total-length zero [] = refl
total-length (suc n) [] = refl
total-length size (r ∷ all) = refl

read_pages :
    (max_results size : ℕ) (all : List Record) (finish : List ℕ → List ℕ)
    → get_raw_acenda_data max_results (page size all 1) (page size all) finish
      ≡ some (with_pages max_results (page size all) finish (take size all) (length all))
unfolding get_raw_acenda_data drop
read_pages max_results size all finish =
    let e : (1 - 1) * size ≡ 0 = omega arith in
    ap
      (λ (k : ℕ).
        let first = take size (drop k all) in
        some (
          with_pages max_results (page size all) finish first
            (total_count (some (length all)) (length first))))
      e
    ∙ ap (λ (k : ℕ). some (with_pages max_results (page size all) finish (take size all) k))
        (total-length size all)

-- If the list does not change during the download, every page is answered, the server's pages hold
-- `size` records, and the tasks finish in any order, then the download returns every record of the
-- list, as often as the list has it. The condition is that `size` is at least the `max_results` by
-- which the pages are counted: the requests do not name a size.
pub pages_complete :
    (max_results size : ℕ) (all : List Record) (finish : List ℕ → List ℕ)
    → 1 ≤ max_results
    → max_results ≤ size
    → ((ps : List ℕ) → Perm (finish ps) ps)
    → (rs : List Record) × (get_raw_acenda_data max_results (page size all 1) (page size all) finish
        ≡ some rs)
      × Perm rs all
pages_complete max_results size all finish h le p =
    let first = take size all in
    let later = later_pages (length all) max_results in
    (
      with_pages max_results (page size all) finish first (length all),
      read_pages max_results size all finish,
      elim (Bool-cases (leb (length all) max_results)) [
        | inl one ↦ rw one (
            subst (λ (l : List Record). Perm l all)
              (sym (take-all size all (ground (arith, one, le)))) (Perm.refl all))
        | inr more ↦ rw more (
            subst (Perm (first ++ collect (page size all) (finish later)))
              (ascending max_results size all h le)
              (Perm.append_left first
                (∥∥₁_elim (p later) Perm-prop (collect-perm (page size all)))))
      ],
    )

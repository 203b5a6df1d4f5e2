-- ===== src/Downloads/Acenda/Failures.antt =====
-- A page that fails, and one that is empty.
use bokser_app.Prelude.{
  ℕ, ◌≡◌, refl, ap, false, Option, none, some, List, [], ◌∷◌, ◌++◌, length, leb, if◌then◌else◌,
}
use bokser_app.Downloads.Acenda.{
  Record, total_count, later_pages, listed, Payload, page_records, fetch_page, first_page, collect,
  extract_records, get_raw_acenda_data,
}

abbrev pub empty_page : Payload
empty_page = record { errors = false; result = listed []; num_results = some 0 }

abbrev or_empty : Option (List Record) → Option Payload → Option Payload
or_empty none p = some empty_page
or_empty (some rs) p = p

-- Every page that raises, by its request or by its payload, is answered with no record instead.
abbrev pub without_failures : (ℕ → Option Payload) → ℕ → Option Payload
without_failures answer n = or_empty (fetch_page (answer n)) (answer n)

same_records :
    (o : Option (List Record)) (p : Option Payload)
    → fetch_page p ≡ o
    → page_records o ≡ page_records (fetch_page (or_empty o p))
unfolding extract_records
same_records none p e = refl
same_records (some rs) p e = rw e

collect_same :
    (answer : ℕ → Option Payload) (order : List ℕ)
    → collect answer order ≡ collect (without_failures answer) order
unfolding collect
collect_same answer [] = refl
collect_same answer (n ∷ order) =
    rw (same_records (fetch_page (answer n)) (answer n) refl, collect_same answer order)

-- A download in which pages from the second on fail returns what it returns when they are empty: the
-- caller cannot tell the two apart.
pub failed_pages_unnoticed :
    (max_results : ℕ) (first : Option Payload) (answer : ℕ → Option Payload)
    (finish : List ℕ → List ℕ)
    → get_raw_acenda_data max_results first answer finish
      ≡ get_raw_acenda_data max_results first (without_failures answer) finish
unfolding get_raw_acenda_data
failed_pages_unnoticed max_results none answer finish = refl
failed_pages_unnoticed max_results (some p) answer finish = first_same (extract_records p)
  where
    first_same :
        (o : Option (List Record))
        → first_page max_results p.num_results answer finish o
          ≡ first_page max_results p.num_results (without_failures answer) finish o
    first_same none = refl
    first_same (some rs) =
        let total = total_count p.num_results (length rs) in
        ap (λ (l : List Record). some (if leb total max_results then rs else rs ++ l))
          (collect_same answer (finish (later_pages total max_results)))

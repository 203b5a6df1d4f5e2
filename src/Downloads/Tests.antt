-- ===== src/Downloads/Tests.antt =====
-- Five records in pages of two, and a job that stops before the state is stored.
use mathlib.Core.List.{Perm}
use mathlib.Core.List.Perm
use bokser_app.Prelude.{
  ℕ, ◌≡◌, refl, true, Option, none, some, List, [], ◌∷◌, arith, ◌==◌, if◌then◌else◌,
}
use bokser_app.Dict.{lookup}
use bokser_app.Downloads.Acenda.{Record, Payload, get_raw_acenda_data}
use bokser_app.Downloads.Acenda.Pages.{take, drop, page, pages_complete}
use bokser_app.Downloads.Acenda.Failures.{without_failures, failed_pages_unnoticed}
use bokser_app.Downloads.Sync.{Lake, Fetched, Stop, finished, at_update, sync_endpoints_job}
use bokser_app.Downloads.Sync.Cursor.{backed, sync_endpoints_job-backed}

abbrev one : Record
one = record { id = "a"; updated_at = some "2024-01-01" }

abbrev two : Record
two = record { id = "b"; updated_at = some "2024-01-02" }

abbrev three : Record
three = record { id = "c"; updated_at = none }

abbrev four : Record
four = record { id = "d"; updated_at = some "2024-01-04" }

abbrev five : Record
five = record { id = "e"; updated_at = some "2024-01-05" }

abbrev all : List Record
all = one ∷ two ∷ three ∷ four ∷ five ∷ []

-- The second of the tasks finishes before the first.
abbrev second_first : List ℕ → List ℕ
second_first [] = []
second_first (p ∷ []) = p ∷ []
second_first (p ∷ q ∷ ps) = q ∷ p ∷ ps

second_first-perm : (ps : List ℕ) → Perm (second_first ps) ps
second_first-perm [] = Perm.refl []
second_first-perm (p ∷ []) = Perm.refl (p ∷ [])
second_first-perm (p ∷ q ∷ ps) = Perm.swap p q ps

fetched_run :
    get_raw_acenda_data 2 (page 2 all 1) (page 2 all) second_first
    ≡ some (one ∷ two ∷ five ∷ three ∷ four ∷ [])
unfolding get_raw_acenda_data take drop
fetched_run = refl

pages_complete_example :
    (rs : List Record) × (get_raw_acenda_data 2 (page 2 all 1) (page 2 all) second_first ≡ some rs)
    × Perm rs all
pages_complete_example =
    pages_complete 2 2 all second_first (omega arith) (omega arith) second_first-perm

-- The second page fails: its records are lost, and the cursor is that of the third.
abbrev second_fails : ℕ → Option Payload
second_fails n = if n == 2 then none else page 2 all n

failed_pages_unnoticed_example :
    get_raw_acenda_data 2 (page 2 all 1) second_fails second_first
    ≡ get_raw_acenda_data 2 (page 2 all 1) (without_failures second_fails) second_first
failed_pages_unnoticed_example = failed_pages_unnoticed 2 (page 2 all 1) second_fails second_first

abbrev results : List (Fetched × Stop)
results =
    (record { endpoint = "acenda_orders"; records = some (one ∷ two ∷ five ∷ []) }, finished)
    ∷ (record { endpoint = "acenda_returns"; records = some (four ∷ []) }, at_update)
    ∷ []

abbrev no_lake : Lake
no_lake = record { files = []; cursors = [] }

cursor_run : lookup "acenda_orders" (sync_endpoints_job results no_lake).cursors ≡ some "2024-01-05"
unfolding sync_endpoints_job lookup
cursor_run = refl

sync_endpoints_job-backed_example :
    backed "acenda_orders"
      (lookup "acenda_orders" (sync_endpoints_job results no_lake).cursors)
      (sync_endpoints_job results no_lake).files
    ≡ true
unfolding lookup
sync_endpoints_job-backed_example = sync_endpoints_job-backed "acenda_orders" results no_lake refl

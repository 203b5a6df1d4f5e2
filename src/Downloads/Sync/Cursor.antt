-- ===== src/Downloads/Sync/Cursor.antt =====
-- A cursor is never ahead of what landed.
use bokser_app.Prelude.{
  String, ◌≡◌, refl, Bool, true, false, ◌&&◌, ◌||◌, Option, none, some, List, [], ◌∷◌, any, arith,
  str_eq, eq_iff, if◌then◌else◌, ap, subst, inl, inr, Bool-cases, Option-cases,
}
use text.Mathlib.Text.{is_le}
use Prim.Native.String.{compare}
use bokser_app.Dict.{lookup, lookup-insert}
use bokser_app.Downloads.Acenda.{Record, max_text, max_of, dates, get_max_date_value}
use bokser_app.Downloads.Sync.{
  Landed, Lake, Fetched, Stop, finished, at_write, at_commit, at_update, move_cursor,
  update_state_file, land, turn, sync_one, sync_endpoints_job,
}

abbrev pub is_date : String → Option String → Bool
is_date c none = false
is_date c (some d) = str_eq d c

abbrev pub has_date : String → Record → Bool
has_date c r = is_date c r.updated_at

abbrev pub from_endpoint : String → String → Landed → Bool
from_endpoint endpoint c f = str_eq f.endpoint endpoint && any (has_date c) f.records

-- A file of the endpoint landed with a record of that date.
abbrev pub is_landed : String → String → List Landed → Bool
is_landed endpoint c files = any (from_endpoint endpoint c) files

-- What the cursor of an endpoint, if it has one, was read from.
abbrev pub backed : String → Option String → List Landed → Bool
backed endpoint none files = true
backed endpoint (some c) files = is_landed endpoint c files

max_text-cons :
    (b : Bool) (s t : String) (ts : List String)
    → ((u : String) → any (λ (d : String). str_eq d (max_text u ts)) (u ∷ ts) ≡ true)
    → any (λ (d : String). str_eq d (max_text (if b then s else t) ts)) (s ∷ t ∷ ts) ≡ true
max_text-cons true s t ts h = ground (arith, h s)
max_text-cons false s t ts h = ground (arith, h t)

max_text-among :
    (s : String) (ts : List String) → any (λ (d : String). str_eq d (max_text s ts)) (s ∷ ts) ≡ true
unfolding max_text
max_text-among s [] = ground (arith, eq_iff s s)
max_text-among s (t ∷ ts) = max_text-cons (is_le (compare t s)) s t ts (λ u. max_text-among u ts)

dates-any :
    (c : String) (rs : List Record)
    → any (λ (d : String). str_eq d c) (dates rs) ≡ any (has_date c) rs
unfolding dates
dates-any c [] = refl
dates-any c (r ∷ rs) = elim (Option-cases r.updated_at) [
  | inl never ↦ rw (never, dates) (dates-any c rs)
  | inr (d, e) ↦ rw (e, dates) (ap (λ (b : Bool). str_eq d c || b) (dates-any c rs))
]

max_of-among :
    (ds : List String) (c : String)
    → max_of ds ≡ some c
    → any (λ (d : String). str_eq d c) ds ≡ true
max_of-among [] c h = absurd (cc)
max_of-among (s ∷ ts) c h =
    let e : max_text s ts ≡ c = cc in
    subst (λ (m : String). any (λ (d : String). str_eq d m) (s ∷ ts) ≡ true) e (max_text-among s ts)

newest-has_date :
    (rs : List Record) (c : String) → get_max_date_value rs ≡ some c → any (has_date c) rs ≡ true
unfolding get_max_date_value
newest-has_date rs c h = rw (← dates-any c rs) (max_of-among (dates rs) c h)

-- The cursors of a lake, each backed.
abbrev Kept : String → Lake → Type 0
Kept j lake = backed j (lookup j lake.cursors) lake.files ≡ true

land-Kept :
    (j endpoint : String) (rs : List Record) (lake : Lake)
    → Kept j lake
    → Kept j (land endpoint rs lake)
land-Kept j endpoint rs lake h = at_cursor (lookup j lake.cursors) h
  where
    at_cursor :
        (o : Option String)
        → backed j o lake.files ≡ true
        → backed j o (land endpoint rs lake).files ≡ true
    at_cursor none k = refl
    at_cursor (some c) k = ground (arith, k)

move-Kept :
    (j endpoint : String) (rs : List Record) (o : Option String) (lake : Lake)
    → get_max_date_value rs ≡ o
    → Kept j (land endpoint rs lake)
    → Kept j (move_cursor endpoint o (land endpoint rs lake))
move-Kept j endpoint rs none lake e h = h
move-Kept j endpoint rs (some c) lake e h = elim (Bool-cases (str_eq endpoint j)) [
  | inl same ↦
      rw (lookup-insert endpoint j c lake.cursors, same)
        (ground (arith, same, newest-has_date rs c e))
  | inr apart ↦ rw (lookup-insert endpoint j c lake.cursors, apart) h
]

turn-Kept :
    (j endpoint : String) (rs : List Record) (stop : Stop) (lake : Lake)
    → Kept j lake
    → Kept j (turn endpoint rs stop lake).1
unfolding update_state_file get_max_date_value dates
turn-Kept j endpoint [] at_update lake h = h
turn-Kept j endpoint [] _ lake h = h
turn-Kept j endpoint (r ∷ rs) finished lake h =
    move-Kept j endpoint (r ∷ rs) (get_max_date_value (r ∷ rs)) lake refl
      (land-Kept j endpoint (r ∷ rs) lake h)
turn-Kept j endpoint (r ∷ rs) at_write lake h = h
turn-Kept j endpoint (r ∷ rs) at_commit lake h = h
turn-Kept j endpoint (r ∷ rs) at_update lake h = land-Kept j endpoint (r ∷ rs) lake h

sync-Kept :
    (j : String) (f : Fetched) (stop : Stop) (lake : Lake)
    → Kept j lake
    → Kept j (sync_one f stop lake).1
unfolding sync_one
sync-Kept j f stop lake h = elim (Option-cases f.records) [
  | inl failed ↦ rw failed h
  | inr (rs, e) ↦ rw e (turn-Kept j f.endpoint rs stop lake h)
]

-- Whatever the endpoints answer and wherever the job stops: if every cursor is the date of a record of
-- its endpoint in a landed file, or missing, then the same holds after the job, so a crash never
-- leaves a cursor ahead of what landed.
pub sync_endpoints_job-backed :
    (endpoint : String) (results : List (Fetched × Stop)) (lake : Lake)
    → backed endpoint (lookup endpoint lake.cursors) lake.files ≡ true
    → backed endpoint
        (lookup endpoint (sync_endpoints_job results lake).cursors)
        (sync_endpoints_job results lake).files
      ≡ true
unfolding sync_endpoints_job
sync_endpoints_job-backed j [] lake h = h
sync_endpoints_job-backed j ((f, stop) ∷ rest) lake h =
    let after = sync-Kept j f stop lake h in
    next (sync_one f stop lake).0 after
      (sync_endpoints_job-backed j rest (sync_one f stop lake).1 after)
  where
    next :
        (b : Bool)
        → Kept j (sync_one f stop lake).1
        → Kept j (sync_endpoints_job rest (sync_one f stop lake).1)
        → Kept j (elim b [
          | true ↦ sync_endpoints_job rest (sync_one f stop lake).1
          | false ↦ (sync_one f stop lake).1
        ])
    next true after more = more
    next false after more = after

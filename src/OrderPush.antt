-- ===== src/OrderPush.antt =====
-- The push of Acenda orders to SOS: `post_and_record` and the rows of `sales_order_sync`
-- (src/worker/jobs/push_data/sos/push_to_sos.py), for the marketplace prefix, the one that it is called
-- with. What SOS answers to the posts is an argument, and so is the number that the clock gives.
pub mod Numbers
pub mod Endings
pub mod Rows
pub mod Open
mod Tests
use bokser_app.Prelude.{
  ℕ, zero, suc, ◌+◌, String, Bool, true, false, ◌&&◌, Option, none, some, List, [], ◌∷◌, ◌++◌,
  str_eq, if◌then◌else◌,
}
use Prim.Native.String.{◌++◌ as str_append}
use bokser_app.Dict.{Dict, lookup}

-- The data of an accepted order: its id, and the id of each of its lines by `str(lineNumber)`.
pub record Created : Type 0 where
  pub order_id : Option ℕ
  pub line_map : Dict (Option ℕ)

-- Status 200; 400 with the message of a duplicate number; any other answer. The last two carry the
-- body. `unreadable` is a post that raises, or an answer whose body raises where the code reads it.
pub data Response : Type 0 where
  accepted : Created → Response
  duplicate_number : String → Response
  refused : String → Response
  unreadable : Response

pub data SyncStatus : Type 0 where
  pending sent failed : SyncStatus

pub record SyncRow : Type 0 where
  pub source : String
  pub source_header_key : String
  pub source_line_key : String
  pub payload_hash : Option String
  pub status : SyncStatus
  pub attempts : ℕ
  pub last_error : Option String
  pub sos_order_id : Option ℕ
  pub sos_line_id : Option ℕ
  pub last_sent_at : Option ℕ

pub record Line : Type 0 where
  pub id : String
  pub line_number : Option String

pub record Order : Type 0 where
  pub number : String
  pub lines : List Line

-- `_next_order_number` with a number given, for the marketplace prefix.
abbrev pub next_order_number : String → String
next_order_number n = str_append n ".1"

abbrev pub prefixed : String → String → String
prefixed sos_prefix n = str_append sos_prefix (str_append "-" n)

-- How the posts end; `broken` is an exception other than `SosPostError`.
pub data Outcome : Type 0 where
  done : Created → Outcome
  rejected : String → Outcome
  broken : Outcome

-- The fallback, which is tried once: a duplicate number is a failure here.
abbrev pub last_try : Response → Outcome
last_try (accepted c) = done c
last_try (duplicate_number e) = rejected e
last_try (refused e) = rejected e
last_try unreadable = broken

abbrev pub again : String → List String × Outcome → List String × Outcome
again number (posts, outcome) = (number ∷ posts, outcome)

-- The loop with so many attempts left, and the fallback. The numbers that are posted are listed,
-- the first one first; `answer n number` is the answer to the post after n posts.
unfoldable pub post_loop :
    (ℕ → String → Response) → String → String → ℕ → ℕ → String → List String × Outcome
post_loop answer sos_prefix fallback zero n number =
    (prefixed sos_prefix fallback ∷ [], last_try (answer n (prefixed sos_prefix fallback)))
post_loop answer sos_prefix fallback (suc left) n number =
    elim (answer n (prefixed sos_prefix number)) [
      | accepted c ↦ (prefixed sos_prefix number ∷ [], done c)
      | duplicate_number e ↦
          again (prefixed sos_prefix number)
            (post_loop answer sos_prefix fallback left (suc n) (next_order_number number))
      | refused e ↦ (prefixed sos_prefix number ∷ [], rejected e)
      | unreadable ↦ (prefixed sos_prefix number ∷ [], broken)
    ]

abbrev pub has_key : String → String → SyncRow → Bool
has_key source line_key r = str_eq r.source source && str_eq r.source_line_key line_key

-- `_build_sync_row`
abbrev pub build_sync_row : String → String → String → SyncRow
build_sync_row source header_key line_key = record {
  source = source;
  source_header_key = header_key;
  source_line_key = line_key;
  payload_hash = none;
  status = pending;
  attempts = 0;
  last_error = none;
  sos_order_id = none;
  sos_line_id = none;
  last_sent_at = none;
}

-- `_get_or_create_sync`, and a change of the row that it returns.
unfoldable pub change_sync :
    String → String → String → (SyncRow → SyncRow) → List SyncRow → List SyncRow
change_sync source header_key line_key f [] = f (build_sync_row source header_key line_key) ∷ []
change_sync source header_key line_key f (r ∷ rows) =
    if has_key source line_key r
    then f r ∷ rows
    else r ∷ change_sync source header_key line_key f rows

abbrev pub line_id : Dict (Option ℕ) → Option String → Option ℕ
line_id line_map none = none
line_id line_map (some n) = elim (lookup n line_map) [ none ↦ none | some i ↦ i ]

abbrev pub mark_sent : ℕ → Created → Line → SyncRow → SyncRow
mark_sent now c line r = record r {
  status = sent;
  attempts = suc r.attempts;
  last_error = none;
  sos_order_id = c.order_id;
  sos_line_id = line_id c.line_map line.line_number;
  last_sent_at = some now;
}

abbrev pub mark_failed : String → SyncRow → SyncRow
mark_failed error r = record r {
  status = failed;
  attempts = suc r.attempts;
  last_error = some error;
}

-- The loop of `_record_success` and of `_record_failure`.
unfoldable pub record_lines :
    String → String → (Line → SyncRow → SyncRow) → List Line → List SyncRow → List SyncRow
unfolding change_sync lookup
record_lines source header_key mark [] rows = rows
record_lines source header_key mark (line ∷ lines) rows =
    record_lines source header_key mark lines
      (change_sync source header_key line.id (mark line) rows)

abbrev pub record_success : ℕ → String → String → List Line → Created → List SyncRow → List SyncRow
record_success now source header_key lines c rows =
    record_lines source header_key (mark_sent now c) lines rows

abbrev pub record_failure : String → String → List Line → String → List SyncRow → List SyncRow
record_failure source header_key lines error rows =
    record_lines source header_key (λ line. mark_failed error) lines rows

-- A push returns, raises `SosPostError`, or lets another exception through.
pub data Ending : Type 0 where
  returned post_error other_error : Ending

-- What a push comes to: the numbers posted, how it ends, and the rows.
pub record Pushed : Type 0 where
  pub posts : List String
  pub ending : Ending
  pub rows : List SyncRow

abbrev pub recorded : ℕ → String → Order → List SyncRow → List String × Outcome → Pushed
recorded now source order rows (posts, done c) = record {
  posts = posts;
  ending = returned;
  rows = record_success now source order.number order.lines c rows;
}
recorded now source order rows (posts, rejected e) = record {
  posts = posts;
  ending = post_error;
  rows = record_failure source order.number order.lines e rows;
}
recorded now source order rows (posts, broken) = record {
  posts = posts;
  ending = other_error;
  rows = rows;
}

-- `post_and_record`
unfoldable pub post_and_record :
    (ℕ → String → Response) → ℕ → String → String → String → Order → List SyncRow → Pushed
unfolding post_loop record_lines
post_and_record answer now sos_prefix fallback source order rows =
    recorded now source order rows (post_loop answer sos_prefix fallback 20 0 order.number)

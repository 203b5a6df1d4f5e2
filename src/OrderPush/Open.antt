-- ===== src/OrderPush/Open.antt =====
-- Which lines a run of `send_to_sos` takes up: `load_open_acenda_db_orders` and `_upsert_sync_rows`
-- (src/worker/jobs/push_data/sos/push_to_sos.py), and that no line is taken up twice.
use bokser_app.Prelude.{
  ℕ, String, ◌≡◌, refl, Bool, true, false, not, ◌&&◌, Option, none, some, List, [], ◌∷◌, any, All,
  filter_b, arith, str_eq, eq_iff, if◌then◌else◌, inl, inr, Bool-cases,
}
use bokser_app.OrderPush.{
  Response, SyncRow, Line, Order, Outcome, done, rejected, broken, has_key, build_sync_row,
  change_sync, mark_sent, mark_failed, record_lines, recorded, post_loop, post_and_record,
}

-- An Acenda order line, and whether its order is recent enough and of the channel.
pub record Item : Type 0 where
  pub id : String
  pub wanted : Bool

-- The lines that `load_open_acenda_db_orders` returns: those without a row.
abbrev pub is_open : String → List SyncRow → Item → Bool
is_open source rows i = i.wanted && not (any (has_key source i.id) rows)

unfoldable pub load_open : String → List SyncRow → List Item → List Item
unfolding filter_b
load_open source rows items = filter_b (is_open source rows) items

-- A row of `send_to_sos` for a line, with the hash of its payload.
abbrev pub pending_row : String → String → (Line → String) → Line → SyncRow
pending_row source header hash line = record (build_sync_row source header line.id) {
  payload_hash = some (hash line);
}

-- `if row.payload_hash: existing.payload_hash = row.payload_hash`
abbrev pub newer_hash : Option String → Option String → Option String
newer_hash none old = old
newer_hash (some h) old = if str_eq h "" then old else some h

abbrev pub take_over : SyncRow → SyncRow → SyncRow
take_over new r = record r {
  status = new.status;
  last_error = new.last_error;
  payload_hash = newer_hash new.payload_hash r.payload_hash;
}

unfoldable pub upsert_sync_row : SyncRow → List SyncRow → List SyncRow
upsert_sync_row new [] = new ∷ []
upsert_sync_row new (r ∷ rows) =
    if has_key new.source new.source_line_key r
    then take_over new r ∷ rows
    else r ∷ upsert_sync_row new rows

-- `_upsert_sync_rows`, for the lines of an order.
unfoldable pub upsert_sync_rows :
    String → String → (Line → String) → List Line → List SyncRow → List SyncRow
unfolding upsert_sync_row
upsert_sync_rows source header hash [] rows = rows
upsert_sync_rows source header hash (l ∷ lines) rows =
    upsert_sync_rows source header hash lines
      (upsert_sync_row (pending_row source header hash l) rows)

module _ (s : String) (key : String) where
  upsert_keeps :
      (new : SyncRow) (rows : List SyncRow)
      → any (has_key s key) rows ≡ true
      → any (has_key s key) (upsert_sync_row new rows) ≡ true
  unfolding upsert_sync_row
  upsert_keeps new [] h = cc
  upsert_keeps new (r ∷ rows) h = ground (arith, upsert_keeps new rows)

  upserts_keep :
      (source header : String) (hash : Line → String) (lines : List Line) (rows : List SyncRow)
      → any (has_key s key) rows ≡ true
      → any (has_key s key) (upsert_sync_rows source header hash lines rows) ≡ true
  unfolding upsert_sync_rows
  upserts_keep source header hash [] rows h = h
  upserts_keep source header hash (l ∷ lines) rows h =
      upserts_keep source header hash lines _
        (upsert_keeps (pending_row source header hash l) rows h)

  change_keeps :
      (source header k : String) (f : SyncRow → SyncRow) (rows : List SyncRow)
      → ((r : SyncRow) → has_key s key (f r) ≡ has_key s key r)
      → any (has_key s key) rows ≡ true
      → any (has_key s key) (change_sync source header k f rows) ≡ true
  unfolding change_sync
  change_keeps source header k f [] same h = cc
  change_keeps source header k f (r ∷ rows) same h =
      ground (arith, same r, change_keeps source header k f rows same)

  all_lines_keep :
      (source header : String) (mark : Line → SyncRow → SyncRow) (lines : List Line)
      (rows : List SyncRow)
      → ((l : Line) (r : SyncRow) → has_key s key (mark l r) ≡ has_key s key r)
      → any (has_key s key) rows ≡ true
      → any (has_key s key) (record_lines source header mark lines rows) ≡ true
  unfolding record_lines
  all_lines_keep source header mark [] rows same h = h
  all_lines_keep source header mark (l ∷ lines) rows same h =
      all_lines_keep source header mark lines _ same
        (change_keeps source header l.id (mark l) rows (same l) h)

  push_keeps :
      (now : ℕ) (source : String) (order : Order) (rows : List SyncRow) (o : List String × Outcome)
      → any (has_key s key) rows ≡ true
      → any (has_key s key) (recorded now source order rows o).rows ≡ true
  push_keeps now source order rows (posts, done c) h =
      all_lines_keep source order.number (mark_sent now c) order.lines rows (λ l r. refl) h
  push_keeps now source order rows (posts, rejected e) h =
      all_lines_keep source order.number (λ l. mark_failed e) order.lines rows (λ l r. refl) h
  push_keeps now source order rows (posts, broken) h = h

upsert_adds :
    (new : SyncRow) (rows : List SyncRow)
    → any (has_key new.source new.source_line_key) (upsert_sync_row new rows) ≡ true
unfolding upsert_sync_row
upsert_adds new [] =
    ground (arith, eq_iff new.source new.source, eq_iff new.source_line_key new.source_line_key)
upsert_adds new (r ∷ rows) = ground (arith, upsert_adds new rows)

upserts_add :
    (source header : String) (hash : Line → String) (lines : List Line) (rows : List SyncRow)
    → All
        (λ (l : Line).
          any (has_key source l.id) (upsert_sync_rows source header hash lines rows) ≡ true)
        lines
unfolding upsert_sync_rows
upserts_add source header hash [] rows = tt
upserts_add source header hash (l ∷ lines) rows = (
  upserts_keep source l.id source header hash lines _
      (upsert_adds (pending_row source header hash l) rows),
  upserts_add source header hash lines _,
)

abbrev pub is_item : String → Item → Bool
is_item id i = str_eq i.id id

not_open :
    (source id : String) (rows : List SyncRow) (items : List Item)
    → any (has_key source id) rows ≡ true
    → any (is_item id) (load_open source rows items) ≡ false
unfolding load_open
not_open source id rows [] h = refl
not_open source id rows (i ∷ items) h = elim (Bool-cases (str_eq i.id id)) [
  | inl this ↦
      let e : id ≡ i.id = ground (arith, this, eq_iff i.id id) in
      let k : any (has_key source i.id) rows ≡ true = rw e at h in
      ground (arith, k, not_open source id rows items h)
  | inr that ↦ ground (arith, that, not_open source id rows items h)
]

abbrev pub AllTaken : String → List Line → List SyncRow → List Item → Type 0
AllTaken source lines rows items =
    All (λ (l : Line). any (is_item l.id) (load_open source rows items) ≡ false) lines

taken :
    (source : String) (lines : List Line) (before after : List SyncRow) (items : List Item)
    → ((id : String) → any (has_key source id) before ≡ true → any (has_key source id) after ≡ true)
    → All (λ (l : Line). any (has_key source l.id) before ≡ true) lines
    → AllTaken source lines after items
taken source [] before after items keeps h = tt
taken source (l ∷ lines) before after items keeps h = (
  not_open source l.id after items (keeps l.id h.0),
  taken source lines before after items keeps h.1,
)

-- Once the rows of an order's lines are stored, no run takes these lines up again: not if the run stops
-- there, and not after its push, however that ends.
pub taken_up_once :
    (hash : Line → String) (answer : ℕ → String → Response) (now : ℕ) (p fallback source : String)
    (order : Order) (rows : List SyncRow) (items : List Item)
    → AllTaken source order.lines (upsert_sync_rows source order.number hash order.lines rows) items
      × AllTaken source order.lines
          (post_and_record answer now p fallback source order
            (upsert_sync_rows source order.number hash order.lines rows)).rows
          items
unfolding post_and_record
taken_up_once hash answer now p fallback source order rows items =
    let before = upsert_sync_rows source order.number hash order.lines rows in
    let added = upserts_add source order.number hash order.lines rows in
    (
      taken source order.lines before before items (λ id h. h) added,
      taken source order.lines before
          (recorded now source order before (post_loop answer p fallback 20 0 order.number)).rows
          items
          (λ id.
            push_keeps source id now source order before
              (post_loop answer p fallback 20 0 order.number))
          added,
    )

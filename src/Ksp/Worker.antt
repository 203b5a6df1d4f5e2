-- ===== src/Ksp/Worker.antt =====
-- Any number of `KSPGatewayWorker`s (src/integrations/ksp_gateway/worker.py) over one journal. A
-- schedule is a list of events; each is one transaction of the journal, or one call of the gateway or
-- of Odoo, and a worker may be stopped between any two. The order that `build_order` makes, and what
-- the gateway and Odoo answer, are part of the events.
pub mod Safety
pub mod Once
use bokser_app.Prelude.{
  ℕ, String, ◌≡◌, Bool, true, false, Option, none, some, List, [], ◌∷◌, ◌==◌, str_eq, if◌then◌else◌,
}
use bokser_app.Json.{Json, null, bool, num, float, str, arr, obj, Fields, end, field, get}
use bokser_app.Lake.Envelope.{is_text}
use bokser_app.Tokens.Provider.{strip, is_empty}
use bokser_app.Ksp.Journal.{
  Digest, Mapping, Binding, Db, State, ready, posting, uncertain, pending, accepted, acknowledged,
  is_ready, find, stage, start_post, set_state,
}

-- What `submit_order` comes to: a body, or a `GatewayError` with its status, if it has one.
pub data Answer : Type 0 where
  replied : Json → Answer
  gateway_error : Option ℕ → Answer

-- Where a worker stands.
pub data Phase : Type 0 where
  idle : Phase
  -- staged, and seen in the state ready
  staged : String → Phase
  -- `start_post` returned true
  owner : String → Phase
  -- the POST was sent
  answered : String → Answer → Phase
  -- before the first, and before the second reading of `reconcile`
  checking : String → Phase
  rechecking : String → Phase
  -- a pending order's tracking is read: code, order id
  tracking : String → String → Phase
  -- Odoo is told of the accepted order
  acknowledging : String → Phase

pub data Event : Type 0 where
  -- worker, body, mapping, claim token
  submit : ℕ → Json → Mapping → String → Event
  start : ℕ → Event
  post : ℕ → Answer → Event
  record_answer : ℕ → Event
  -- `reconcile` and `poll_shipments` of another caller: worker, code
  begin_check : ℕ → String → Event
  read_binding : ℕ → Event
  track : ℕ → Json → Event
  -- whether Odoo acknowledges
  acknowledge : ℕ → Bool → Event
  crash : ℕ → Event

pub record World : Type 0 where
  pub db : Db
  -- the codes of the POSTs sent, and of those that the gateway answered 429, latest first
  pub posts : List String
  pub limited : List String
  pub workers : ℕ → Phase

-- `text`, with `none` for its exception.
abbrev pub nonempty : String → Option String
nonempty s = if is_empty s then none else some s

unfoldable pub text_of : Option Json → Option String
unfolding strip
text_of (some (str s)) = nonempty (strip s)
text_of _ = none

abbrev pub nonnull : Option Json → Option Json
nonnull (some null) = none
nonnull v = v

-- The states that an order's status proves.
abbrev pub accept_status : String → Option Json → String → Option Json → Db → Bool × Db
accept_status code status order_id logiwa db =
    if is_text "sent" status
    then (true, set_state code accepted (some order_id) logiwa none db)
    else if is_text "fulfilled" status
    then (true, set_state code accepted (some order_id) logiwa none db)
    else if is_text "received" status
    then (true, set_state code pending (some order_id) none none db)
    else (
      false,
      set_state code uncertain (some order_id) none (some "Unverified gateway status") db,
    )

abbrev pub accept_id : String → Fields → Option String → Db → Bool × Db
accept_id code d none db = (false, db)
accept_id code d (some order_id) db =
    accept_status code (get "status" d) order_id (nonnull (get "logiwaOrderId" d)) db

abbrev pub unexpected : String → Db → Bool × Db
unexpected code db =
    (false, set_state code uncertain none none (some "Unexpected submission response") db)

-- `_accept_response`: whether it returns, and the journal.
unfoldable pub accept_response : String → Json → Db → Bool × Db
unfolding text_of
accept_response code (obj d) db =
    if is_text code (get "code" d)
    then accept_id code d (text_of (get "orderId" d)) db
    else unexpected code db
accept_response code _ db = unexpected code db

abbrev pub set_phase : ℕ → Phase → (ℕ → Phase) → ℕ → Phase
set_phase k p ws l = if l == k then p else ws l

-- Worker k goes on in a phase, with the journal.
abbrev pub go : ℕ → Phase → Db → World → World
go k p db w = record w { db = db; workers = set_phase k p w.workers }

abbrev pub phase_of_staged : Option Binding → Phase
phase_of_staged none = idle
phase_of_staged (some b) = if is_ready b.state then staged b.code else checking b.code

-- `submit_allocation` up to `stage`.
unfoldable pub submit_step : Digest → ℕ → Json → Mapping → String → Phase → World → World
submit_step digest k body mapping token idle w =
    let (b, db') = stage digest body mapping token w.db in go k (phase_of_staged b) db' w
submit_step digest k body mapping token _ w = w

unfoldable pub start_step : ℕ → Phase → World → World
start_step k (staged code) w =
    let (started, db') = start_post code w.db in
    go k (if started then owner code else checking code) db' w
start_step k _ w = w

abbrev pub is_limited : Answer → Bool
is_limited (gateway_error (some s)) = s == 429
is_limited _ = false

unfoldable pub post_step : ℕ → Answer → Phase → World → World
post_step k a (owner code) w = record w {
  posts = code ∷ w.posts;
  limited = if is_limited a then code ∷ w.limited else w.limited;
  workers = set_phase k (answered code a) w.workers;
}
post_step k a _ w = w

-- `_accept_response`, or the `except` block; the status in the text of its note is left out.
unfoldable pub record_step : ℕ → Phase → World → World
unfolding accept_response
record_step k (answered code (replied r)) w =
    let (ok, db') = accept_response code r w.db in go k (if ok then checking code else idle) db' w
record_step k (answered code (gateway_error s)) w =
    let state = if is_limited (gateway_error s) then ready else uncertain in
    go k idle (set_state code state none none (some "KSP gateway request failed") w.db) w
record_step k _ w = w

unfoldable pub begin_step : ℕ → String → Phase → World → World
begin_step k code idle w = go k (checking code) w.db w
begin_step k code _ w = w

-- What `reconcile` does next in a state: an unknown POST is only looked up, which changes nothing.
abbrev pub next_phase : String → State → Option String → Phase
next_phase code pending (some order_id) = tracking code order_id
next_phase code accepted o = acknowledging code
next_phase code _ o = idle

abbrev pub phase_of_read : Option Binding → Phase
phase_of_read none = idle
phase_of_read (some b) = next_phase b.code b.state b.order_id

abbrev pub only_accepted : State → String → Phase
only_accepted accepted code = acknowledging code
only_accepted _ code = idle

abbrev pub phase_of_reread : Option Binding → Phase
phase_of_reread none = idle
phase_of_reread (some b) = only_accepted b.state b.code

unfoldable pub read_step : ℕ → Phase → World → World
unfolding find
read_step k (checking code) w = go k (phase_of_read (find code w.db.bindings)) w.db w
read_step k (rechecking code) w = go k (phase_of_reread (find code w.db.bindings)) w.db w
read_step k _ w = w

-- The response that is made of a tracking answer.
abbrev pub tracked_response : String → String → Option Json → Json
tracked_response code order_id none =
    obj (field "code" (str code) (field "orderId" (str order_id) (field "status" null end)))
tracked_response code order_id (some status) =
    obj (field "code" (str code) (field "orderId" (str order_id) (field "status" status end)))

abbrev pub accept_tracked : String → String → Json → Db → Bool × Db
accept_tracked code order_id (obj d) db =
    if is_text order_id (get "orderId" d)
    then accept_response code (tracked_response code order_id (get "status" d)) db
    else (false, db)
accept_tracked code order_id _ db = (false, db)

unfoldable pub track_step : ℕ → Json → Phase → World → World
unfolding accept_response
track_step k r (tracking code order_id) w =
    let (ok, db') = accept_tracked code order_id r w.db in
    go k (if ok then rechecking code else idle) db' w
track_step k r _ w = w

-- `acknowledge` of Odoo, and the state after it.
unfoldable pub acknowledge_step : ℕ → Bool → Phase → World → World
acknowledge_step k true (acknowledging code) w =
    go k idle (set_state code acknowledged none none none w.db) w
acknowledge_step k false (acknowledging code) w = go k idle w.db w
acknowledge_step k ok _ w = w

unfoldable pub step : Digest → Event → World → World
unfolding submit_step start_step post_step record_step begin_step read_step track_step
    acknowledge_step
step digest (submit k body mapping token) w =
    submit_step digest k body mapping token (w.workers k) w
step digest (start k) w = start_step k (w.workers k) w
step digest (post k a) w = post_step k a (w.workers k) w
step digest (record_answer k) w = record_step k (w.workers k) w
step digest (begin_check k code) w = begin_step k code (w.workers k) w
step digest (read_binding k) w = read_step k (w.workers k) w
step digest (track k r) w = track_step k r (w.workers k) w
step digest (acknowledge k ok) w = acknowledge_step k ok (w.workers k) w
step digest (crash k) w = go k idle w.db w

unfoldable pub run : Digest → List Event → World → World
unfolding step
run digest [] w = w
run digest (e ∷ es) w = run digest es (step digest e w)

abbrev pub no_db : Db
no_db = record { bindings = []; events = []; next_at = none }

-- An empty journal, and no work yet.
abbrev pub idle_world : World
idle_world = record { db = no_db; posts = []; limited = []; workers = λ k. idle }

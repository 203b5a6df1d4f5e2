-- ===== src/Tracking/Worker.antt =====
-- Tracking operations over time: the API (src/integrations/terminal49_client/api.py) queues them and
-- binds containers, and the one worker that holds the account's lock (worker.py, `run`) works on
-- them, one call after another. Between two calls the API may do anything, a call may raise, and
-- the worker may stop.
pub mod Rows
pub mod Safety
pub mod Advance
pub mod Calls
pub mod Starts
pub mod Once
use bokser_app.Prelude.{
  ℕ, String, Bool, true, false, Option, none, some, List, [], ◌∷◌, str_eq, if◌then◌else◌,
}
use bokser_app.Tracking.Reference.{RequestType}
use bokser_app.Tracking.Store.{
  Reference, Row, Mapping, needs_review, update_initiation, defer_initiation, next_initiation,
  initiate, mapping,
}
use bokser_app.Tracking.Initiation.{
  Act, update, create, bind, send_to_review, defer, Answers, once, marker_of,
}

-- What `create_tracking_request` is called with; no scac stands for `auto_detect_vocc_scac`.
pub record Creation : Type 0 where
  pub operation_id : String
  pub request_type : RequestType
  pub request_number : String
  pub ref_number : String
  pub scac : Option String

-- The row that the round read, and the calls that are left.
pub record Task : Type 0 where
  pub row : Row
  pub todo : List Act

pub record World : Type 0 where
  pub rows : List Row
  pub mappings : List Mapping
  -- the tracking requests created, latest first
  pub sent : List Creation
  pub worker : Option Task

pub data Event : Type 0 where
  -- the API: time, drawn id, Odoo's id, the checked reference
  queue : ℕ → String → ℕ → Option Reference → Event
  -- the API: time, container id, Odoo's id, number, active, refresh
  map_container : ℕ → String → ℕ → String → Bool → Bool → Event
  -- the worker: a round begins, with the order of rows that are due at one time; its next call; a
  -- call that raises
  begin : (Row → Row → Bool) → ℕ → Answers → Event
  act : ℕ → Event
  fail : String → Event
  crash : Event

abbrev pub creation : Row → Creation
creation row = record {
  operation_id = row.operation_id;
  request_type = row.reference.request_type;
  request_number = row.reference.request_number;
  ref_number = marker_of row;
  scac = if str_eq row.reference.scac "" then none else some row.reference.scac;
}

abbrev pub task : Row → List Act → Option Task
task row todo = some (record { row = row; todo = todo })

abbrev pub with_rows : Row → List Act → List Row → World → World
with_rows row todo rows w = record w { rows = rows; worker = task row todo }

abbrev pub bound : Row → List Act → Option (List Mapping) → World → World
bound row rest (some ms) w = record w { mappings = ms; worker = task row rest }
-- `IdentityConflict` in `link`
bound row rest none w = record w {
  worker =
      task row
        (send_to_review "This Terminal49 journey is already linked to another Odoo record." ∷ []);
}

-- The next call of the round.
unfoldable pub perform : ℕ → Row → List Act → World → World
unfolding mapping update_initiation defer_initiation
perform now row [] w = record w { worker = none }
perform now row (update st rid cid error ∷ rest) w =
    with_rows row rest (update_initiation now row.operation_id st rid cid error w.rows) w
perform now row (create ∷ rest) w = record w {
  sent = creation row ∷ w.sent;
  worker = task row rest;
}
perform now row (bind cid ∷ rest) w =
    bound row rest (mapping now cid row.odoo_container_id row.reference.number true true w.mappings)
      w
perform now row (send_to_review text ∷ rest) w =
    with_rows row rest
      (update_initiation now row.operation_id needs_review none none (some text) w.rows) w
perform now row (defer reason ∷ rest) w =
    with_rows row rest (defer_initiation now row.operation_id reason w.rows) w

-- The next call raises: the handler is left, or the round is over.
unfoldable pub give_up : String → Row → List Act → World → World
give_up reason row [] w = record w { worker = none }
give_up reason row (send_to_review text ∷ rest) w = record w { worker = none }
give_up reason row (defer other ∷ rest) w = record w { worker = none }
give_up reason row (_ ∷ rest) w = record w { worker = task row (defer reason ∷ []) }

abbrev pub with_task : (Row → List Act → World → World) → Option Task → World → World
with_task f none w = w
with_task f (some t) w = f t.row t.todo w

abbrev pub queued_rows : Option (Row × List Row) → World → World
queued_rows none w = w
queued_rows (some (row, rows)) w = record w { rows = rows }

abbrev pub mapped : Option (List Mapping) → World → World
mapped none w = w
mapped (some ms) w = record w { mappings = ms }

module _ (clean : String → String) (uuid : String → Option String) where
  abbrev pub round_of : Answers → Option Row → Option Task
  round_of answers none = none
  round_of answers (some row) = task row (once clean uuid answers row)

  abbrev pub begin_round : (Row → Row → Bool) → ℕ → Answers → Option Task → World → World
  begin_round tie now answers none w = record w {
    worker = round_of answers (next_initiation tie now w.rows);
  }
  begin_round tie now answers (some t) w = w

  unfoldable pub step : Event → World → World
  unfolding perform give_up initiate mapping next_initiation once
  step (queue now oid odoo_id reference) w =
      queued_rows (initiate now oid odoo_id reference w.rows) w
  step (map_container now cid odoo_id number active refresh) w =
      mapped (mapping now cid odoo_id number active refresh w.mappings) w
  step (begin tie now answers) w = begin_round tie now answers w.worker w
  step (act now) w = with_task (perform now) w.worker w
  step (fail reason) w = with_task (give_up reason) w.worker w
  step crash w = record w { worker = none }

  unfoldable pub run : List Event → World → World
  unfolding step
  run [] w = w
  run (e ∷ es) w = run es (step e w)

abbrev pub empty_world : World
empty_world = record { rows = []; mappings = []; sent = []; worker = none }

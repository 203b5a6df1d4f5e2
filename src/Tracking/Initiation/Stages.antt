-- ===== src/Tracking/Initiation/Stages.antt =====
-- The protocol of a tracking operation: its stages, and which change of a round may follow in each.
use bokser_app.Prelude.{String, ◌≡◌, subst, Bool, true, false, Option, none, some, List, [], ◌∷◌}
use bokser_app.Tracking.Store.{
  Status, queued, submitting, pending, linked_status, failed_status, Row,
}
use bokser_app.Tracking.Initiation.{Act, update, create, bind, send_to_review, defer}

-- What is known of the operation: no request was sent; none was sent and the row says SUBMITTING; one
-- may have been sent; the row has the id of a request; the round may change nothing more.
pub data Stage : Type 0 where
  unsent armed uncertain tracked closed : Stage

abbrev pub is_unsent : Stage → Bool
is_unsent unsent = true
is_unsent _ = false

abbrev pub is_tracked : Stage → Bool
is_tracked tracked = true
is_tracked _ = false

-- No request was sent yet.
abbrev pub is_fresh : Stage → Bool
is_fresh unsent = true
is_fresh armed = true
is_fresh _ = false

abbrev pub open_stage : Option String → Status → Stage
open_stage (some rid) submitting = tracked
open_stage (some rid) _ = tracked
open_stage none submitting = uncertain
open_stage none _ = unsent

abbrev pub stage_at : Option String → Status → Stage
stage_at rid queued = open_stage rid queued
stage_at rid submitting = open_stage rid submitting
stage_at rid pending = open_stage rid pending
stage_at rid _ = closed

-- The stage that a row shows.
abbrev pub stage_of : Row → Stage
stage_of row = stage_at row.tracking_request_id row.status

-- The stage after a change, where the protocol allows it.
abbrev pub next_stage : Stage → Act → Option Stage
next_stage closed act = none
next_stage unsent (update submitting none none none) = some armed
next_stage armed create = some uncertain
next_stage s (update pending (some rid) none none) = some tracked
next_stage tracked (update pending none none error) = some tracked
next_stage s (update linked_status none (some cid) none) = some closed
next_stage s (update failed_status none none (some error)) = some closed
next_stage s (bind cid) = some s
next_stage s (send_to_review text) = some closed
next_stage s (defer reason) = some closed
next_stage s act = none

unfoldable pub follows : Stage → List Act → Bool
follows s [] = true
follows s (a ∷ rest) = elim (next_stage s a) [ none ↦ false | some t ↦ follows t rest ]

-- The rules of the protocol, as a relation.
pub data Move : Stage → Act → Stage → Type 0 where
  arm : Move unsent (update submitting none none none) armed
  send : Move armed create uncertain
  found : (s : Stage) (rid : String) → Move s (update pending (some rid) none none) tracked
  wait : (error : Option String) → Move tracked (update pending none none error) tracked
  linking : (s : Stage) (cid : String) → Move s (update linked_status none (some cid) none) closed
  failing : (s : Stage) (text : String) → Move s (update failed_status none none (some text)) closed
  binding : (s : Stage) (cid : String) → Move s (bind cid) s
  reviewing : (s : Stage) (text : String) → Move s (send_to_review text) closed
  deferring : (s : Stage) (reason : String) → Move s (defer reason) closed

to : {s t t' : Stage} {a : Act} → Move s a t → some t ≡ some t' → Move s a t'
to {s} {t} {t'} {a} m h = let e : t ≡ t' = cc in subst (Move s a) e m

pub next_stage-Move : (s t : Stage) (a : Act) → next_stage s a ≡ some t → Move s a t
next_stage-Move closed t a h = absurd (cc)
next_stage-Move unsent t (update submitting none none none) h = to arm h
next_stage-Move armed t create h = to send h
next_stage-Move s t (update pending (some rid) none none) h = to (found s rid) h
next_stage-Move tracked t (update pending none none error) h = to (wait error) h
next_stage-Move s t (update linked_status none (some cid) none) h = to (linking s cid) h
next_stage-Move s t (update failed_status none none (some error)) h = to (failing s error) h
next_stage-Move s t (bind cid) h = to (binding s cid) h
next_stage-Move s t (send_to_review text) h = to (reviewing s text) h
next_stage-Move s t (defer reason) h = to (deferring s reason) h
next_stage-Move s t a h = absurd (cc)

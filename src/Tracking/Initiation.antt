-- ===== src/Tracking/Initiation.antt =====
-- One round of `Initiator` (src/integrations/terminal49_client/initiation.py), as the list of the
-- calls that change something: the row of the operation, the mappings, or the provider. What is
-- read in the round, with the exceptions that reading raised, is an argument.
pub mod Stages
pub mod Protocol
use bokser_app.Prelude.{
  String, Bool, true, false, not, ◌&&◌, ◌||◌, Option, none, some, List, [], ◌∷◌, any, filter_b,
  str_eq, if◌then◌else◌,
}
use Prim.Native.String.{◌++◌ as str_append}
use bokser_app.Dict.{lookup}
use bokser_app.Tracking.Documents.{
  Fault, review, failed, Try, ok, raised, ◌>>=◌, Link, Resource, Doc, relationship, resources,
  attribute, is_truthy, equals, single_data,
}
use bokser_app.Tracking.Store.{
  Status, queued, submitting, pending, linked_status, failed_status, Row,
}
use bokser_app.Tracking.Choices.{type_name, cleaned, parse_uuid, choose_container, choose_request}

pub data Act : Type 0 where
  -- status, request id, container id, error
  update : Status → Option String → Option String → Option String → Act
  -- the POST of the tracking request
  create : Act
  -- `mapping`, for the container id
  bind : String → Act
  -- the two exception handlers
  send_to_review : String → Act
  defer : String → Act

-- The answers of the round. `submission` is that of `shipment_submission`: none, or the request id
-- of the row, if it has one.
pub record Answers : Type 0 where
  pub request : String → Try Doc
  pub containers : Try Doc
  pub requests : Try Doc
  pub submission : Try (Option (Option String))
  pub created : Try Doc
  pub shipment : String → Try Doc

abbrev pub handle : Try (List Act) → List Act
handle (ok acts) = acts
handle (raised (review text)) = send_to_review text ∷ []
handle (raised (failed reason)) = defer reason ∷ []

abbrev pub link : String → List Act
link cid = bind cid ∷ update linked_status none (some cid) none ∷ []

abbrev pub track : String → List Act → List Act
track rid rest = update pending (some rid) none none ∷ rest

abbrev pub marker_of : Row → String
marker_of row = str_append "bokser-t49:" row.operation_id

module _ (clean : String → String) (uuid : String → Option String) where
  abbrev pub is_shipment_link : Link → Bool
  is_shipment_link l = str_eq l.kind "shipment"

  abbrev pub is_candidate : Row → Resource → Bool
  is_candidate row r =
      str_eq r.kind "container"
      && str_eq (cleaned clean (attribute "number" r)) row.reference.number

  abbrev pub belongs_to : String → Resource → Bool
  belongs_to sid r = any (λ (l : Link). str_eq l.id sid) (relationship "shipment" r)

  -- The end of `resolve_request`, over the containers of the shipment that have the number.
  abbrev pub settle_candidates : String → List Resource → Try (List Act)
  settle_candidates sid [] = ok (
      update pending none none
        (some "Waiting for the requested container to appear on this shipment.")
      ∷ [])
  settle_candidates sid (c ∷ []) =
      if belongs_to sid c
      then (do cid ← parse_uuid uuid c.id; ok (link cid))
      else raised (review "Container shipment identity does not match the tracking request.")
  settle_candidates sid (c ∷ d ∷ cs) =
      raised (review "Several containers match the requested shipment.")

  abbrev pub resolve_shipment : Row → String → Doc → Try (List Act)
  resolve_shipment row sid doc = do
    s ← single_data doc.data_of
    if is_truthy (attribute "line_tracking_stopped_at" s)
        then raised (review "Shipment tracking is stopped; review before linking.")
        else settle_candidates sid (filter_b (is_candidate row) (resources doc))

  abbrev pub resolve_links : Answers → Row → List Link → Try (List Act)
  resolve_links answers row [] = ok (update pending none none none ∷ [])
  resolve_links answers row (l ∷ []) = do doc ← answers.shipment l.id; resolve_shipment row l.id doc
  resolve_links answers row (l ∷ m ∷ ls) =
      raised (review "Tracking request resolved several shipments.")

  abbrev pub is_other_request : Row → Resource → Bool
  is_other_request row request =
      not (str_eq (cleaned clean (attribute "request_number" request)) row.reference.request_number)
      || not (equals (attribute "request_type" request) (type_name row.reference.request_type))

  abbrev pub is_other_carrier : Row → Resource → Bool
  is_other_carrier row request =
      not (str_eq row.reference.scac "")
      && (is_truthy (attribute "scac" request)
          && not (str_eq (cleaned clean (attribute "scac" request)) row.reference.scac))

  abbrev pub has_failed : Resource → Bool
  has_failed request =
      equals (attribute "status" request) "failed"
      || equals (attribute "status" request) "tracking_stopped"

  -- `resolve_request`: every path reads, and then makes one change, or links.
  unfoldable pub resolve_request : Answers → Row → Resource → Try (List Act)
  unfolding lookup filter_b resources relationship
  resolve_request answers row request =
      if is_other_request row request
      then raised (review "Tracking request identity does not match Odoo.")
      else if is_other_carrier row request
      then raised (review "Tracking request carrier does not match Odoo.")
      else if has_failed request
      then ok (
          update failed_status none none (
            some
              "Terminal49 tracking request failed or stopped. Review the carrier and tracking reference.")
          ∷ [])
      else resolve_links answers row
          (filter_b is_shipment_link (relationship "tracked_object" request))

  -- A request that is read by its id.
  abbrev pub resolve_id : Answers → Row → String → Try (List Act)
  resolve_id answers row rid = do
    doc ← answers.request rid
    request ← single_data doc.data_of
    resolve_request answers row request

  abbrev pub resolve_created : Answers → Row → Try (List Act)
  resolve_created answers row = do
    doc ← answers.created
    request ← single_data doc.data_of
    rid ← parse_uuid uuid request.id
    ok (track rid (handle (resolve_request answers row request)))

  abbrev pub is_submitting : Status → Bool
  is_submitting submitting = true
  is_submitting _ = false

  abbrev pub doubtful : Try (List Act)
  doubtful = raised (
      review
        "Submission outcome is uncertain. No duplicate request was sent. Review Terminal49 tracking requests and link its UUID manually if created.")

  abbrev pub first_submission : Answers → Row → Try (List Act)
  first_submission answers row =
      ok (update submitting none none none ∷ create ∷ handle (resolve_created answers row))

  -- The end: a first submission, or a doubt about an earlier one.
  abbrev pub submit : Answers → Row → Try (List Act)
  submit answers row = if is_submitting row.status then doubtful else first_submission answers row

  abbrev pub follow_submission : Answers → Row → Option (Option String) → Try (List Act)
  follow_submission answers row none = submit answers row
  follow_submission answers row (some none) = raised (
      review
        "A shipment submission already uses this reference. No duplicate request was sent; check its shipment status.")
  follow_submission answers row (some (some rid)) =
      ok (track rid (handle (resolve_id answers row rid)))

  abbrev pub is_container_row : Row → Bool
  is_container_row row = str_eq (type_name row.reference.request_type) "container"

  abbrev pub after_requests : Answers → Row → Option Resource → Try (List Act)
  after_requests answers row (some found) = do
    rid ← parse_uuid uuid found.id
    ok (track rid (handle (resolve_request answers row found)))
  after_requests answers row none =
      if is_container_row row
      then submit answers row
      else (do owner ← answers.submission; follow_submission answers row owner)

  abbrev pub after_containers : Answers → Row → Option String → Try (List Act)
  after_containers answers row (some cid) = ok (link cid)
  after_containers answers row none = do
    doc ← answers.requests
    found ← choose_request clean uuid (marker_of row) doc row
    after_requests answers row found

  abbrev pub search_first : Answers → Row → Try (List Act)
  search_first answers row = do
    doc ← answers.containers
    cid ← choose_container clean uuid doc row.reference
    after_containers answers row cid

  -- `once`, for the row that `next_initiation` returned.
  unfoldable pub once : Answers → Row → List Act
  unfolding choose_container choose_request resolve_request
  once answers row = handle (elim row.tracking_request_id [
    | none ↦ search_first answers row
    | some rid ↦ resolve_id answers row rid
  ])

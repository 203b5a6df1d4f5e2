-- ===== src/Tracking/Choices.antt =====
-- `choose_container` and `choose_request` (src/integrations/terminal49_client/initiation.py). `clean`,
-- which drops whitespace and upper-cases by Python's tables, and `uuid`, which is `str(UUID(s))`
-- where that does not raise, are arguments.
use bokser_app.Prelude.{
  String, Bool, true, false, not, ◌&&◌, ◌||◌, Option, none, some, List, [], ◌∷◌, any, filter_b,
  str_eq, if◌then◌else◌,
}
use bokser_app.Dict.{lookup}
use bokser_app.Tracking.Reference.{RequestType, container, bill_of_lading, booking}
use bokser_app.Tracking.Documents.{
  review, failed, Try, ok, raised, ◌>>=◌, Link, Resource, Doc, relationship, resources,
  find_resource, attribute, is_present, text_or_empty, is_truthy, equals, listed_data,
}
use bokser_app.Tracking.Store.{Reference, Row}

abbrev pub type_name : RequestType → String
type_name container = "container"
type_name bill_of_lading = "bill_of_lading"
type_name booking = "booking"

-- What the loop does with a resource.
pub data Verdict : Type 0 where
  skip historical matching : Verdict

abbrev pub is_container : RequestType → Bool
is_container container = true
is_container _ = false

abbrev pub reference_key : RequestType → String
reference_key bill_of_lading = "bill_of_lading_number"
reference_key _ = "booking_number"

-- `clean(value)`, for None too
abbrev pub cleaned : (String → String) → Option String → String
cleaned clean v = clean (text_or_empty v)

-- `str(UUID(s))`
abbrev pub parse_uuid : (String → Option String) → String → Try String
parse_uuid uuid s = elim (uuid s) [ none ↦ raised (failed "ValueError") | some u ↦ ok u ]

module _ (clean : String → String) (uuid : String → Option String) where
  -- The end of the loop's body: an active shipment is one that says that tracking has not stopped.
  abbrev pub judge_active : Resource → Resource → Verdict
  judge_active resource shipment =
      if not (is_present (lookup "line_tracking_stopped_at" shipment.attributes))
        || (is_truthy (attribute "line_tracking_stopped_at" shipment)
            || equals (attribute "current_status" resource) "empty_returned")
      then historical
      else matching

  abbrev pub judge_reference : Reference → Resource → Resource → Try Verdict
  judge_reference ref resource shipment =
      if is_container ref.request_type
      then ok (judge_active resource shipment)
      else if not (is_present (lookup (reference_key ref.request_type) shipment.attributes))
      then raised (
          review
            "The existing journey lacks the requested shipment reference. Link the verified UUID manually.")
      else if str_eq (cleaned clean (attribute (reference_key ref.request_type) shipment))
          ref.request_number
      then ok (judge_active resource shipment)
      else ok skip

  abbrev pub judge_shipment : Reference → Resource → Option Resource → Try Verdict
  judge_shipment ref resource none =
      raised (review "Container shipment details are unavailable; review the journey.")
  judge_shipment ref resource (some shipment) =
      if not (str_eq ref.scac "")
        && not (str_eq (cleaned clean (attribute "shipping_line_scac" shipment)) ref.scac)
      then ok skip
      else judge_reference ref resource shipment

  abbrev pub judge_links : Reference → Doc → Resource → List Link → Try Verdict
  judge_links ref doc resource (l ∷ []) =
      judge_shipment ref resource (find_resource "shipment" l.id (resources doc))
  judge_links ref doc resource _ =
      raised (review "Container shipment identity is unavailable; review the journey.")

  -- The body of the loop.
  unfoldable pub judge : Reference → Doc → Resource → Try Verdict
  unfolding lookup relationship resources find_resource
  judge ref doc resource =
      if not (str_eq resource.kind "container")
        || not (str_eq (cleaned clean (attribute "number" resource)) ref.number)
      then ok skip
      else judge_links ref doc resource (relationship "shipment" resource)

  abbrev pub Found : Type 0
  Found = List Resource × List Resource

  abbrev pub sort_into : Resource → Verdict → Found → Found
  sort_into r skip f = f
  sort_into r historical (ms, hs) = (ms, r ∷ hs)
  sort_into r matching (ms, hs) = (r ∷ ms, hs)

  -- The loop: the matches and the historical resources.
  unfoldable pub scan : Reference → Doc → List Resource → Try Found
  unfolding judge
  scan ref doc [] = ok ([], [])
  scan ref doc (r ∷ rs) = do v ← judge ref doc r; found ← scan ref doc rs; ok (sort_into r v found)

  abbrev pub settle_container : Found → Try (Option String)
  settle_container ([], []) = ok none
  settle_container ([], h ∷ hs) = raised (
      review
        "Only historical or stopped tracking matches. Review the journey before creating new tracking.")
  settle_container (m ∷ [], hs) = do u ← parse_uuid uuid m.id; ok (some u)
  settle_container (m ∷ n ∷ ms, hs) = raised (
      review
        "Several active journeys match. Enter the master bill or booking, or link the correct UUID manually.")

  -- `choose_container`
  unfoldable pub choose_container : Doc → Reference → Try (Option String)
  unfolding scan
  choose_container doc ref = do
    rs ← listed_data doc.data_of
    found ← scan ref doc rs
    settle_container found

  -- The test of `choose_request`'s loop.
  abbrev pub is_same_request : Row → Resource → Bool
  is_same_request row r =
      str_eq r.kind "tracking_request"
      && (str_eq (cleaned clean (attribute "request_number" r)) row.reference.request_number
          && (equals (attribute "request_type" r) (type_name row.reference.request_type)
              && not (
                  not (str_eq row.reference.scac "")
                  && (is_truthy (attribute "scac" r)
                      && not (str_eq (cleaned clean (attribute "scac" r)) row.reference.scac)))))

  abbrev pub has_marker : String → Resource → Bool
  has_marker marker r = any (λ (n : String). str_eq n marker) r.ref_numbers

  abbrev pub several_requests : Try (Option Resource)
  several_requests =
      raised (review "Several tracking requests match; review before linking or creating tracking.")

  abbrev pub settle_request : List Resource → List Resource → Try (Option Resource)
  settle_request (o ∷ []) ms = ok (some o)
  settle_request (o ∷ p ∷ os) ms = several_requests
  settle_request [] [] = ok none
  settle_request [] (m ∷ []) = ok (some m)
  settle_request [] (m ∷ n ∷ ms) = several_requests

  -- `choose_request`, for the operation's marker.
  unfoldable pub choose_request : String → Doc → Row → Try (Option Resource)
  unfolding lookup filter_b
  choose_request marker doc row = do
    rs ← listed_data doc.data_of
    let matches = filter_b (is_same_request row) rs
    settle_request (filter_b (has_marker marker) matches) matches

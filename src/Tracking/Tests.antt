-- ===== src/Tracking/Tests.antt =====
-- One operation: its worker stops right after the request was created, and a second round begins.
use bokser_app.Prelude.{
  any, ◌==◌, ◌||◌, ◌&&◌, str_eq, ◌≤◌, ◌≡◌, refl, String, true, false, Option, none, some, List, [],
  ◌∷◌, ◌++◌, arith,
}
use bokser_app.Tracking.Reference.{Text, container, is_valid_number, last_digit}
use bokser_app.Tracking.Reference.CheckDigit.{single_wrong_digit}
use bokser_app.Tracking.Documents.{failed, ok, raised, unlinked, Resource, Doc, single, listed}
use bokser_app.Tracking.Store.{Reference, Row, submitting, pending, new_row, Mapping, mapping}
use bokser_app.Tracking.Store.Mappings.{IsOneToOne, binds, mapping-IsOneToOne}
use bokser_app.Tracking.Initiation.{update, create, Answers, once}
use bokser_app.Tracking.Initiation.Protocol.{once-follows}
use bokser_app.Tracking.Initiation.Stages.{follows, stage_of}
use bokser_app.Tracking.Worker.{Event, queue, begin, act, crash, run, empty_world}
use bokser_app.Tracking.Worker.Advance.{created_for}
use bokser_app.Tracking.Worker.Once.{created_once}

-- CSQU0000070 and CSQU9000070
abbrev letters : Text
letters = b'C' ∷ b'S' ∷ b'Q' ∷ b'U' ∷ []

abbrev serial : Text
serial = b'0' ∷ b'0' ∷ b'0' ∷ b'7' ∷ b'0' ∷ []

both_valid :
    (is_valid_number (letters ++ b'0' ∷ b'0' ∷ serial) ≡ true)
    × (is_valid_number (letters ++ b'9' ∷ b'0' ∷ serial) ≡ true)
unfolding is_valid_number
both_valid = (refl, refl)

one_found : is_valid_number (letters ++ b'1' ∷ b'0' ∷ serial) ≡ false
unfolding is_valid_number
one_found = refl

single_wrong_digit_example : last_digit (letters ++ b'0' ∷ b'0' ∷ serial) ≡ 0
single_wrong_digit_example =
    single_wrong_digit letters serial b'0' b'9' b'0' (omega arith) refl refl (λ e. omega (arith, e))
      both_valid.0 both_valid.1

abbrev same : String → String
same s = s

abbrev any_uuid : String → Option String
any_uuid s = some s

abbrev reference : Reference
reference = record {
  number = "CSQU3054383";
  request_type = container;
  request_number = "CSQU3054383";
  scac = "";
}

abbrev request : Resource
request = record {
  kind = "tracking_request";
  id = "r-1";
  attributes =
      ("request_number", some "CSQU3054383")
      ∷ ("request_type", some "container")
      ∷ ("status", some "pending")
      ∷ [];
  ref_numbers = "bokser-t49:op-1" ∷ [];
  relationships = ("tracked_object", unlinked) ∷ [];
}

abbrev empty_doc : Doc
empty_doc = record { data_of = listed []; included = [] }

-- Nothing is found, and the request is created; the second time it is not listed yet.
abbrev answers : Answers
answers = record {
  request = λ rid. raised (failed "Terminal49 HTTP 404");
  containers = ok empty_doc;
  requests = ok empty_doc;
  submission = ok none;
  created = ok (record { data_of = single request; included = [] });
  shipment = λ sid. raised (failed "Terminal49 HTTP 404");
}

abbrev row : Row
row = new_row 0 "op-1" 7 reference

round_run :
    once same any_uuid answers row
    ≡ update submitting none none none
      ∷ create
      ∷ update pending (some "r-1") none none
      ∷ update pending none none none
      ∷ []
unfolding once
round_run = refl

once-follows_example : follows (stage_of row) (once same any_uuid answers row) ≡ true
once-follows_example = once-follows same any_uuid answers row refl

abbrev schedule : List Event
schedule =
    queue 0 "op-1" 7 (some reference)
    ∷ begin (λ _ _. false) 1 answers
    ∷ act 2
    ∷ act 3
    ∷ crash
    ∷ begin (λ _ _. false) 40 answers
    ∷ act 41
    ∷ act 42
    ∷ begin (λ _ _. false) 50 answers
    ∷ []

example_run : created_for "op-1" (run same any_uuid schedule empty_world).sent ≡ 1
unfolding run
example_run = refl

created_once_example : created_for "op-1" (run same any_uuid schedule empty_world).sent ≤ 1
created_once_example = created_once same any_uuid schedule "op-1"

abbrev mappings : List Mapping
mappings =
    record {
      container_id = "c-1";
      odoo_container_id = 7;
      expected_number = "CSQU3054383";
      active = true;
      next_refresh_at = 0;
    }
    ∷ []

abbrev two_mappings : List Mapping
two_mappings =
    mappings
    ++ record {
      container_id = "c-2";
      odoo_container_id = 8;
      expected_number = "CSQU9000070";
      active = true;
      next_refresh_at = 5;
    }
      ∷ []

mapping_run : mapping 5 "c-2" 7 "CSQU3054383" true false mappings ≡ none
unfolding mapping
mapping_run = refl

mapping-IsOneToOne_example :
    IsOneToOne two_mappings
    × (any (binds "c-1" 7) two_mappings
        ≡ (any (binds "c-1" 7) mappings || (str_eq "c-1" "c-2" && 7 == 8)))
unfolding mapping
mapping-IsOneToOne_example =
    mapping-IsOneToOne 5 "c-2" 8 "CSQU9000070" true false mappings two_mappings "c-1" 7 (refl, tt)
      refl

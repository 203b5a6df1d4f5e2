-- ===== src/Tracking/Initiation/Protocol.antt =====
-- A round of `Initiator` keeps to the protocol of its operation.
use bokser_app.Prelude.{
  String, ◌≡◌, refl, Bool, true, false, Option, none, some, List, [], ◌∷◌, if◌then◌else◌, inl, inr,
  Option-cases,
}
use bokser_app.Tracking.Documents.{
  Fault, review, failed, Try, ok, raised, ◌>>=◌, Link, Resource, single_data, attribute, is_truthy,
}
use bokser_app.Tracking.Choices.{parse_uuid, choose_container, choose_request}
use bokser_app.Tracking.Store.{is_active, Status, queued, submitting, pending, Row}
use bokser_app.Tracking.Initiation.{
  Act, Answers, handle, link, track, belongs_to, is_other_request, is_other_carrier, has_failed,
  settle_candidates, resolve_links, resolve_request, resolve_id, resolve_created, is_submitting,
  doubtful, first_submission, marker_of, is_container_row, submit, follow_submission,
  after_requests, after_containers, search_first, once,
}
use bokser_app.Tracking.Initiation.Stages.{
  Stage, unsent, armed, uncertain, tracked, closed, stage_at, stage_of, follows,
}

-- The calls that a step comes to, its handlers' included, keep to the protocol.
record Keeps (s : Stage) (m : Try (List Act)) : Type 0 where
  kept : follows s (handle m) ≡ true

keeps : {s : Stage} {m : Try (List Act)} → follows s (handle m) ≡ true → Keeps s m
keeps h = record { kept = h }

abbrev is_open : Stage → Bool
is_open closed = false
is_open _ = true

raised-Keeps : (s : Stage) (e : Fault) → is_open s ≡ true → Keeps s (raised e)
unfolding follows
raised-Keeps unsent (review t) h = keeps refl
raised-Keeps unsent (failed t) h = keeps refl
raised-Keeps armed (review t) h = keeps refl
raised-Keeps armed (failed t) h = keeps refl
raised-Keeps uncertain (review t) h = keeps refl
raised-Keeps uncertain (failed t) h = keeps refl
raised-Keeps tracked (review t) h = keeps refl
raised-Keeps tracked (failed t) h = keeps refl
raised-Keeps closed e h = absurd (cc)

bind-Keeps {ℓ} :
    {A : Type ℓ} (s : Stage) (m : Try A) (f : A → Try (List Act))
    → is_open s ≡ true
    → ((a : A) → Keeps s (f a))
    → Keeps s (m >>= f)
bind-Keeps s (ok a) f h k = k a
bind-Keeps s (raised e) f h k = raised-Keeps s e h

if-Keeps :
    (s : Stage) (b : Bool) (m n : Try (List Act))
    → Keeps s m
    → Keeps s n
    → Keeps s (if b then m else n)
if-Keeps s true m n hm hn = hm
if-Keeps s false m n hm hn = hn

track-Keeps :
    (s : Stage) (rid : String) (rest : List Act)
    → is_open s ≡ true
    → follows tracked rest ≡ true
    → Keeps s (ok (track rid rest))
unfolding follows
track-Keeps unsent rid rest h k = keeps k
track-Keeps armed rid rest h k = keeps k
track-Keeps uncertain rid rest h k = keeps k
track-Keeps tracked rid rest h k = keeps k
track-Keeps closed rid rest h k = absurd (cc)

none-is_open : (st : Status) → is_active st ≡ true → is_open (stage_at none st) ≡ true
none-is_open queued h = refl
none-is_open submitting h = refl
none-is_open pending h = refl
none-is_open _ h = cc

some-stage_at :
    (rid : String) (st : Status) → is_active st ≡ true → stage_at (some rid) st ≡ tracked
some-stage_at rid queued h = refl
some-stage_at rid submitting h = refl
some-stage_at rid pending h = refl
some-stage_at rid _ h = absurd (cc)

link-Keeps : (s : Stage) (cid : String) → is_open s ≡ true → Keeps s (ok (link cid))
unfolding follows
link-Keeps unsent cid h = keeps refl
link-Keeps armed cid h = keeps refl
link-Keeps uncertain cid h = keeps refl
link-Keeps tracked cid h = keeps refl
link-Keeps closed cid h = absurd (cc)

module _ (clean : String → String) (uuid : String → Option String) where
  settle-Keeps :
      (sid : String) (cs : List Resource) → Keeps tracked (settle_candidates clean uuid sid cs)
  unfolding follows
  settle-Keeps sid [] = keeps refl
  settle-Keeps sid (c ∷ []) =
      if-Keeps tracked (belongs_to clean uuid sid c) _ _
        (bind-Keeps tracked (parse_uuid uuid c.id) (λ cid. ok (link cid)) refl (λ cid. keeps refl))
        (raised-Keeps tracked _ refl)
  settle-Keeps sid (c ∷ d ∷ cs) = raised-Keeps tracked _ refl

  links-Keeps :
      (answers : Answers) (row : Row) (ls : List Link)
      → Keeps tracked (resolve_links clean uuid answers row ls)
  unfolding follows
  links-Keeps answers row [] = keeps refl
  links-Keeps answers row (l ∷ []) = bind-Keeps tracked (answers.shipment l.id) _ refl (λ doc.
      bind-Keeps tracked (single_data doc.data_of) _ refl (λ s.
        if-Keeps tracked (is_truthy (attribute "line_tracking_stopped_at" s)) _ _
          (raised-Keeps tracked _ refl) (settle-Keeps l.id _)))
  links-Keeps answers row (l ∷ m ∷ ls) = raised-Keeps tracked _ refl

  resolve-Keeps :
      (answers : Answers) (row : Row) (r : Resource)
      → Keeps tracked (resolve_request clean uuid answers row r)
  unfolding follows resolve_request
  resolve-Keeps answers row r =
      if-Keeps tracked (is_other_request clean uuid row r) _ _ (raised-Keeps tracked _ refl) (
        if-Keeps tracked (is_other_carrier clean uuid row r) _ _ (raised-Keeps tracked _ refl)
          (if-Keeps tracked (has_failed clean uuid r) _ _ (keeps refl) (links-Keeps answers row _)))

  id-Keeps :
      (answers : Answers) (row : Row) (rid : String)
      → Keeps tracked (resolve_id clean uuid answers row rid)
  id-Keeps answers row rid =
      bind-Keeps tracked (answers.request rid) _ refl
        (λ doc. bind-Keeps tracked (single_data doc.data_of) _ refl (resolve-Keeps answers row))

  created-Keeps :
      (answers : Answers) (row : Row) → Keeps uncertain (resolve_created clean uuid answers row)
  unfolding follows
  created-Keeps answers row = bind-Keeps uncertain answers.created _ refl (λ doc.
      bind-Keeps uncertain (single_data doc.data_of) _ refl (λ r.
        bind-Keeps uncertain (parse_uuid uuid r.id) _ refl
          (λ rid. keeps (resolve-Keeps answers row r).kept)))

  first-Keeps :
      (answers : Answers) (row : Row) → Keeps unsent (first_submission clean uuid answers row)
  unfolding follows
  first-Keeps answers row = keeps (created-Keeps answers row).kept

  submit-Keeps :
      (answers : Answers) (row : Row) (st : Status)
      → is_active st ≡ true
      → Keeps (stage_at none st) (
          if is_submitting clean uuid st
          then doubtful clean uuid
          else first_submission clean uuid answers row)
  unfolding follows
  submit-Keeps answers row queued a = first-Keeps answers row
  submit-Keeps answers row submitting a = keeps refl
  submit-Keeps answers row pending a = first-Keeps answers row
  submit-Keeps answers row _ a = absurd (cc)

  module _ (answers : Answers) (row : Row) (s : Stage) (opened : is_open s ≡ true) where
    submission-Keeps :
        (o : Option (Option String))
        → Keeps s (submit clean uuid answers row)
        → Keeps s (follow_submission clean uuid answers row o)
    submission-Keeps none h = h
    submission-Keeps (some none) h = raised-Keeps s _ opened
    submission-Keeps (some (some rid)) h =
        track-Keeps s rid _ opened (id-Keeps answers row rid).kept

    requests-Keeps :
        (o : Option Resource)
        → Keeps s (submit clean uuid answers row)
        → Keeps s (after_requests clean uuid answers row o)
    requests-Keeps none h =
        if-Keeps s (is_container_row clean uuid row) _ _ h
          (bind-Keeps s answers.submission _ opened (λ o. submission-Keeps o h))
    requests-Keeps (some found) h =
        bind-Keeps s (parse_uuid uuid found.id) _ opened
          (λ rid. track-Keeps s rid _ opened (resolve-Keeps answers row found).kept)

    containers-Keeps :
        (o : Option String)
        → Keeps s (submit clean uuid answers row)
        → Keeps s (after_containers clean uuid answers row o)
    containers-Keeps none h = bind-Keeps s answers.requests _ opened (λ doc.
        bind-Keeps s (choose_request clean uuid (marker_of row) doc row) _ opened
          (λ found. requests-Keeps found h))
    containers-Keeps (some cid) h = link-Keeps s cid opened

    search-Keeps :
        Keeps s (submit clean uuid answers row) → Keeps s (search_first clean uuid answers row)
    search-Keeps h = bind-Keeps s answers.containers _ opened (λ doc.
        bind-Keeps s (choose_container clean uuid doc row.reference) _ opened
          (λ cid. containers-Keeps cid h))

  -- A round on an operation that is not over keeps to the protocol, from the stage that its row
  -- shows, whatever the provider and the tables answer: it sets SUBMITTING before it creates a
  -- request, creates one only where none may have been sent, and sets PENDING only with a request's
  -- id or after one.
  pub once-follows :
      (answers : Answers) (row : Row)
      → is_active row.status ≡ true
      → follows (stage_of row) (once clean uuid answers row) ≡ true
  unfolding once
  once-follows answers row a = elim (Option-cases row.tracking_request_id) [
    | inl none_yet ↦
        rw none_yet
          (search-Keeps answers row (stage_at none row.status) (none-is_open row.status a)
            (submit-Keeps answers row row.status a)).kept
    | inr (rid, e) ↦ rw (e, some-stage_at rid row.status a) (id-Keeps answers row rid).kept
  ]

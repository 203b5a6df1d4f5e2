-- ===== src/Ksp/Journal/Packages.antt =====
-- What the journal keeps of a warehouse's packages.
use bokser_app.Prelude.{
  String, ◌≡◌, ◌≢◌, refl, true, false, ◌&&◌, Option, none, some, List, [], ◌∷◌, ◌++◌, any, All,
  str_eq, eq_iff, if◌then◌else◌, arith, Bool-cases, inl, inr, ◌⊎◌, ap, ◌∙◌,
}
use bokser_app.Ksp.Journal.{
  Digest, Report, Event, Db, find_event, none_missing, agrees_with, all_agree, new_event,
  insert_event, insert_events, stage_packages,
}

-- No event id twice among the reports.
abbrev pub IdsDiffer : List Report → Type 0
IdsDiffer [] = Unit
IdsDiffer (r ∷ rs) = All (λ s. str_eq r.event_id s.event_id ≡ false) rs × IdsDiffer rs

-- The journal has the report under the code, with its digest.
abbrev pub IsStaged : Digest → String → List Event → Report → Type 0
IsStaged digest code events r =
    (e : Event) × (find_event r.event_id events ≡ some e)
    × (e.code ≡ code)
    × (e.fingerprint ≡ digest.of_report r)

abbrev first_of : Option Event → Option Event → Option Event
first_of none o = o
first_of (some e) o = some e

find_event-append :
    (id : String) (es : List Event) (e : Event)
    → find_event id (es ++ e ∷ [])
      ≡ first_of (find_event id es) (if str_eq e.event_id id then some e else none)
unfolding find_event
find_event-append id [] e = refl
find_event-append id (x ∷ es) e = ground (arith, find_event-append id es e)

absent_event :
    (id : String) (es : List Event)
    → any (λ (x : Event). str_eq x.event_id id) es ≡ false
    → find_event id es ≡ none
unfolding find_event
absent_event id [] h = refl
absent_event id (x ∷ es) h = ground (arith, absent_event id es)

present_event :
    (id : String) (es : List Event)
    → any (λ (x : Event). str_eq x.event_id id) es ≡ true
    → find_event id es ≢ none
unfolding find_event
present_event id [] h = absurd (cc)
present_event id (x ∷ es) h = ground (arith, present_event id es)

-- What the first row of an event id is after an insertion.
find-insert_event :
    (id : String) (e : Event) (es : List Event)
    → find_event id (insert_event e es)
      ≡ first_of (find_event id es) (if str_eq e.event_id id then some e else none)
find-insert_event id e es =
    elim (Bool-cases (any (λ (x : Event). str_eq x.event_id e.event_id) es)) [
      | inr absent ↦ rw absent (find_event-append id es e)
      | inl there ↦ rw there (unchanged there (find_event id es) refl)
    ]
  where
    unchanged :
        any (λ (x : Event). str_eq x.event_id e.event_id) es ≡ true
        → (o : Option Event) → find_event id es ≡ o
        → o ≡ first_of o (if str_eq e.event_id id then some e else none)
    unchanged there (some x) h = refl
    unchanged there none h = elim (Bool-cases (str_eq e.event_id id)) [
      | inr other ↦ rw other
      | inl same ↦
          let p : e.event_id ≡ id = (eq_iff e.event_id id).0 same in
          absurd (present_event e.event_id es there (ap (λ i. find_event i es) p ∙ h))
    ]

-- What is there stays.
insert_events_keep :
    (digest : Digest) (code : String) (rs : List Report) (es : List Event) (id : String) (e : Event)
    → find_event id es ≡ some e
    → find_event id (insert_events digest code rs es) ≡ some e
unfolding insert_events
insert_events_keep digest code [] es id e h = h
insert_events_keep digest code (r ∷ rs) es id e h =
    insert_events_keep digest code rs (insert_event (new_event digest code r) es) id e (
      find-insert_event id (new_event digest code r) es
      ∙ ap (λ o. first_of o (if str_eq r.event_id id then some (new_event digest code r) else none))
          h)

first_of-none : (o : Option Event) → first_of o none ≡ o
first_of-none none = refl
first_of-none (some e) = refl

all_agree_keep :
    (digest : Digest) (code : String) (r : Report) (es : List Event) (rs : List Report)
    → All (λ s. str_eq r.event_id s.event_id ≡ false) rs
    → all_agree digest code es rs ≡ true
    → all_agree digest code (insert_event (new_event digest code r) es) rs ≡ true
unfolding all_agree
all_agree_keep digest code r es [] d h = refl
all_agree_keep digest code r es (s ∷ rs) d h =
    let e = new_event digest code r in
    let same : find_event s.event_id (insert_event e es) ≡ find_event s.event_id es =
      find-insert_event s.event_id e es
      ∙ ap (λ b. first_of (find_event s.event_id es) (if b then some e else none)) d.0
      ∙ first_of-none (find_event s.event_id es) in
    ground
      (arith, ap (λ o. agrees_with digest code s o) same, all_agree_keep digest code r es rs d.1)

IsStaged-insert_event :
    (digest : Digest) (code : String) (r : Report) (es : List Event)
    → agrees_with digest code r (find_event r.event_id es) ≡ true
    → IsStaged digest code (insert_event (new_event digest code r) es) r
IsStaged-insert_event digest code r es = cases (find_event r.event_id es) refl
  where
    own : str_eq r.event_id r.event_id ≡ true
    own = (eq_iff r.event_id r.event_id).1 refl

    cases :
        (o : Option Event)
        → find_event r.event_id es ≡ o
        → agrees_with digest code r o ≡ true
        → IsStaged digest code (insert_event (new_event digest code r) es) r
    cases none absent h = (
      new_event digest code r,
      find-insert_event r.event_id (new_event digest code r) es
          ∙ ap
              (λ o.
                first_of o
                  (if str_eq r.event_id r.event_id then some (new_event digest code r) else none))
              absent
          ∙ ap (λ b. if b then some (new_event digest code r) else none) own,
      refl,
      refl,
    )
    cases (some e) there h = (
      e,
      find-insert_event r.event_id (new_event digest code r) es
          ∙ ap
              (λ o.
                first_of o
                  (if str_eq r.event_id r.event_id then some (new_event digest code r) else none))
              there,
      ground (arith, eq_iff e.code code),
      ground (arith, eq_iff e.fingerprint (digest.of_report r)),
    )

insert_events_stage :
    (digest : Digest) (code : String) (rs : List Report) (es : List Event)
    → IdsDiffer rs
    → all_agree digest code es rs ≡ true
    → All (IsStaged digest code (insert_events digest code rs es)) rs
unfolding insert_events all_agree
insert_events_stage digest code [] es d h = tt
insert_events_stage digest code (r ∷ rs) es d h =
    let es1 = insert_event (new_event digest code r) es in
    let (e, found, own, print) = IsStaged-insert_event digest code r es (ground arith) in
    let rest : all_agree digest code es rs ≡ true = ground arith in
    (
      (e, insert_events_keep digest code rs es1 r.event_id e found, own, print),
      insert_events_stage digest code rs es1 d.1 (all_agree_keep digest code r es rs d.0 rest),
    )

-- A snapshot of packages with distinct event ids is staged as a whole or not at all: the call raises
-- and leaves the journal as it is, or it returns and the journal has every report of the snapshot
-- under its code with its very content, by the digest.
pub stage_packages_lem :
    (digest : Digest) (code : String) (reports : List Report) (db : Db)
    → IdsDiffer reports
    → let (ok, db') = stage_packages digest code reports db in
      ((ok ≡ false) × (db' ≡ db)) ⊎ ((ok ≡ true) × All (IsStaged digest code db'.events) reports)
unfolding stage_packages
stage_packages_lem digest code reports db d =
    elim (Bool-cases
      (none_missing code reports db.events && all_agree digest code db.events reports)) [
        | inr refused ↦ rw refused (inl (refl, refl))
        | inl taken ↦
            rw taken
              (inr (refl, insert_events_stage digest code reports db.events d (ground arith)))
      ]

-- An event that the journal has is never changed by a later snapshot, of whatever code: the first row
-- of its id, with its code, report, digest and mark, stays.
pub stage_packages_keeps :
    (digest : Digest) (code : String) (reports : List Report) (db : Db) (id : String) (e : Event)
    → find_event id db.events ≡ some e
    → find_event id (stage_packages digest code reports db).1.events ≡ some e
unfolding stage_packages
stage_packages_keeps digest code reports db id e h =
    elim (Bool-cases
      (none_missing code reports db.events && all_agree digest code db.events reports)) [
        | inr refused ↦ rw refused h
        | inl taken ↦ rw taken (insert_events_keep digest code reports db.events id e h)
      ]

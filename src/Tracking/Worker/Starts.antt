-- ===== src/Tracking/Worker/Starts.antt =====
-- A round that begins, and an operation that is queued, keep the invariant of every operation.
use bokser_app.Prelude.{
  Bool, ℕ, String, ◌≡◌, refl, subst, ◌⊎◌, true, false, ◌||◌, Option, none, some, List, [], ◌∷◌,
  ◌++◌, any, arith, str_eq, eq_iff, inl, inr, Bool-cases, Option-cases,
}
use bokser_app.Tracking.Store.{
  Status, queued, submitting, pending, Row, Reference, has_id, is_active, next_initiation, new_row,
  initiate, find_odoo, insert_row, answer_existing, same_reference, is_pending_for,
}
use bokser_app.Tracking.Initiation.{Answers}
use bokser_app.Tracking.Initiation.{once as once_round}
use bokser_app.Tracking.Initiation.Protocol.{once-follows}
use bokser_app.Tracking.Initiation.Stages.{
  Stage, unsent, stage_at, stage_of, is_unsent, is_fresh, is_tracked,
}
use bokser_app.Tracking.Worker.{Task, World, queued_rows, round_of, begin_round}
use bokser_app.Tracking.Worker.Rows.{find_row, next-find, find-append, count-append, absent}
use bokser_app.Tracking.Worker.Safety.{may_start, is_begun, has_request, TaskSafe}
use bokser_app.Tracking.Worker.Advance.{created_for, SafeAt, stop, todo_of, row_of}
use bokser_app.Tracking.Worker.Calls.{IsSafe}

-- What the stage that a row shows says of the row.
fresh_stage :
    (o : Option String) (st : Status)
    → is_fresh (stage_at o st) ≡ true
    → is_unsent (stage_at o st) ≡ true
fresh_stage none queued h = refl
fresh_stage none submitting h = cc
fresh_stage none pending h = refl
fresh_stage none _ h = cc
fresh_stage (some rid) queued h = cc
fresh_stage (some rid) submitting h = cc
fresh_stage (some rid) pending h = cc
fresh_stage (some rid) _ h = cc

begun_stage : (s : Stage) → is_begun s ≡ true → is_unsent s ≡ false
begun_stage unsent h = cc
begun_stage _ h = refl

tracked_stage :
    (o : Option String) (r : Row) (st : Status)
    → r.tracking_request_id ≡ o
    → is_tracked (stage_at o st) ≡ true
    → has_request (some r) ≡ true
tracked_stage none r queued e h = absurd (cc)
tracked_stage none r submitting e h = absurd (cc)
tracked_stage none r pending e h = absurd (cc)
tracked_stage none r _ e h = absurd (cc)
tracked_stage (some rid) r st e h = rw e

abbrev Outcome : ℕ → String → ℕ → List Row → Option (Row × List Row) → Type 0
Outcome now oid odoo_id rows o =
    (o ≡ none)
    ⊎ (((r : Row) × (o ≡ some (r, rows)))
        ⊎ ((ref : Reference) × (any (has_id oid) rows ≡ false)
            × (o ≡ some (new_row now oid odoo_id ref, rows ++ new_row now oid odoo_id ref ∷ []))))

insert-Outcome :
    (now : ℕ) (oid : String) (odoo_id : ℕ) (ref : Reference) (rows : List Row)
    → Outcome now oid odoo_id rows (insert_row now oid odoo_id ref rows)
insert-Outcome now oid odoo_id ref rows =
    elim (Bool-cases (any (is_pending_for ref.number) rows || any (has_id oid) rows)) [
      | inl taken ↦ inl (rw taken)
      | inr free ↦ inr (inr (ref, ground (arith, free), rw free))
    ]

answer-Outcome :
    (now : ℕ) (oid : String) (odoo_id : ℕ) (ref : Reference) (r : Row) (rows : List Row)
    → Outcome now oid odoo_id rows (answer_existing ref r rows)
answer-Outcome now oid odoo_id ref r rows = elim (Bool-cases (same_reference r.reference ref)) [
  | inl same ↦ inr (inl (r, rw same))
  | inr other ↦ inl (rw other)
]

-- What `initiate` comes to: a refusal, the operation that is there, or a new one with a new id.
initiate-cases :
    (now : ℕ) (oid : String) (odoo_id : ℕ) (ref : Option Reference) (rows : List Row)
    → Outcome now oid odoo_id rows (initiate now oid odoo_id ref rows)
unfolding initiate
initiate-cases now oid odoo_id none rows = inl refl
initiate-cases now oid odoo_id (some ref) rows = elim (Option-cases (find_odoo odoo_id rows)) [
  | inl nobody ↦ rw (nobody, initiate) (insert-Outcome now oid odoo_id ref rows)
  | inr (r, e) ↦ rw (e, initiate) (answer-Outcome now oid odoo_id ref r rows)
]

module _ (j : String) (clean : String → String) (uuid : String → Option String) where
  started_task :
      (answers : Answers) (row : Row) (posts : ℕ)
      → is_active row.status ≡ true
      → (may_start (some row) ≡ true → posts ≡ 0)
      → TaskSafe (some row) posts (once_round clean uuid answers row)
  started_task answers row posts a free = record {
    stage = stage_of row;
    path = once-follows clean uuid answers row a;
    known = refl;
    fresh = λ h. free (fresh_stage row.tracking_request_id row.status h);
    started = begun_stage (stage_of row);
    kept = tracked_stage row.tracking_request_id row row.status refl;
  }

  round-IsSafe :
      (tie : Row → Row → Bool) (now : ℕ) (answers : Answers) (o : Option Row) (w : World)
      → next_initiation tie now w.rows ≡ o
      → IsSafe j w
      → SafeAt j w.rows w.sent (round_of clean uuid answers o)
  round-IsSafe tie now answers none w e s = stop j w.rows w.sent w.worker s
  round-IsSafe tie now answers (some row) w e s = record {
    unique = s.unique;
    once = s.once;
    free = s.free;
    round = λ t same own.
        let same_row = row_of row (once_round clean uuid answers row) t same in
        let id : row.operation_id ≡ j =
          ground (arith, own, same_row, eq_iff row.operation_id j, eq_iff t.row.operation_id j) in
        todo_of (λ x. TaskSafe (find_row j w.rows) (created_for j w.sent) x) row
          (once_round clean uuid answers row) t same (own_task id);
  }
    where
      own_task :
          row.operation_id ≡ j
          → TaskSafe (find_row j w.rows) (created_for j w.sent) (once_round clean uuid answers row)
      own_task id =
          let (f, a) = next-find tie now row w.rows e (rw id s.unique) in
          let g : find_row j w.rows ≡ some row =
            subst (λ (i : String). find_row i w.rows ≡ some row) id f in
          rw g (started_task answers row (created_for j w.sent) a (rw g at s.free))

  pub begin-IsSafe :
      (tie : Row → Row → Bool) (now : ℕ) (answers : Answers) (o : Option Task) (w : World)
      → IsSafe j w
      → IsSafe j (begin_round clean uuid tie now answers o w)
  begin-IsSafe tie now answers none w s =
      round-IsSafe tie now answers (next_initiation tie now w.rows) w refl s
  begin-IsSafe tie now answers (some t) w s = s

  insert-SafeAt :
      (now : ℕ) (oid : String) (odoo_id : ℕ) (ref : Reference) (w : World)
      → any (has_id oid) w.rows ≡ false
      → IsSafe j w
      → SafeAt j (w.rows ++ new_row now oid odoo_id ref ∷ []) w.sent w.worker
  insert-SafeAt now oid odoo_id ref w new s = elim (Bool-cases (str_eq oid j)) [
    | inl own ↦
        let id : oid ≡ j = ground (arith, own, eq_iff oid j) in
        let (gone, zero_rows) = absent j w.rows (rw id at new) in
        record {
          unique = ground (arith, count-append j w.rows (new_row now oid odoo_id ref), zero_rows);
          once = s.once;
          free = λ h. s.free (rw gone);
          round = λ t e h. absurd (let k = rw gone at (s.round t e h).known in cc);
        }
    | inr other ↦
        let e : find_row j (w.rows ++ new_row now oid odoo_id ref ∷ []) ≡ find_row j w.rows =
          ground (arith, find-append j w.rows (new_row now oid odoo_id ref), other) in
        record {
          unique =
              ground (arith, count-append j w.rows (new_row now oid odoo_id ref), other, s.unique);
          once = s.once;
          free = rw e s.free;
          round = rw e s.round;
        }
  ]

  pub queued-IsSafe :
      (now : ℕ) (oid : String) (odoo_id : ℕ) (ref : Option Reference) (w : World)
      → IsSafe j w
      → IsSafe j (queued_rows (initiate now oid odoo_id ref w.rows) w)
  queued-IsSafe now oid odoo_id ref w s = elim (initiate-cases now oid odoo_id ref w.rows) [
    | inl refused ↦ rw refused s
    | inr (inl (r, same)) ↦ rw same s
    | inr (inr (reference, new, e)) ↦ rw e (insert-SafeAt now oid odoo_id reference w new s)
  ]

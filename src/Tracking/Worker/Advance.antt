-- ===== src/Tracking/Worker/Advance.antt =====
-- What a call of a round does to the invariant of an operation, the round's own or another.
use bokser_app.Prelude.{
  ℕ, suc, ◌≤◌, String, ◌≡◌, refl, subst, ap, ◌∙◌, true, false, Option, none, some, List, [], ◌∷◌,
  map, arith, str_eq, eq_iff, if◌then◌else◌, inl, inr, Bool-cases,
}
use bokser_app.Tracking.Store.{Row, has_id, where_id}
use bokser_app.Tracking.Initiation.{Act, send_to_review, defer}
use bokser_app.Tracking.Initiation.Stages.{Stage, closed, follows}
use bokser_app.Tracking.Worker.{Creation, Task, task}
use bokser_app.Tracking.Worker.Rows.{
  find_row, count_row, on_row, find-where_own, find-where_other, count-where,
}
use bokser_app.Tracking.Worker.Safety.{may_start, TaskSafe, effect, posts_after, Next, task-Next}

-- How often a request was created for an operation.
abbrev pub created_for : String → List Creation → ℕ
created_for j [] = 0
created_for j (c ∷ cs) =
    if str_eq c.operation_id j then suc (created_for j cs) else created_for j cs

pub record SafeAt (j : String) (rows : List Row) (sent : List Creation) (worker : Option Task)
    : Type 0 where
  pub unique : count_row j rows ≤ 1
  pub once : created_for j sent ≤ 1
  pub free : may_start (find_row j rows) ≡ true → created_for j sent ≡ 0
  pub round :
      (t : Task)
      → worker ≡ some t
      → has_id j t.row ≡ true
      → TaskSafe (find_row j rows) (created_for j sent) t.todo

-- A call does to the operation's row what `effect` says.
at_row :
    (now : ℕ) (a : Act) (rest : List Act) (o : Option Row) (posts : ℕ)
    → posts ≤ 1
    → (may_start o ≡ true → posts ≡ 0)
    → TaskSafe o posts (a ∷ rest)
    → (r : Row) × (o ≡ some r) × Next (effect now a r) (posts_after a posts) rest
at_row now a rest none posts once free t = absurd (let k = t.known in cc)
at_row now a rest (some r) posts once free t = (r, refl, task-Next now a rest r posts once free t)

pub todo_of {ℓ} :
    (P : List Act → Type ℓ) (row : Row) (todo : List Act) (t : Task)
    → task row todo ≡ some t
    → P todo
    → P t.todo
todo_of P row todo t e p = let q : todo ≡ t.todo = cc in subst P q p

pub row_of : (row : Row) (todo : List Act) (t : Task) → task row todo ≡ some t → row ≡ t.row
row_of row todo t e = cc

module _ (j : String) where
  pub advance_own :
      (now : ℕ) (row : Row) (a : Act) (rest : List Act) (rows rows' : List Row)
      (sent sent' : List Creation)
      → has_id j row ≡ true
      → find_row j rows' ≡ on_row (effect now a) (find_row j rows)
      → count_row j rows' ≡ count_row j rows
      → created_for j sent' ≡ posts_after a (created_for j sent)
      → SafeAt j rows sent (task row (a ∷ rest))
      → SafeAt j rows' sent' (task row rest)
  advance_own now row a rest rows rows' sent sent' own found counted posted s =
      let (r, e, n) =
        at_row now a rest (find_row j rows) (created_for j sent) s.once s.free
          (s.round (record { row = row; todo = a ∷ rest }) refl own) in
      let f : find_row j rows' ≡ some (effect now a r) = found ∙ ap (on_row (effect now a)) e in
      record {
        unique = omega (arith, counted, s.unique);
        once = rw posted n.once;
        free = rw (f, posted) n.free;
        round = λ t same h.
            todo_of (λ x. TaskSafe (find_row j rows') (created_for j sent') x) row rest t same
              (rw (f, posted) n.task);
      }

  pub advance_other :
      (row : Row) (todo : List Act) (rows rows' : List Row) (sent sent' : List Creation)
      (worker : Option Task)
      → has_id j row ≡ false
      → find_row j rows' ≡ find_row j rows
      → count_row j rows' ≡ count_row j rows
      → created_for j sent' ≡ created_for j sent
      → SafeAt j rows sent worker
      → SafeAt j rows' sent' (task row todo)
  advance_other row todo rows rows' sent sent' worker other found counted posted s = record {
    unique = omega (arith, counted, s.unique);
    once = omega (arith, posted, s.once);
    free = rw (found, posted) s.free;
    round = λ t same h. absurd (let q = row_of row todo t same in ground (arith, q, other, h));
  }

  pub stop :
      (rows : List Row) (sent : List Creation) (worker : Option Task)
      → SafeAt j rows sent worker
      → SafeAt j rows sent none
  stop rows sent worker s = record {
    unique = s.unique;
    once = s.once;
    free = s.free;
    round = λ t e h. absurd (cc);
  }

  -- The rest of a round is replaced by a handler.
  pub replace :
      (row : Row) (a : Act) (rest todo : List Act) (rows : List Row) (sent : List Creation)
      → ((st : Stage) → follows st (a ∷ rest) ≡ true → follows st todo ≡ true)
      → SafeAt j rows sent (task row (a ∷ rest))
      → SafeAt j rows sent (task row todo)
  replace row a rest todo rows sent h s = record {
    unique = s.unique;
    once = s.once;
    free = s.free;
    round = λ t same own.
        todo_of (λ x. TaskSafe (find_row j rows) (created_for j sent) x) row todo t same
          (handler (
            s.round (record { row = row; todo = a ∷ rest }) refl
              (let q = row_of row todo t same in ground (arith, q, own))));
  }
    where
      handler :
          TaskSafe (find_row j rows) (created_for j sent) (a ∷ rest)
          → TaskSafe (find_row j rows) (created_for j sent) todo
      handler k = record {
        stage = k.stage;
        path = h k.stage k.path;
        known = k.known;
        fresh = k.fresh;
        started = k.started;
        kept = k.kept;
      }

  -- A call that updates the row of its operation.
  pub where-SafeAt :
      (now : ℕ) (f : Row → Row) (row : Row) (a : Act) (rest : List Act) (rows : List Row)
      (sent : List Creation)
      → ((r : Row) → (f r).operation_id ≡ r.operation_id)
      → ((o : Option Row) → on_row f o ≡ on_row (effect now a) o)
      → created_for j sent ≡ posts_after a (created_for j sent)
      → SafeAt j rows sent (task row (a ∷ rest))
      → SafeAt j (map (where_id row.operation_id f) rows) sent (task row rest)
  where-SafeAt now f row a rest rows sent same is quiet s = elim (Bool-cases (has_id j row)) [
    | inl own ↦
        let e : row.operation_id ≡ j = ground (arith, own, eq_iff row.operation_id j) in
        advance_own now row a rest rows (map (where_id row.operation_id f) rows) sent sent own
          (rw e (find-where_own f same j rows ∙ is (find_row j rows)))
          (count-where f same row.operation_id j rows) quiet s
    | inr other ↦
        advance_other row rest rows (map (where_id row.operation_id f) rows) sent sent
          (task row (a ∷ rest)) other (find-where_other f same row.operation_id j rows other)
          (count-where f same row.operation_id j rows) refl s
  ]

pub review-follows :
    (a : Act) (rest : List Act) (text : String) (st : Stage)
    → follows st (a ∷ rest) ≡ true
    → follows st (send_to_review text ∷ []) ≡ true
unfolding follows
review-follows a rest text closed h = absurd (cc)
review-follows a rest text _ h = refl

pub defer-follows :
    (a : Act) (rest : List Act) (reason : String) (st : Stage)
    → follows st (a ∷ rest) ≡ true
    → follows st (defer reason ∷ []) ≡ true
unfolding follows
defer-follows a rest text closed h = absurd (cc)
defer-follows a rest text _ h = refl

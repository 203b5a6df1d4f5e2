-- ===== src/Tracking/Worker/Calls.antt =====
-- The calls of a round keep the invariant of every operation, and so does a call that raises.
use bokser_app.Prelude.{
  ℕ, String, ◌≡◌, refl, Option, none, some, List, [], ◌∷◌, arith, inl, inr, Bool-cases,
}
use bokser_app.Tracking.Store.{
  Row, Mapping, has_id, updated, deferred, update_initiation, defer_initiation, needs_review,
}
use bokser_app.Tracking.Initiation.{Act, update, create, bind, send_to_review, defer}
use bokser_app.Tracking.Worker.{Creation, World, task, creation, bound, perform, give_up}
use bokser_app.Tracking.Worker.Rows.{find_row, on_row}
use bokser_app.Tracking.Worker.Safety.{effect}
use bokser_app.Tracking.Worker.Advance.{
  SafeAt, advance_own, advance_other, stop, replace, where-SafeAt, review-follows, defer-follows,
}

-- The invariant of a world.
abbrev pub IsSafe : String → World → Type 0
IsSafe j w = SafeAt j w.rows w.sent w.worker

module _ (j : String) where
  create-SafeAt :
      (now : ℕ) (row : Row) (rest : List Act) (rows : List Row) (sent : List Creation)
      → SafeAt j rows sent (task row (create ∷ rest))
      → SafeAt j rows (creation row ∷ sent) (task row rest)
  create-SafeAt now row rest rows sent s = elim (Bool-cases (has_id j row)) [
    | inl own ↦
        advance_own j now row create rest rows rows sent (creation row ∷ sent) own
          (same_row (find_row j rows)) refl (ground (arith, own)) s
    | inr other ↦
        advance_other j row rest rows rows sent (creation row ∷ sent) (task row (create ∷ rest))
          other refl refl (ground (arith, other)) s
  ]
    where
      same_row : (o : Option Row) → o ≡ on_row (effect now create) o
      same_row none = refl
      same_row (some r) = refl

  bind-SafeAt :
      (now : ℕ) (row : Row) (cid : String) (rest : List Act) (o : Option (List Mapping)) (w : World)
      → SafeAt j w.rows w.sent (task row (bind cid ∷ rest))
      → IsSafe j (bound row rest o w)
  bind-SafeAt now row cid rest none w s =
      replace j row (bind cid) rest _ w.rows w.sent (review-follows (bind cid) rest _) s
  bind-SafeAt now row cid rest (some ms) w s = elim (Bool-cases (has_id j row)) [
    | inl own ↦
        advance_own j now row (bind cid) rest w.rows w.rows w.sent w.sent own
          (same_row (find_row j w.rows)) refl refl s
    | inr other ↦
        advance_other j row rest w.rows w.rows w.sent w.sent (task row (bind cid ∷ rest)) other refl
          refl refl s
  ]
    where
      same_row : (o : Option Row) → o ≡ on_row (effect now (bind cid)) o
      same_row none = refl
      same_row (some r) = refl

  pub perform-IsSafe :
      (now : ℕ) (row : Row) (todo : List Act) (w : World)
      → SafeAt j w.rows w.sent (task row todo)
      → IsSafe j (perform now row todo w)
  unfolding perform update_initiation defer_initiation
  perform-IsSafe now row [] w s = stop j w.rows w.sent (task row []) s
  perform-IsSafe now row (update st rid cid error ∷ rest) w s =
      where-SafeAt j now (updated now st rid cid error) row (update st rid cid error) rest w.rows
        w.sent (λ r. refl) (λ o. refl) refl s
  perform-IsSafe now row (create ∷ rest) w s = create-SafeAt now row rest w.rows w.sent s
  perform-IsSafe now row (bind cid ∷ rest) w s = bind-SafeAt now row cid rest _ w s
  perform-IsSafe now row (send_to_review text ∷ rest) w s =
      where-SafeAt j now (updated now needs_review none none (some text)) row (send_to_review text)
        rest w.rows w.sent (λ r. refl) (λ o. refl) refl s
  perform-IsSafe now row (defer reason ∷ rest) w s =
      where-SafeAt j now (deferred now reason) row (defer reason) rest w.rows w.sent (λ r. refl)
        (λ o. refl) refl s

  pub give_up-IsSafe :
      (reason : String) (row : Row) (todo : List Act) (w : World)
      → SafeAt j w.rows w.sent (task row todo)
      → IsSafe j (give_up reason row todo w)
  unfolding give_up
  give_up-IsSafe reason row [] w s = stop j w.rows w.sent (task row []) s
  give_up-IsSafe reason row (send_to_review text ∷ rest) w s =
      stop j w.rows w.sent (task row (send_to_review text ∷ rest)) s
  give_up-IsSafe reason row (defer other ∷ rest) w s =
      stop j w.rows w.sent (task row (defer other ∷ rest)) s
  give_up-IsSafe reason row (a ∷ rest) w s =
      replace j row a rest _ w.rows w.sent (defer-follows a rest reason) s

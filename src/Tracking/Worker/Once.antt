-- ===== src/Tracking/Worker/Once.antt =====
-- Every event keeps the invariant, so an operation creates one tracking request at most.
use bokser_app.Prelude.{◌≤◌, String, ◌≡◌, refl, subst, Option, none, some, List, [], ◌∷◌, arith}
use bokser_app.Tracking.Store.{Row, Mapping}
use bokser_app.Tracking.Initiation.{Act}
use bokser_app.Tracking.Worker.{
  Task, World, Event, queue, map_container, begin, act, fail, crash, task, perform, give_up,
  with_task, mapped, step, run, empty_world,
}
use bokser_app.Tracking.Worker.Advance.{created_for, SafeAt, stop}
use bokser_app.Tracking.Worker.Calls.{IsSafe, perform-IsSafe, give_up-IsSafe}
use bokser_app.Tracking.Worker.Starts.{begin-IsSafe, queued-IsSafe}

module _ (j : String) where
  mapped-IsSafe : (o : Option (List Mapping)) (w : World) → IsSafe j w → IsSafe j (mapped o w)
  mapped-IsSafe none w s = s
  mapped-IsSafe (some ms) w s = s

  with_task-IsSafe :
      (f : Row → List Act → World → World) (o : Option Task) (w : World)
      → ((row : Row) (todo : List Act) (v : World)
          → SafeAt j v.rows v.sent (task row todo)
          → IsSafe j (f row todo v))
      → w.worker ≡ o
      → IsSafe j w
      → IsSafe j (with_task f o w)
  with_task-IsSafe f none w h e s = s
  with_task-IsSafe f (some t) w h e s = h t.row t.todo w (subst (SafeAt j w.rows w.sent) e s)

  module _ (clean : String → String) (uuid : String → Option String) where
    step-IsSafe : (e : Event) (w : World) → IsSafe j w → IsSafe j (step clean uuid e w)
    unfolding step
    step-IsSafe (queue now oid odoo_id ref) w s = queued-IsSafe j clean uuid now oid odoo_id ref w s
    step-IsSafe (map_container now cid odoo_id number active refresh) w s = mapped-IsSafe _ w s
    step-IsSafe (begin tie now answers) w s = begin-IsSafe j clean uuid tie now answers w.worker w s
    step-IsSafe (act now) w s =
        with_task-IsSafe (perform now) w.worker w (perform-IsSafe j now) refl s
    step-IsSafe (fail reason) w s =
        with_task-IsSafe (give_up reason) w.worker w (give_up-IsSafe j reason) refl s
    step-IsSafe crash w s = stop j w.rows w.sent w.worker s

    run-IsSafe : (es : List Event) (w : World) → IsSafe j w → IsSafe j (run clean uuid es w)
    unfolding run
    run-IsSafe [] w s = s
    run-IsSafe (e ∷ es) w s = run-IsSafe es (step clean uuid e w) (step-IsSafe e w s)

  empty-IsSafe : IsSafe j empty_world
  empty-IsSafe = record {
    unique = omega arith;
    once = omega arith;
    free = λ h. refl;
    round = λ t e h. absurd (cc);
  }

-- From empty tables, whatever the API queues and binds, the provider answers, and wherever a call
-- raises or the worker stops, `create_tracking_request` is called at most once for an operation.
pub created_once :
    (clean : String → String) (uuid : String → Option String) (es : List Event) (oid : String)
    → created_for oid (run clean uuid es empty_world).sent ≤ 1
created_once clean uuid es oid = (run-IsSafe oid clean uuid es empty_world (empty-IsSafe oid)).once

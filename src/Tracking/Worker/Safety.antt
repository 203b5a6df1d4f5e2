-- ===== src/Tracking/Worker/Safety.antt =====
-- The invariant for one operation: whether its row allows a first submission, and what the round that
-- works on it may still do.
use bokser_app.Prelude.{
  ℕ, suc, ◌≤◌, String, ◌≡◌, refl, Bool, true, false, Option, none, some, List, ◌∷◌, leb, arith,
  if◌then◌else◌, inl, inr, Option-cases,
}
use bokser_app.Tracking.Store.{
  Status, queued, submitting, pending, needs_review, Row, updated, deferred,
}
use bokser_app.Tracking.Initiation.{Act, update, create, bind, send_to_review, defer}
use bokser_app.Tracking.Initiation.Stages.{
  Stage, unsent, armed, uncertain, tracked, closed, is_unsent, is_tracked, is_fresh, stage_at,
  stage_of, next_stage, follows, Move, arm, send, found, wait, linking, failing, binding, reviewing,
  deferring, next_stage-Move,
}

-- Whether a row, if there is one, allows a first submission, and whether it has a request's id.
abbrev pub may_start : Option Row → Bool
may_start none = true
may_start (some r) = is_unsent (stage_of r)

abbrev pub is_known : Option Row → Bool
is_known none = false
is_known (some r) = true

abbrev given : Option String → Bool
given none = false
given (some v) = true

abbrev pub has_request : Option Row → Bool
has_request none = false
has_request (some r) = given r.tracking_request_id

-- A first submission is out of the question.
abbrev pub is_begun : Stage → Bool
is_begun unsent = false
is_begun armed = true
is_begun uncertain = true
is_begun tracked = true
is_begun closed = false

-- What the round on the operation may still do, for its row and the number of requests created.
pub record TaskSafe (o : Option Row) (posts : ℕ) (todo : List Act) : Type 0 where
  pub stage : Stage
  pub path : follows stage todo ≡ true
  pub known : is_known o ≡ true
  pub fresh : is_fresh stage ≡ true → posts ≡ 0
  pub started : is_begun stage ≡ true → may_start o ≡ false
  pub kept : is_tracked stage ≡ true → has_request o ≡ true

-- What a call does to the operation's row, and to the number of requests created.
abbrev pub effect : ℕ → Act → Row → Row
effect now (update st rid cid error) r = updated now st rid cid error r
effect now (send_to_review text) r = updated now needs_review none none (some text) r
effect now (defer reason) r = deferred now reason r
effect now create r = r
effect now (bind cid) r = r

abbrev pub posts_after : Act → ℕ → ℕ
posts_after create n = suc n
posts_after _ n = n

-- The state after a call of the round.
pub record Next (r : Row) (posts : ℕ) (rest : List Act) : Type 0 where
  pub once : posts ≤ 1
  pub free : may_start (some r) ≡ true → posts ≡ 0
  pub task : TaskSafe (some r) posts rest

submitting-started : (o : Option String) → is_unsent (stage_at o submitting) ≡ false
submitting-started none = refl
submitting-started (some rid) = refl

given-started :
    (o : Option String) (st : Status) → given o ≡ true → is_unsent (stage_at o st) ≡ false
given-started none st h = cc
given-started (some rid) queued h = refl
given-started (some rid) submitting h = refl
given-started (some rid) pending h = refl
given-started (some rid) _ h = refl

review-started :
    (b : Bool) (o : Option String) (st : Status)
    → is_unsent (stage_at o (if b then needs_review else st)) ≡ true
    → is_unsent (stage_at o st) ≡ true
review-started true o st h = cc
review-started false o st h = h

-- A row that allows a first submission after a call did so before, and no request was created.
may_start-before :
    {s t : Stage} {a : Act} (now : ℕ) (r : Row)
    → Move s a t
    → (is_tracked s ≡ true → has_request (some r) ≡ true)
    → may_start (some (effect now a r)) ≡ true
    → may_start (some r) ≡ true
may_start-before now r arm kept h =
    absurd (ground (arith, submitting-started r.tracking_request_id))
may_start-before now r send kept h = h
may_start-before now r (found s rid) kept h = absurd (cc)
may_start-before now r (wait error) kept h =
    absurd (ground (arith, given-started r.tracking_request_id pending))
may_start-before now r (linking s cid) kept h = absurd (cc)
may_start-before now r (failing s text) kept h = absurd (cc)
may_start-before now r (binding s cid) kept h = h
may_start-before now r (reviewing s text) kept h = absurd (cc)
may_start-before now r (deferring s reason) kept h =
    review-started (leb 7 r.attempts) r.tracking_request_id r.status h

once-after :
    {s t : Stage} {a : Act} (posts : ℕ)
    → Move s a t
    → posts ≤ 1
    → (is_fresh s ≡ true → posts ≡ 0)
    → posts_after a posts ≤ 1
once-after posts send h fresh = omega (arith, fresh refl)
once-after posts arm h fresh = h
once-after posts _ h fresh = h

fresh-after :
    {s t : Stage} {a : Act} (posts : ℕ)
    → Move s a t
    → (is_fresh s ≡ true → posts ≡ 0)
    → is_fresh t ≡ true
    → posts_after a posts ≡ 0
fresh-after posts arm fresh h = fresh refl
fresh-after posts (binding s cid) fresh h = fresh h
fresh-after posts _ fresh h = absurd (cc)

free-after :
    {s t : Stage} {a : Act} (now : ℕ) (r : Row) (posts : ℕ)
    → Move s a t
    → (may_start (some r) ≡ true → posts ≡ 0)
    → (is_begun s ≡ true → may_start (some r) ≡ false)
    → (is_tracked s ≡ true → has_request (some r) ≡ true)
    → may_start (some (effect now a r)) ≡ true
    → posts_after a posts ≡ 0
free-after now r posts send free started kept h =
    let e : may_start (some r) ≡ false = started refl in absurd (cc)
free-after now r posts arm free started kept h = free (may_start-before now r arm kept h)
free-after now r posts m free started kept h = free (may_start-before now r m kept h)

started-after :
    {s t : Stage} {a : Act} (now : ℕ) (r : Row)
    → Move s a t
    → (is_begun s ≡ true → may_start (some r) ≡ false)
    → (is_tracked s ≡ true → has_request (some r) ≡ true)
    → is_begun t ≡ true
    → may_start (some (effect now a r)) ≡ false
started-after now r arm started kept h = submitting-started r.tracking_request_id
started-after now r send started kept h = started refl
started-after now r (found s rid) started kept h = refl
started-after now r (wait error) started kept h =
    given-started r.tracking_request_id pending (kept refl)
started-after now r (binding s cid) started kept h = started h
started-after now r _ started kept h = absurd (cc)

kept-after :
    {s t : Stage} {a : Act} (now : ℕ) (r : Row)
    → Move s a t
    → (is_tracked s ≡ true → has_request (some r) ≡ true)
    → is_tracked t ≡ true
    → has_request (some (effect now a r)) ≡ true
kept-after now r (found s rid) kept h = refl
kept-after now r (wait error) kept h = kept refl
kept-after now r (binding s cid) kept h = kept h
kept-after now r _ kept h = absurd (cc)

follows-cons :
    (s : Stage) (a : Act) (rest : List Act)
    → follows s (a ∷ rest) ≡ true
    → (t : Stage) × (next_stage s a ≡ some t) × (follows t rest ≡ true)
unfolding follows
follows-cons s a rest h = elim (Option-cases (next_stage s a)) [
  | inl refused ↦ absurd (ground (arith, refused))
  | inr (t, e) ↦ (t, e, ground (arith, e))
]

-- A call of the round keeps what is known of its operation.
pub task-Next :
    (now : ℕ) (a : Act) (rest : List Act) (r : Row) (posts : ℕ)
    → posts ≤ 1
    → (may_start (some r) ≡ true → posts ≡ 0)
    → TaskSafe (some r) posts (a ∷ rest)
    → Next (effect now a r) (posts_after a posts) rest
task-Next now a rest r posts once free task =
    let (t, e, p) = follows-cons task.stage a rest task.path in
    let m = next_stage-Move task.stage t a e in
    record {
      once = once-after posts m once task.fresh;
      free = free-after now r posts m free task.started task.kept;
      task = record {
        stage = t;
        path = p;
        known = refl;
        fresh = fresh-after posts m task.fresh;
        started = started-after now r m task.started task.kept;
        kept = kept-after now r m task.kept;
      };
    }

-- ===== src/Shipments/Worker/Safety.antt =====
-- No queue row is posted twice: the invariant of a world for one queue id, and its preservation by
-- every event.
pub mod Claims
pub mod Posts
use bokser_app.Prelude.{
  ℕ, ◌≤◌, String, ◌≡◌, Bool, true, false, Option, List, map, any, arith, ◌==◌, any-map, count,
}
use bokser_app.Shipments.Queue.{
  Row, Db, Status, Message, is_pending, conflict_update, update_key, is_claimable, conclude,
  update_id,
}
use bokser_app.Shipments.Worker.{Phase, claimed, World, set_phase}

-- Some row with the id waits for a claim.
abbrev pub any_claimable : ℕ → List Row → Bool
any_claimable j rows = any (is_claimable j) rows

-- A worker has claimed the id and not posted it yet.
abbrev pub holds : Phase → ℕ → Bool
holds (claimed r) j = r.id == j
holds _ j = false

-- Nothing was posted for the id, and nobody is about to.
pub record Waits (j : ℕ) (w : World) : Type 0 where
  pub no_post : count j w.posts ≡ 0
  pub no_holder : (k : ℕ) → holds (w.workers k) j ≡ false

pub record SafeAt (j : ℕ) (w : World) : Type 0 where
  pub once : count j w.posts ≤ 1
  pub fresh_rows : w.db.next_id ≤ j → any_claimable j w.db.rows ≡ false
  pub fresh_waits : w.db.next_id ≤ j → Waits j w
  pub waiting : any_claimable j w.db.rows ≡ true → Waits j w
  pub holding : (k : ℕ) → holds (w.workers k) j ≡ true → count j w.posts ≡ 0
  pub single : (k l : ℕ) → holds (w.workers k) j ≡ true → holds (w.workers l) j ≡ true → k ≡ l

-- A step that posts nothing, gives nobody the id, and makes it claimable only if it waits.
pub keep :
    (j : ℕ) (w : World) (db' : Db) (ws' : ℕ → Phase)
    → SafeAt j w
    → w.db.next_id ≤ db'.next_id
    → (db'.next_id ≤ j → any_claimable j db'.rows ≡ false)
    → (any_claimable j db'.rows ≡ true → Waits j w)
    → ((k : ℕ) → holds (ws' k) j ≡ true → holds (w.workers k) j ≡ true)
    → SafeAt j (record { db = db'; posts = w.posts; workers = ws' })
keep j w db' ws' s grows fresh pend back = record {
  once = s.once;
  fresh_rows = fresh;
  fresh_waits = λ le. still (s.fresh_waits (omega arith));
  waiting = λ h. still (pend h);
  holding = λ k h. s.holding k (back k h);
  single = λ k l hk hl. s.single k l (back k hk) (back l hl);
}
  where
    still : Waits j w → Waits j (record { db = db'; posts = w.posts; workers = ws' })
    still x = record { no_post = x.no_post; no_holder = λ k. ground (arith, back k, x.no_holder k) }

-- `set_phase` with a phase that does not hold the id.
pub set_phase_back :
    (j k : ℕ) (p : Phase) (ws : ℕ → Phase)
    → holds p j ≡ false
    → (l : ℕ) → holds (set_phase k p ws l) j ≡ true
    → holds (ws l) j ≡ true
set_phase_back j k p ws h l = ground arith

-- A change of the table by a map that makes no row claimable.
pub keep_map :
    (j : ℕ) (w : World) (g : Row → Row) (ws' : ℕ → Phase)
    → SafeAt j w
    → ((r : Row) → is_claimable j (g r) ≡ true → is_claimable j r ≡ true)
    → ((k : ℕ) → holds (ws' k) j ≡ true → holds (w.workers k) j ≡ true)
    → SafeAt j
        (record { db = record w.db { rows = map g w.db.rows }; posts = w.posts; workers = ws' })
keep_map j w g ws' s quiet back =
    keep j w (record w.db { rows = map g w.db.rows }) ws' s (omega arith)
      (λ le. ground (arith, s.fresh_rows le, any-map (is_claimable j) g w.db.rows quiet))
      (λ h. s.waiting (any-map (is_claimable j) g w.db.rows quiet h)) back

pub quiet_update_key :
    (j : ℕ) (s i h : String) (r : Row)
    → is_claimable j (update_key s i h r) ≡ true
    → is_claimable j r ≡ true
unfolding conflict_update
quiet_update_key j s i h r = ground arith

-- `_finish_attempt` makes no row pending, unless it is told to.
pub quiet_conclude :
    (j : ℕ) (c : Row) (st : Status) (e : Option Message) (n : Option ℕ) (r : Row)
    → is_pending st ≡ false
    → is_claimable j (update_id c.id (conclude c st e n) r) ≡ true
    → is_claimable j r ≡ true
unfolding conclude
quiet_conclude j c st e n r np = ground arith

-- ===== src/Ksp/Worker/Safety.antt =====
-- The invariant for one order code: nobody may post it again while an earlier POST may have been
-- accepted.
pub mod Responses
pub mod Submits
pub mod Posts
pub mod Records
use bokser_app.Prelude.{
  ℕ, suc, ◌+◌, ◌≤◌, String, ◌≡◌, refl, Bool, true, false, ◌&&◌, ◌||◌, Option, none, some, List, [],
  ◌∷◌, ◌++◌, map, any, arith, ◌==◌, str_eq, eq_iff, if◌then◌else◌, ◌⊎◌, inl, inr, Bool-cases,
  any-map, any-map_same,
}
use bokser_app.Json.{Json}
use bokser_app.Ksp.Journal.{
  Binding, Db, State, is_ready, has_code, is_startable, set_one, set_state,
}
use bokser_app.Ksp.Worker.{
  Answer, Phase, owner, answered, World, is_limited, set_phase, go, accept_response, accept_tracked,
}

abbrev pub count_code : String → List String → ℕ
count_code j [] = 0
count_code j (c ∷ cs) = if str_eq c j then suc (count_code j cs) else count_code j cs

-- Worker phases between `start_post` and the POST, and between the POST and the record of a 429.
abbrev pub owns : Phase → String → Bool
owns (owner c) j = str_eq c j
owns _ j = false

abbrev pub has_limited : Phase → String → Bool
has_limited (answered c a) j = str_eq c j && is_limited a
has_limited _ j = false

-- Between `start_post` and the record of the answer.
abbrev pub inflight : Phase → String → Bool
inflight (owner c) j = str_eq c j
inflight (answered c a) j = str_eq c j
inflight _ j = false

abbrev pub posts_of : String → World → ℕ
posts_of j w = count_code j w.posts

abbrev pub limited_of : String → World → ℕ
limited_of j w = count_code j w.limited

-- Every POST was answered 429, and none is under way.
pub record Free (j : String) (w : World) : Type 0 where
  pub all_limited : posts_of j w ≤ limited_of j w
  pub nobody : (k : ℕ) → inflight (w.workers k) j ≡ false

pub record SafeAt (j : String) (w : World) : Type 0 where
  pub once : posts_of j w ≤ limited_of j w + 1
  pub unknown : any (has_code j) w.db.bindings ≡ false → Free j w
  pub startable : any (is_startable j) w.db.bindings ≡ true → Free j w
  pub holding : (k : ℕ) → owns (w.workers k) j ≡ true → posts_of j w ≤ limited_of j w
  pub refused : (k : ℕ) → has_limited (w.workers k) j ≡ true → posts_of j w ≤ limited_of j w
  pub single : (k l : ℕ) → inflight (w.workers k) j ≡ true → inflight (w.workers l) j ≡ true → k ≡ l

-- A phase with nothing under way for the code.
pub record IsQuiet (j : String) (p : Phase) : Type 0 where
  pub not_inflight : inflight p j ≡ false
  pub not_owner : owns p j ≡ false
  pub not_limited : has_limited p j ≡ false

pub quiet :
    {j : String} {p : Phase}
    → inflight p j ≡ false
    → owns p j ≡ false
    → has_limited p j ≡ false
    → IsQuiet j p
quiet a b c = record { not_inflight = a; not_owner = b; not_limited = c }

-- A step that posts nothing and makes the code startable only where it was free.
pub keep :
    (j : String) (k : ℕ) (p : Phase) (db' : Db) (w : World)
    → SafeAt j w
    → IsQuiet j p
    → (any (has_code j) db'.bindings ≡ false → Free j w)
    → (any (is_startable j) db'.bindings ≡ true → Free j w)
    → SafeAt j (go k p db' w)
keep j k p db' w s q new start = record {
  once = s.once;
  unknown = λ h. still (new h);
  startable = λ h. still (start h);
  holding = λ l h. ground (arith, s.holding l, q.not_owner);
  refused = λ l h. ground (arith, s.refused l, q.not_limited);
  single = λ l m hl hm. s.single l m (back l hl) (back m hm);
}
  where
    back : (l : ℕ) → inflight (set_phase k p w.workers l) j ≡ true → inflight (w.workers l) j ≡ true
    back l h = ground (arith, q.not_inflight)

    still : Free j w → Free j (go k p db' w)
    still f = record {
      all_limited = f.all_limited;
      nobody = λ l. ground (arith, f.nobody l, q.not_inflight);
    }

-- A change of the bindings by a map that keeps codes and makes none startable.
pub keep_map :
    (j : String) (k : ℕ) (p : Phase) (g : Binding → Binding) (w : World)
    → SafeAt j w
    → IsQuiet j p
    → ((b : Binding) → has_code j (g b) ≡ has_code j b)
    → ((b : Binding) → is_startable j (g b) ≡ true → is_startable j b ≡ true)
    → SafeAt j (go k p (record w.db { bindings = map g w.db.bindings }) w)
keep_map j k p g w s q same quiet =
    keep j k p (record w.db { bindings = map g w.db.bindings }) w s q
      (λ h. ground (arith, s.unknown, any-map_same (has_code j) g w.db.bindings same))
      (λ h. s.startable (any-map (is_startable j) g w.db.bindings quiet h))

pub stay :
    (j : String) (k : ℕ) (p : Phase) (w : World)
    → SafeAt j w
    → IsQuiet j p
    → SafeAt j (go k p w.db w)
stay j k p w s q = keep j k p w.db w s q s.unknown s.startable

pub has_code-set_one :
    (j code : String) (st : State) (o : Option String) (l : Option Json) (n : Option String)
    (b : Binding)
    → has_code j (set_one code st o l n b) ≡ has_code j b
has_code-set_one j code st o l n b = ground arith

startable-set_one :
    (j code : String) (st : State) (o : Option String) (l : Option Json) (n : Option String)
    (b : Binding)
    → is_ready st ≡ false
    → is_startable j (set_one code st o l n b) ≡ true
    → is_startable j b ≡ true
startable-set_one j code st o l n b h = ground arith

pub set_state-SafeAt :
    (j : String) (k : ℕ) (p : Phase) (code : String) (st : State) (o : Option String)
    (l : Option Json) (n : Option String) (w : World)
    → SafeAt j w
    → IsQuiet j p
    → is_ready st ≡ false
    → SafeAt j (go k p (set_state code st o l n w.db) w)
unfolding set_state
set_state-SafeAt j k p code st o l n w s q h =
    keep_map j k p (set_one code st o l n) w s q (has_code-set_one j code st o l n)
      (λ b. startable-set_one j code st o l n b h)

-- A response moves the code to a state other than ready, if it moves it at all.
abbrev pub Moved : String → Db → Db → Type 0
Moved code db db' =
    (db' ≡ db)
    ⊎ ((st : State) × (o : Option String) × (l : Option Json) × (n : Option String) × (is_ready st
          ≡ false)
        × (db' ≡ set_state code st o l n db))

pub Moved-SafeAt :
    (j : String) (k : ℕ) (p : Phase) (code : String) (db' : Db) (w : World)
    → SafeAt j w
    → IsQuiet j p
    → Moved code w.db db'
    → SafeAt j (go k p db' w)
Moved-SafeAt j k p code db' w s q (inl same) = rw same (stay j k p w s q)
Moved-SafeAt j k p code db' w s q (inr (st, o, l, n, h, e)) =
    rw e (set_state-SafeAt j k p code st o l n w s q h)

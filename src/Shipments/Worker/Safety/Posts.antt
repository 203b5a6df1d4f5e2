-- ===== src/Shipments/Worker/Safety/Posts.antt =====
-- A POST keeps the invariant.
use bokser_app.Prelude.{ℕ, ◌≡◌, refl, true, false, ◌∷◌, arith, ◌==◌, ap, ◌∙◌, inl, inr, Bool-cases}
use bokser_app.Shipments.Queue.{Row}
use bokser_app.Shipments.Response.{PostResult}
use bokser_app.Shipments.Worker.{claimed, posted, World, set_phase, post_step}
use bokser_app.Shipments.Worker.Safety.{holds, Waits, SafeAt, set_phase_back}

module _ (j : ℕ) where
  -- The POST of the row that the worker holds: nobody holds the id any more.
  post_self :
      (k : ℕ) (result : PostResult) (r : Row) (w : World)
      → holds (w.workers k) j ≡ true
      → (r.id == j) ≡ true
      → SafeAt j w
      → SafeAt j (post_step k result (claimed r) w)
  unfolding post_step
  post_self k result r w held same s = record {
    once = ground (arith, s.holding k held);
    fresh_rows = s.fresh_rows;
    fresh_waits = λ le. absurd (cc ((s.fresh_waits le).no_holder k));
    waiting = λ c. absurd (cc ((s.waiting c).no_holder k));
    holding = λ l h. absurd (nobody l h);
    single = λ l m hl hm. absurd (nobody l hl);
  }
    where
      nobody : (l : ℕ) → holds (set_phase k (posted r result) w.workers l) j ≡ true → ⊥
      nobody l h = ground (arith, s.single k l held)

  post_other :
      (k : ℕ) (result : PostResult) (r : Row) (w : World)
      → (r.id == j) ≡ false
      → SafeAt j w
      → SafeAt j (post_step k result (claimed r) w)
  unfolding post_step
  post_other k result r w other s = record {
    once = ground (arith, s.once);
    fresh_rows = s.fresh_rows;
    fresh_waits = λ le. still (s.fresh_waits le);
    waiting = λ c. still (s.waiting c);
    holding = λ l h. ground (arith, s.holding l (back l h));
    single = λ l m hl hm. s.single l m (back l hl) (back m hm);
  }
    where
      back :
          (l : ℕ)
          → holds (set_phase k (posted r result) w.workers l) j ≡ true
          → holds (w.workers l) j ≡ true
      back = set_phase_back j k (posted r result) w.workers refl

      still :
          Waits j w
          → Waits j (record w {
            posts = r.id ∷ w.posts;
            workers = set_phase k (posted r result) w.workers;
          })
      still x = record {
        no_post = ground (arith, x.no_post);
        no_holder = λ l. ground (arith, back l, x.no_holder l);
      }

  pub post-SafeAt :
      (k : ℕ) (result : PostResult) (r : Row) (w : World)
      → w.workers k ≡ claimed r
      → SafeAt j w
      → SafeAt j (post_step k result (claimed r) w)
  post-SafeAt k result r w e s = elim (Bool-cases (r.id == j)) [
    | inl same ↦ post_self k result r w (ap (λ p. holds p j) e ∙ same) same s
    | inr other ↦ post_other k result r w other s
  ]

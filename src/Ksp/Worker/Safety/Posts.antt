-- ===== src/Ksp/Worker/Safety/Posts.antt =====
-- A POST keeps the invariant.
use bokser_app.Prelude.{ℕ, String, ◌≡◌, true, false, arith, str_eq, ap, ◌∙◌}
use bokser_app.Ksp.Worker.{Answer, Phase, owner, answered, World, set_phase, post_step}
use bokser_app.Ksp.Worker.Safety.{owns, has_limited, inflight, Free, SafeAt}

module _ (j : String) where
  -- The POST of the code by its owner.
  pub own_post-SafeAt :
      (k : ℕ) (a : Answer) (code : String) (w : World)
      → w.workers k ≡ owner code
      → str_eq code j ≡ true
      → SafeAt j w
      → SafeAt j (post_step k a (owner code) w)
  unfolding post_step
  own_post-SafeAt k a code w e same s = record {
    once = ground (arith, s.holding k held);
    unknown = λ h. absurd (ground (arith, (s.unknown h).nobody k));
    startable = λ h. absurd (ground (arith, (s.startable h).nobody k));
    holding = λ l h. absurd (ground (arith, owner_inflight (w.workers l), alone l));
    refused = λ l h. ground (arith, s.holding k held, limited_inflight (w.workers l), alone l);
    single = λ l m hl hm. s.single l m (back l hl) (back m hm);
  }
    where
      held : owns (w.workers k) j ≡ true
      held = ap (λ p. owns p j) e ∙ same

      flying : inflight (w.workers k) j ≡ true
      flying = ap (λ p. inflight p j) e ∙ same

      alone : (l : ℕ) → inflight (w.workers l) j ≡ true → l ≡ k
      alone l h = s.single l k h flying

      owner_inflight : (p : Phase) → owns p j ≡ true → inflight p j ≡ true
      owner_inflight p = ground arith

      limited_inflight : (p : Phase) → has_limited p j ≡ true → inflight p j ≡ true
      limited_inflight p = ground arith

      back :
          (l : ℕ)
          → inflight (set_phase k (answered code a) w.workers l) j ≡ true
          → inflight (w.workers l) j ≡ true
      back l h = ground (arith, flying)

  pub other_post-SafeAt :
      (k : ℕ) (a : Answer) (code : String) (w : World)
      → str_eq code j ≡ false
      → SafeAt j w
      → SafeAt j (post_step k a (owner code) w)
  unfolding post_step
  other_post-SafeAt k a code w other s = record {
    once = ground (arith, s.once);
    unknown = λ h. still (s.unknown h);
    startable = λ h. still (s.startable h);
    holding = λ l h. ground (arith, s.holding l);
    refused = λ l h. ground (arith, s.refused l);
    single = λ l m hl hm. s.single l m (back l hl) (back m hm);
  }
    where
      back :
          (l : ℕ)
          → inflight (set_phase k (answered code a) w.workers l) j ≡ true
          → inflight (w.workers l) j ≡ true
      back l h = ground arith

      still : Free j w → Free j (post_step k a (owner code) w)
      still f = record {
        all_limited = ground (arith, f.all_limited);
        nobody = λ l. ground (arith, f.nobody l);
      }

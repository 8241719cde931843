-- ===== src/System/Schedule.antt =====
-- A schedule of threads on surroundings that answer every command by a function, and that it is one
-- of the interleavings.
use mathlib.Core.Logic.{if_pos, if_neg}
use native.Mathlib.Decide.{ℕ_discrete}
use uds_policy.Common.{ℕ, zero, suc, subst, ◌≡◌, ◌∙◌, refl, List, [], ◌∷◌}
use uds_policy.System.{Io, ret, exec, Handler, run}
use uds_policy.System.Threads.{Answers, Pool, Reach, advance, start, later, update}

abbrev pub follows : {S : Type 0} → Handler S → Answers S
follows h c s r t = (r ≡ (h c s).0) × (t ≡ (h c s).1)

module _ {S A : Type 0} (h : Handler S) where
  -- One command of thread `i`; a thread that has returned makes none.
  abbrev advanced : ℕ → Pool S A → Io A → Pool S A
  advanced i p (ret a) = p
  advanced i p (exec c k) = record {
    shared = (h c p.shared).1;
    threads = update p.threads i (k (h c p.shared).0);
  }

  abbrev pub play : List ℕ → Pool S A → Pool S A
  play [] p = p
  play (i ∷ is) p = play is (advanced i p (p.threads i))

  advanced-Reach :
      (i : ℕ) (p q : Pool S A) (t : Io A)
      → q.threads i ≡ t
      → Reach (follows h) p q
      → Reach (follows h) p (advanced i q t)
  advanced-Reach i p q (ret a) e r = r
  advanced-Reach i p q (exec c k) e r =
      later r (advance i c k (h c q.shared).0 (h c q.shared).1 e (refl, refl) refl)

  pub play-Reach :
      (is : List ℕ) (p q : Pool S A) → Reach (follows h) p q → Reach (follows h) p (play is q)
  play-Reach [] p q r = r
  play-Reach (i ∷ is) p q r =
      play-Reach is p (advanced i q (q.threads i)) (advanced-Reach i p q (q.threads i) refl r)

  -- What is reached when one thread runs to its end and the others wait.
  pub record Ran (p : Pool S A) (i : ℕ) (a : A) (t : S) : Type 0 where
    pub pool : Pool S A
    pub reached : Reach (follows h) p pool
    pub returned : pool.threads i ≡ ret a
    pub left : pool.shared ≡ t
    pub others : (j : ℕ) → ¬ (i ≡ j) → pool.threads j ≡ p.threads j

  ran_from :
      (m : Io A) (p q : Pool S A) (i : ℕ)
      → q.threads i ≡ m
      → Reach (follows h) p q
      → ((j : ℕ) → ¬ (i ≡ j) → q.threads j ≡ p.threads j)
      → Ran p i (run h m q.shared).result (run h m q.shared).state
  ran_from (ret a) p q i e reach same = record {
    pool = q;
    reached = reach;
    returned = e;
    left = refl;
    others = same;
  }
  ran_from (exec c k) p q i e reach same =
      ran_from (k (h c q.shared).0) p (advanced i q (exec c k)) i
        (if_pos (ℕ_discrete i i) refl _ (q.threads i)) (advanced-Reach i p q (exec c k) e reach)
        (λ j other. if_neg (ℕ_discrete i j) other _ (q.threads j) ∙ same j other)

  pub ran :
      (p : Pool S A) (i : ℕ) (m : Io A)
      → p.threads i ≡ m
      → Ran p i (run h m p.shared).result (run h m p.shared).state
  ran p i m e = ran_from m p p i e start (λ j other. refl)

  pub ran_at :
      (p : Pool S A) (i : ℕ) (m : Io A) (s : S)
      → p.threads i ≡ m
      → p.shared ≡ s
      → Ran p i (run h m s).result (run h m s).state
  ran_at p i m s e f = subst (λ t. Ran p i (run h m t).result (run h m t).state) f (ran p i m e)

  -- What is left of a program after some of its commands, and the state that they leave.
  abbrev pub gone : ℕ → Io A → S → Io A × S
  gone zero m s = (m, s)
  gone (suc n) (ret a) s = (ret a, s)
  gone (suc n) (exec c k) s = gone n (k (h c s).0) (h c s).1

  -- What is reached when one thread makes some commands and the others wait.
  pub record Went (p : Pool S A) (i : ℕ) (m : Io A) (t : S) : Type 0 where
    pub pool : Pool S A
    pub reached : Reach (follows h) p pool
    pub rest : pool.threads i ≡ m
    pub left : pool.shared ≡ t
    pub others : (j : ℕ) → ¬ (i ≡ j) → pool.threads j ≡ p.threads j

  went_from :
      (n : ℕ) (m : Io A) (p q : Pool S A) (i : ℕ)
      → q.threads i ≡ m
      → Reach (follows h) p q
      → ((j : ℕ) → ¬ (i ≡ j) → q.threads j ≡ p.threads j)
      → Went p i (gone n m q.shared).0 (gone n m q.shared).1
  went_from zero m p q i e reach same = record {
    pool = q;
    reached = reach;
    rest = e;
    left = refl;
    others = same;
  }
  went_from (suc n) (ret a) p q i e reach same = record {
    pool = q;
    reached = reach;
    rest = e;
    left = refl;
    others = same;
  }
  went_from (suc n) (exec c k) p q i e reach same =
      went_from n (k (h c q.shared).0) p (advanced i q (exec c k)) i
        (if_pos (ℕ_discrete i i) refl _ (q.threads i)) (advanced-Reach i p q (exec c k) e reach)
        (λ j other. if_neg (ℕ_discrete i j) other _ (q.threads j) ∙ same j other)

  pub went :
      (n : ℕ) (p : Pool S A) (i : ℕ)
      → Went p i (gone n (p.threads i) p.shared).0 (gone n (p.threads i) p.shared).1
  went n p i = went_from n (p.threads i) p p i refl start (λ j other. refl)

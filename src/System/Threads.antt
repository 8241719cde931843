-- ===== src/System/Threads.antt =====
-- Several programs on one shared state, one command at a time: each command is atomic, and between
-- two commands of one thread any others may run.
pub mod Rely
pub mod Guarantee
use mathlib.Core.Logic.{ite, if_pos, if_neg}
use native.Mathlib.Decide.{ℕ_discrete}
use uds_policy.Common.{ℕ, ◌≡◌}
use uds_policy.System.{Command, Answer, Io, ret, exec}

abbrev pub update {ℓ} : {A : Type ℓ} → (ℕ → A) → ℕ → A → ℕ → A
update f i a j = ite (ℕ_discrete i j) a (f j)

pub record Pool (S A : Type 0) : Type 0 where
  pub shared : S
  pub threads : ℕ → Io A

-- What the surroundings may answer to a command, and the state that they leave.
abbrev pub Answers : Type 0 → Type 1
Answers S = (c : Command) → S → Answer c → S → Type 0

module _ {S A : Type 0} (may : Answers S) where
  pub data Step (p q : Pool S A) : Type 0 where
    advance :
        (i : ℕ) (c : Command) (k : Answer c → Io A) (r : Answer c) (s : S)
        → p.threads i ≡ exec c k
        → may c p.shared r s
        → q ≡ record { shared = s; threads = update p.threads i (k r) }
        → Step p q

  pub data Reach (p : Pool S A) : Pool S A → Type 0 where
    start : Reach p p
    later : {q r : Pool S A} → Reach p q → Step q r → Reach p r

pub Reach-trans :
    {S A : Type 0} {may : Answers S} {p q r : Pool S A}
    → Reach may p q
    → Reach may q r
    → Reach may p r
Reach-trans first start = first
Reach-trans first (later more step) = later (Reach-trans first more) step

-- What is reached with fewer answers is reached with more.
pub Reach-mono :
    {S A : Type 0} {few many : Answers S} {p q : Pool S A}
    → ((c : Command) (s : S) (r : Answer c) (t : S) → few c s r t → many c s r t)
    → Reach few p q
    → Reach many p q
Reach-mono more start = start
Reach-mono more (later reach (advance i c k r s here m e)) =
    later (Reach-mono more reach) (advance i c k r s here (more c _ r s m) e)

-- Rely and guarantee: `Fine` commands keep the invariant, and their answers fit.
module _ {S A : Type 0} (may : Answers S) (Inv : S → Type 0) (Fine : Command → Type 0)
    (Fits : (c : Command) → Answer c → Type 0) where
  -- A program that makes only fine commands, as long as the answers fit, and returns in `Post`.
  abbrev pub Good : (A → Type 0) → Io A → Type 0
  Good Post (ret a) = Post a
  Good Post (exec c k) = Fine c × ((r : Answer c) → Fits c r → Good Post (k r))

  module _
      (keeps : (c : Command) (s : S) (r : Answer c) (t : S)
        → may c s r t
        → Fine c
        → Inv s
        → Inv t × Fits c r)
      (Post : ℕ → A → Type 0) where
    pub record IsGood (p : Pool S A) : Type 0 where
      pub shared : Inv p.shared
      pub threads : (i : ℕ) → Good (Post i) (p.threads i)

    Step-IsGood : {p q : Pool S A} → Step may p q → IsGood p → IsGood q
    Step-IsGood {p} (advance i c k r s here m e) g =
        let now : Good (Post i) (exec c k) = rw here at (g.threads i) in
        let after = keeps c p.shared r s m now.0 g.shared in
        rw e (record {
          shared = after.0;
          threads = λ j. elim (ℕ_discrete i j) [
            | yes same ↦ rw (if_pos _ same) (rw (← same) (now.1 r after.1))
            | no other ↦ rw (if_neg _ other) (g.threads j)
          ];
        })

    pub Reach-IsGood : {p q : Pool S A} → Reach may p q → IsGood p → IsGood q
    Reach-IsGood start g = g
    Reach-IsGood (later r st) g = Step-IsGood st (Reach-IsGood r g)

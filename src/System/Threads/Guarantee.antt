-- ===== src/System/Threads/Guarantee.antt =====
-- Threads that do not do the same: each relies on an order of states of its own, and guarantees the
-- orders of the others with every command that it makes.
use mathlib.Core.Logic.{if_pos, if_neg}
use native.Mathlib.Decide.{ℕ_discrete}
use uds_policy.Common.{ℕ, ◌≡◌, subst}
use uds_policy.System.{Command, Answer, Io, ret, exec, ◌>>=◌}
use uds_policy.System.Only.{Only}
use uds_policy.System.Threads.{Answers, Pool, Step, Reach, advance, start, later}

-- What all threads keep, and what the others may change in the view of each.
pub record Views (S : Type 0) : Type 1 where
  pub Inv : S → Type 0
  pub Later : ℕ → S → S → Type 0
  pub later_refl : (i : ℕ) (s : S) → Later i s s
  pub Later-trans : (i : ℕ) (s t u : S) → Later i s t → Later i t u → Later i s u

module _ {S : Type 0} (may : Answers S) (views : Views S) where
  open views use {Inv, Later, later_refl, Later-trans}

  -- What a command of thread `i` guarantees.
  abbrev pub Guaranteed : ℕ → S → S → Type 0
  Guaranteed i s t = Inv t × ((j : ℕ) → ¬ (i ≡ j) → Later j s t)

  -- A program of thread `i` that, begun at `s` or later in its view, guarantees all of its commands
  -- and returns in `Post`.
  abbrev pub Secure : {A : Type 0} → ℕ → (A → S → Type 0) → S → Io A → Type 0
  Secure i Post s (ret a) = Post a s
  Secure i Post s (exec c k) =
      (s' : S) (r : Answer c) (t : S)
      → Later i s s'
      → Inv s'
      → may c s' r t
      → Guaranteed i s' t × Secure i Post t (k r)

  pub Secure->>= :
      {A B : Type 0} (i : ℕ) (Mid : A → S → Type 0) (Post : B → S → Type 0) (m : Io A)
      (f : A → Io B) (s : S)
      → Secure i Mid s m
      → ((a : A) (t : S) → Mid a t → Secure i Post t (f a))
      → Secure i Post s (m >>= f)
  Secure->>= i Mid Post (ret a) f s g next = next a s g
  Secure->>= i Mid Post (exec c k) f s g next = λ s' r t l v m.
      let (kept, more) = g s' r t l v m in (kept, Secure->>= i Mid Post (k r) f t more next)

  -- Commands that change nothing, in a view that others do not take back.
  pub Secure-quiet :
      {A : Type 0} (i : ℕ) (Known : S → Type 0) (Quiet : Command → Type 0)
      → ((s t : S) → Later i s t → Known s → Known t)
      → ((c : Command) (s : S) (r : Answer c) (t : S) → Quiet c → may c s r t → t ≡ s)
      → (m : Io A) (s : S) → Only Quiet m
      → Known s
      → Secure i (λ a t. Known t) s m
  Secure-quiet i Known Quiet stable same (ret a) s o known = known
  Secure-quiet i Known Quiet stable same (exec c k) s o known = λ s' r t l v m.
      rw (same c s' r t o.0 m) (
        (v, λ j other. later_refl j s'),
        Secure-quiet i Known Quiet stable same (k r) s' (o.1 r) (stable s s' l known),
      )

  module _ {A : Type 0} (Post : ℕ → A → S → Type 0)
      (stable : (i : ℕ) (a : A) (s t : S) → Later i s t → Post i a s → Post i a t) where
    Secure-Later :
        (i : ℕ) (m : Io A) (s t : S) → Later i s t → Secure i (Post i) s m → Secure i (Post i) t m
    Secure-Later i (ret a) s t l g = stable i a s t l g
    Secure-Later i (exec c k) s t l g = λ s' r u l' v m. g s' r u (Later-trans i s t s' l l') v m

    pub record IsSecure (p : Pool S A) : Type 0 where
      pub shared : Inv p.shared
      pub threads : (i : ℕ) → Secure i (Post i) p.shared (p.threads i)

    Step-IsSecure : {p q : Pool S A} → Step may p q → IsSecure p → IsSecure q
    Step-IsSecure {p} (advance i c k r s here m e) g =
        let now : Secure i (Post i) p.shared (exec c k) = rw here at (g.threads i) in
        let ((inv, others), more) = now p.shared r s (later_refl i p.shared) g.shared m in
        rw e (record {
          shared = inv;
          threads = λ j. elim (ℕ_discrete i j) [
            | yes same ↦ rw (if_pos _ same) (subst (λ n. Secure n (Post n) s (k r)) same more)
            | no other ↦
                rw (if_neg _ other) (Secure-Later j _ p.shared s (others j other) (g.threads j))
          ];
        })

    pub Reach-IsSecure : {p q : Pool S A} → Reach may p q → IsSecure p → IsSecure q
    Reach-IsSecure start g = g
    Reach-IsSecure (later r st) g = Step-IsSecure st (Reach-IsSecure r g)

-- ===== src/System/Threads/Rely.antt =====
-- Threads that know of the shared state what no other thread can take back: rely and guarantee over
-- an order of states that every command of every thread climbs.
use mathlib.Core.Logic.{if_pos, if_neg}
use native.Mathlib.Decide.{ℕ_discrete}
use uds_policy.Common.{ℕ}
use uds_policy.System.{Command, Answer, Io, ret, exec, ◌>>=◌}
use uds_policy.System.Threads.{Answers, Pool, Step, Reach, advance, start, later}

-- What the commands of all threads keep, and the order that they climb.
pub record Rely {S : Type 0} (may : Answers S) (Fine : Command → Type 0) : Type 1 where
  pub Inv : S → Type 0
  pub Later : S → S → Type 0
  pub later_refl : (s : S) → Later s s
  pub Later-trans : (s t u : S) → Later s t → Later t u → Later s u
  pub keeps :
      (c : Command) (s : S) (r : Answer c) (t : S)
      → may c s r t
      → Fine c
      → Inv s
      → Inv t × Later s t

module _ {S : Type 0} (may : Answers S) (Fine : Command → Type 0) (rely : Rely may Fine) where
  open rely use {Inv, Later, later_refl, Later-trans, keeps}

  -- A program that, begun at `s` or later, makes only fine commands and returns in `Post`.
  abbrev pub Secure : {A : Type 0} → (A → S → Type 0) → S → Io A → Type 0
  Secure Post s (ret a) = Post a s
  Secure Post s (exec c k) =
      Fine c
      × ((s' : S) (r : Answer c) (t : S) → Later s s' → Inv s' → may c s' r t → Secure Post t (k r))

  pub Secure->>= :
      {A B : Type 0} (Mid : A → S → Type 0) (Post : B → S → Type 0) (m : Io A) (f : A → Io B)
      (s : S)
      → Secure Mid s m
      → ((a : A) (t : S) → Mid a t → Secure Post t (f a))
      → Secure Post s (m >>= f)
  Secure->>= Mid Post (ret a) f s g next = next a s g
  Secure->>= Mid Post (exec c k) f s g next =
      (g.0, λ s' r t l v m. Secure->>= Mid Post (k r) f t (g.1 s' r t l v m) next)

  module _ {A : Type 0} (Post : ℕ → A → S → Type 0)
      (stable : (i : ℕ) (a : A) (s t : S) → Later s t → Post i a s → Post i a t) where
    Secure-Later :
        (i : ℕ) (m : Io A) (s t : S) → Later s t → Secure (Post i) s m → Secure (Post i) t m
    Secure-Later i (ret a) s t l g = stable i a s t l g
    Secure-Later i (exec c k) s t l g =
        (g.0, λ s' r u l' v m. g.1 s' r u (Later-trans s t s' l l') v m)

    pub record IsSecure (p : Pool S A) : Type 0 where
      pub shared : Inv p.shared
      pub threads : (i : ℕ) → Secure (Post i) p.shared (p.threads i)

    Step-IsSecure : {p q : Pool S A} → Step may p q → IsSecure p → IsSecure q
    Step-IsSecure {p} (advance i c k r s here m e) g =
        let now : Secure (Post i) p.shared (exec c k) = rw here at (g.threads i) in
        let (inv, climbed) = keeps c p.shared r s m now.0 g.shared in
        rw e (record {
          shared = inv;
          threads = λ j. elim (ℕ_discrete i j) [
            | yes same ↦
                rw (if_pos _ same)
                  (rw (← same) (now.1 p.shared r s (later_refl p.shared) g.shared m))
            | no other ↦ rw (if_neg _ other) (Secure-Later j _ p.shared s climbed (g.threads j))
          ];
        })

    pub Reach-IsSecure : {p q : Pool S A} → Reach may p q → IsSecure p → IsSecure q
    Reach-IsSecure start g = g
    Reach-IsSecure (later r st) g = Step-IsSecure st (Reach-IsSecure r g)

    Step-Later : {p q : Pool S A} → Step may p q → IsSecure p → Later p.shared q.shared
    Step-Later {p} (advance i c k r s here m e) g =
        let now : Secure (Post i) p.shared (exec c k) = rw here at (g.threads i) in
        rw e ((keeps c p.shared r s m now.0 g.shared).1)

    pub Reach-Later : {p q : Pool S A} → Reach may p q → IsSecure p → Later p.shared q.shared
    Reach-Later {p} start g = later_refl p.shared
    Reach-Later {p} (later {q} {r} reach st) g =
        Later-trans p.shared q.shared r.shared (Reach-Later reach g)
          (Step-Later st (Reach-IsSecure reach g))

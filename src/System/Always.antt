-- ===== src/System/Always.antt =====
-- What a program returns whatever it is answered, alone or between the commands of other threads.
use uds_policy.Common.{◌≡◌, refl}
use uds_policy.System.{Command, Answer, Io, ret, exec, ◌>>=◌, Handler, run}
use uds_policy.System.Threads.{Answers, Good}
use uds_policy.System.Schedule.{follows}

abbrev pub Always : {A : Type 0} → (A → Type 0) → Io A → Type 0
Always Post (ret a) = Post a
Always Post (exec c k) = (r : Answer c) → Always Post (k r)

pub always : {A : Type 0} (Post : A → Type 0) (m : Io A) → ((a : A) → Post a) → Always Post m
always Post (ret a) holds = holds a
always Post (exec c k) holds = λ r. always Post (k r) holds

pub Always->>= :
    {A B : Type 0} (Mid : A → Type 0) (Post : B → Type 0) (m : Io A) (f : A → Io B)
    → Always Mid m
    → ((a : A) → Mid a → Always Post (f a))
    → Always Post (m >>= f)
Always->>= Mid Post (ret a) f g next = next a g
Always->>= Mid Post (exec c k) f g next = λ r. Always->>= Mid Post (k r) f (g r) next

-- After a program of which nothing is asked.
pub Always->> :
    {A B : Type 0} (Post : B → Type 0) (m : Io A) (f : A → Io B)
    → ((a : A) → Always Post (f a))
    → Always Post (m >>= f)
Always->> Post (ret a) f next = next a
Always->> Post (exec c k) f next = λ r. Always->> Post (k r) f next

module _ {S : Type 0} (may : Answers S) where
  -- A program that runs alone may return this, and leave this state.
  abbrev pub Yields : {A : Type 0} → Io A → S → A → S → Type 0
  Yields (ret a) s b t = (b ≡ a) × (t ≡ s)
  Yields (exec c k) s b t = (r : Answer c) × (u : S) × may c s r u × Yields (k r) u b t

  pub Always-Yields :
      {A : Type 0} (Post : A → Type 0) (m : Io A) (s t : S) (b : A)
      → Always Post m
      → Yields m s b t
      → Post b
  Always-Yields Post (ret a) s t b g y = rw y.0 g
  Always-Yields Post (exec c k) s t b g (r, u, m, y) = Always-Yields Post (k r) u t b (g r) y

abbrev pub AnyCommand : Command → Type 0
AnyCommand c = Unit

abbrev pub AnyAnswer : (c : Command) → Answer c → Type 0
AnyAnswer c r = Unit

pub Always-Good :
    {S A : Type 0} (may : Answers S) (Inv : S → Type 0) (Post : A → Type 0) (m : Io A)
    → Always Post m
    → Good may Inv AnyCommand AnyAnswer Post m
Always-Good may Inv Post (ret a) g = g
Always-Good may Inv Post (exec c k) g = (tt, λ r f. Always-Good may Inv Post (k r) (g r))

-- What a run yields.
pub run-Yields :
    {S A : Type 0} (h : Handler S) (m : Io A) (s : S)
    → Yields (follows h) m s (run h m s).result (run h m s).state
run-Yields h (ret a) s = (refl, refl)
run-Yields h (exec c k) s =
    ((h c s).0, (h c s).1, (refl, refl), run-Yields h (k (h c s).0) (h c s).1)

pub Yields-mono :
    {S A : Type 0} {few many : Answers S}
    → ((c : Command) (s : S) (r : Answer c) (t : S) → few c s r t → many c s r t)
    → (m : Io A) (s t : S) (a : A) → Yields few m s a t
    → Yields many m s a t
Yields-mono more (ret b) s t a y = y
Yields-mono more (exec c k) s t a (r, u, m, y) =
    (r, u, more c s r u m, Yields-mono more (k r) u t a y)

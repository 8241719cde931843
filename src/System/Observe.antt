-- ===== src/System/Observe.antt =====
-- An observer that follows the commands of a program and their answers, and what it may insist on.
use uds_policy.Common.{◌≡◌, refl, List, [], ◌∷◌, ◌++◌}
use uds_policy.System.{Command, Answer, Event, Io, ret, exec, ◌>>=◌, Handler, run}
use uds_policy.System.Only.{Only}

-- The observer is as it was.
abbrev pub Kept : {X A : Type 0} → X → X → A → Type 0
Kept x y a = y ≡ x

module _ {X : Type 0} (after : (c : Command) → Answer c → X → X) where
  -- What was observed after a trace.
  abbrev pub observed : X → List Event → X
  observed x [] = x
  observed x (e ∷ t) = observed (after e.command e.answer x) t

  module _ (Allowed : Command → X → Type 0) where
    -- Each command of the trace was allowed when it came.
    abbrev pub Follows : X → List Event → Type 0
    Follows x [] = Unit
    Follows x (e ∷ t) = Allowed e.command x × Follows (after e.command e.answer x) t

    -- A program that makes only allowed commands, whatever it is answered, and returns in `Post`.
    abbrev pub Obeys : {A : Type 0} → (X → A → Type 0) → X → Io A → Type 0
    Obeys Post x (ret a) = Post x a
    Obeys Post x (exec c k) = Allowed c x × ((r : Answer c) → Obeys Post (after c r x) (k r))

    pub Obeys->>= :
        {A B : Type 0} (P : X → A → Type 0) (Q : X → B → Type 0) (m : Io A) (f : A → Io B) (x : X)
        → Obeys P x m
        → ((y : X) (a : A) → P y a → Obeys Q y (f a))
        → Obeys Q x (m >>= f)
    Obeys->>= P Q (ret a) f x v next = next x a v
    Obeys->>= P Q (exec c k) f x v next =
        (v.0, λ r. Obeys->>= P Q (k r) f (after c r x) (v.1 r) next)

    pub Obeys-mono :
        {A : Type 0} (P Q : X → A → Type 0) (m : Io A) (x : X)
        → ((y : X) (a : A) → P y a → Q y a)
        → Obeys P x m
        → Obeys Q x m
    Obeys-mono P Q (ret a) x more v = more x a v
    Obeys-mono P Q (exec c k) x more v = (v.0, λ r. Obeys-mono P Q (k r) (after c r x) more (v.1 r))

    pub run-Follows :
        {A : Type 0} (P : X → A → Type 0) {S : Type 0} (h : Handler S) (m : Io A) (x : X) (s : S)
        → Obeys P x m
        → Follows x (run h m s).trace × P (observed x (run h m s).trace) (run h m s).result
    run-Follows P h (ret a) x s v = (tt, v)
    run-Follows P h (exec c k) x s v =
        let (f, p) =
          run-Follows P h (k (h c s).0) (after c (h c s).0 x) (h c s).1 (v.1 (h c s).0) in
        ((v.0, f), p)

    pub Follows-append :
        (x : X) (t u : List Event) → Follows x t → Follows (observed x t) u → Follows x (t ++ u)
    Follows-append x [] u f g = g
    Follows-append x (e ∷ t) u f g = (f.0, Follows-append (after e.command e.answer x) t u f.1 g)

    -- Commands of one kind that are always allowed and leave the observer as it is.
    pub quiet-Obeys :
        (Fine : Command → Type 0)
        → ((c : Command) (x : X) → Fine c → Allowed c x)
        → ((c : Command) (r : Answer c) (x : X) → Fine c → after c r x ≡ x)
        → {A : Type 0} (m : Io A) (x : X) → Only Fine m
        → Obeys (Kept x) x m
    quiet-Obeys Fine allowed same (ret a) x o = refl
    quiet-Obeys Fine allowed same (exec c k) x o =
        (allowed c x o.0, λ r. rw (same c r x o.0) (quiet-Obeys Fine allowed same (k r) x (o.1 r)))

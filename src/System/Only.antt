-- ===== src/System/Only.antt =====
-- Programs that make only commands of one kind, and what such commands keep.
use uds_policy.Common.{All}
use uds_policy.System.{Command, Answer, Io, ret, exec, ◌>>=◌, Handler, run, Event}

module _ (Fine : Command → Type 0) where
  abbrev pub Only : {A : Type 0} → Io A → Type 0
  Only (ret a) = Unit
  Only (exec c k) = Fine c × ((r : Answer c) → Only (k r))

  pub Only->>= :
      {A B : Type 0} (m : Io A) (f : A → Io B) → Only m → ((a : A) → Only (f a)) → Only (m >>= f)
  Only->>= (ret a) f g next = next a
  Only->>= (exec c k) f g next = (g.0, λ r. Only->>= (k r) f (g.1 r) next)

  module _ {S : Type 0} (h : Handler S) where
    -- The commands that a run makes.
    pub run-Only :
        {A : Type 0} (m : Io A) (s : S)
        → Only m
        → All (λ (e : Event). Fine e.command) (run h m s).trace
    run-Only (ret a) s o = tt
    run-Only (exec c k) s o = (o.0, run-Only (k (h c s).0) (h c s).1 (o.1 (h c s).0))

    -- A property of the state that the commands keep.
    pub run-Inv :
        (Inv : S → Type 0)
        → ((c : Command) (s : S) → Fine c → Inv s → Inv (h c s).1)
        → {A : Type 0} (m : Io A) (s : S) → Only m
        → Inv s
        → Inv (run h m s).state
    run-Inv Inv keep (ret a) s o v = v
    run-Inv Inv keep (exec c k) s o v =
        run-Inv Inv keep (k (h c s).0) (h c s).1 (o.1 (h c s).0) (keep c s o.0 v)

pub Only-mono :
    {Fine Finer : Command → Type 0} {A : Type 0} (m : Io A)
    → ((c : Command) → Finer c → Fine c)
    → Only Finer m
    → Only Fine m
Only-mono (ret a) more o = tt
Only-mono (exec c k) more o = (more c o.0, λ r. Only-mono (k r) more (o.1 r))

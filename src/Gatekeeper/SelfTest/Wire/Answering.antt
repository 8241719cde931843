-- ===== src/Gatekeeper/SelfTest/Wire/Answering.antt =====
-- The daemon of a self-test, on a connection whose client may act between its commands.
use uds_policy.Common.{
  ◌≡◌, ◌∙◌, refl, sym, true, inl, inr, Result, ok, err, List, [], ◌++◌, append-nil, Text, codes,
}
use uds_policy.System.{Byte, Fd, IoError, Io}
use uds_policy.System.Only.{Only, Only-mono}
use uds_policy.System.Threads.Guarantee.{Secure, Secure->>=, Secure-quiet, Guaranteed}
use uds_policy.Caller.{Caller}
use uds_policy.Caller.Render
use uds_policy.Authorization.{Denial}
use uds_policy.Audit.{begin, finish}
use uds_policy.Gatekeeper.{
  answered, exchange, said, replied, daemon, change, failure_of, refusal_reply,
}
use uds_policy.Gatekeeper.Serve.Bookkeeping.{
  IsNoting, display-Notes, begin-Notes, finish-Notes, replied-Notes,
}
use uds_policy.Gatekeeper.SelfTest.Reply.{reply_line, said_line}
use uds_policy.Gatekeeper.SelfTest.Wire.Shared.{
  Wired, Heard, Written, wire_may, Settled, Later, views,
}
use uds_policy.Gatekeeper.SelfTest.Wire.Steps.{
  IsOffWire, off_same, noting-IsOffWire, at_end, daemon_step,
}

module _ (lossy : List Byte → Text) (Possible : Result (Unit {0}) Denial → Type 0) (c d : Fd) where
  abbrev Daemon : {A : Type 0} → (A → Wired → Type 0) → Wired → Io A → Type 0
  Daemon = Secure (wire_may c d) (views lossy Possible) 0

  -- What the daemon knows until it writes, and behind its read.
  abbrev pub Untold : Wired → Type 0
  Untold s = s.told ≡ []

  abbrev HasHeard : List Byte → Wired → Type 0
  HasHeard bytes s = (s.told ≡ []) × (s.shut ≡ true) × (s.asked ≡ bytes)

  abbrev pub Anyhow : {A : Type 0} → A → Wired → Type 0
  Anyhow a s = Unit

  HasHeard-Later :
      (bytes : List Byte) (s t : Wired)
      → Later lossy Possible 0 s t
      → HasHeard bytes s
      → HasHeard bytes t
  HasHeard-Later bytes s t (e, inl unshut) (none_told, shut, f) = absurd (cc (unshut, shut))
  HasHeard-Later bytes s t (e, inr (still, same)) (none_told, shut, f) =
      (e ∙ none_told, still, same ∙ f)

  pub quietly :
      {A : Type 0} (Known : Wired → Type 0)
      → ((s t : Wired) → Later lossy Possible 0 s t → Known s → Known t)
      → (m : Io A) (s : Wired) → Only IsOffWire m
      → Known s
      → Daemon (λ a t. Known t) s m
  quietly Known stable m s o k =
      Secure-quiet (wire_may c d) (views lossy Possible) 0 Known IsOffWire stable (off_same c d) m s
        o k

  noting :
      {A : Type 0} (Known : Wired → Type 0)
      → ((s t : Wired) → Later lossy Possible 0 s t → Known s → Known t)
      → (m : Io A) (s : Wired) → Only IsNoting m
      → Known s
      → Daemon (λ a t. Known t) s m
  noting Known stable m s o = quietly Known stable m s (Only-mono m noting-IsOffWire o)

  written_lem :
      (v : Result (Unit {0}) Denial) (line : Text) (s t : Wired) (r : Result (Unit {0}) IoError)
      → Possible v
      → Written line s r t
      → Untold s
      → Settled lossy Possible v s
      → line ≡ reply_line (lossy s.asked) v
      → Guaranteed (wire_may c d) (views lossy Possible) 0 s t
  written_lem v line s t (ok u) may m e settled f = rw m (
      daemon_step lossy Possible c d s (record s { told = s.told ++ (line ++ codes "\n") }) refl
        refl (inr (v, may, settled, ([], rw (e, f) (sym (append-nil _))))))
  written_lem v line s t (err error) may (part, (rest, f), m) e settled g = rw m (
      daemon_step lossy Possible c d s (record s { told = s.told ++ part }) refl refl
        (inr (v, may, settled, (rest, rw e (rw (← g) f)))))

  -- The work that a connection gets that is let through.
  said_lem :
      (caller : Caller) (u : Unit {0}) (r : Result (List Byte) IoError) (s : Wired)
      → Possible (ok u)
      → Heard s r
      → Untold s
      → Daemon Anyhow s (said lossy d caller r)
  unfolding exchange
  said_lem caller u (err error) s e h untold = tt
  said_lem caller u (ok bytes) s e (shut, same) untold = λ s' r t l v m.
      let (none_told, still, f) = HasHeard-Later bytes s s' l (untold, shut, sym same) in
      (
        written_lem (ok u) (said_line (lossy bytes)) s' t r e (at_end d m) none_told (inl still)
            (rw f refl),
        noting (λ s. Unit) (λ s t l k. tt) (replied lossy caller r) t (replied-Notes lossy caller r)
            tt,
      )

  exchange_lem :
      (caller : Caller) (u : Unit {0}) (s : Wired)
      → Possible (ok u)
      → Untold s
      → Daemon Anyhow s (exchange lossy d caller)
  unfolding exchange
  exchange_lem caller u s e untold = λ s' r t l v m.
      let (same, h) = at_end d m in
      rw same (
        daemon_step lossy Possible c d s' s' refl refl v,
        said_lem caller u r s' e h (l.0 ∙ untold),
      )

  pub answered_lem :
      (caller : Caller) (v : Result (Unit {0}) Denial) (s : Wired)
      → Possible v
      → Untold s
      → Daemon Anyhow s (answered lossy d caller v)
  unfolding answered
  answered_lem caller (ok u) s e untold =
      Secure->>= (wire_may c d) (views lossy Possible) 0 (λ a t. Untold t) Anyhow
        (begin daemon change caller) _ s
        (noting Untold (λ s t l k. l.0 ∙ k) (begin daemon change caller) s
          (begin-Notes daemon change caller) untold)
        λ op t untold.
          Secure->>= (wire_may c d) (views lossy Possible) 0 Anyhow Anyhow (exchange lossy d caller)
            _ t (exchange_lem caller u t e untold)
            λ outcome t' k.
              noting (λ s. Unit) (λ s t l k. tt) (finish op (failure_of outcome)) t'
                (finish-Notes op (failure_of outcome)) tt
  answered_lem caller (err denial) s e untold =
      Secure->>= (wire_may c d) (views lossy Possible) 0 (λ a t. Untold t) Anyhow
        (Render.display caller) _ s
        (noting Untold (λ s t l k. l.0 ∙ k) (Render.display caller) s (display-Notes caller) untold)
        λ by t untold s1 r1 t1 l1 v1 m1. rw m1 (
          daemon_step lossy Possible c d s1 s1 refl refl v1,
          λ s2 r2 t2 l2 v2 m2. (
            written_lem (err denial) (refusal_reply denial.reason) s2 t2 r2 e (at_end d m2)
                (l2.0 ∙ (l1.0 ∙ untold)) (inr refl) refl,
            tt,
          ),
        )

-- ===== src/Gatekeeper/SelfTest/Wire/Served.antt =====
-- `serve` of examples/gatekeeper.rs with a limit of one call, on a connection whose client may act
-- between its commands.
use uds_policy.Common.{
  subst, sym, ℕ, zero, suc, ◌≡◌, ◌∙◌, ◌≤◌, refl, true, Bool-cases, ◌⊎◌, inl, inr, some, Result, ok,
  err, List, [], ◌∷◌, Text, arith,
}
use uds_policy.System.{FilePath, Byte, Fd, IoError, Io, ◌>>=◌}
use uds_policy.System.Only.{Only}
use uds_policy.System.Threads.Guarantee.{Secure, Secure->>=}
use uds_policy.Caller.{Caller, of_socket, of_credentials}
use uds_policy.Authorization.{Authorizer, Denial, authorize, for_uids, peer_gate}
use uds_policy.Socket.Config.{Socket, SocketConfig}
use uds_policy.Socket.Bind.{bind, drop}
use uds_policy.Socket.Accept.{accept, accepted, deadlined}
use uds_policy.Gatekeeper.{answer, answered, change}
use uds_policy.Gatekeeper.Serve.Looped.{closed, looped-turns}
use uds_policy.Gatekeeper.Serve.{
  Turned, one_more, own, armed, handled, turn, turns, goes_on, noted, is_idle, opened, serving,
  serve, left,
}
use uds_policy.Gatekeeper.Serve.Loop.{one_more-on}
use uds_policy.Socket.Config
use uds_policy.Socket.Config.{BindError}
use uds_policy.Watchdog.Notify.{notify_ready}
use uds_policy.Watchdog.Heartbeat.{heartbeat_interval}
use uds_policy.Gatekeeper.{daemon}
use uds_policy.Gatekeeper.SelfTest.Wire.Shared.{Wired, Connects, wire_may, Later, views}
use uds_policy.Gatekeeper.SelfTest.Wire.Steps.{IsOffWire, daemon_step}
use uds_policy.Gatekeeper.SelfTest.Wire.Answering.{Untold, quietly, answered_lem}
use uds_policy.Gatekeeper.SelfTest.Wire.Off.{
  bind-OffWire, own-OffWire, notify_ready-OffWire, heartbeat_interval-OffWire, armed-OffWire,
  noted-OffWire,
}

-- The verdicts of the gates that `serve` may make: each is for one uid.
abbrev pub Reached : Result (Unit {0}) Denial → Type 0
Reached v = (uid : ℕ) × (caller : Caller) × (v ≡ authorize (for_uids (uid ∷ [])) change caller)

module _ (lossy : List Byte → Text) (c d : Fd) where
  abbrev pub Daemon : {A : Type 0} → (A → Wired → Type 0) → Wired → Io A → Type 0
  Daemon = Secure (wire_may c d) (views lossy Reached) 0

  Untold-Later :
      (s t : Wired)
      → Later lossy Reached 0 s t
      → Untold lossy Reached c d s
      → Untold lossy Reached c d t
  Untold-Later s t l e = l.0 ∙ e

  -- After a program off the connection, the client is still told nothing.
  after_off :
      {A B : Type 0} (Post : B → Wired → Type 0) (m : Io A) (f : A → Io B) (s : Wired)
      → Only IsOffWire m
      → s.told ≡ []
      → ((a : A) (t : Wired) → t.told ≡ [] → Daemon Post t (f a))
      → Daemon Post s (m >>= f)
  after_off Post m f s off untold next =
      Secure->>= (wire_may c d) (views lossy Reached) 0 (λ a t. t.told ≡ []) Post m f s
        (quietly lossy Reached c d (λ t. t.told ≡ []) Untold-Later m s off untold) next

  -- What an accept returns is the connection.
  abbrev IsConnection : Result (Fd × Caller) IoError → Type 0
  IsConnection (ok (stream, caller)) = stream ≡ d
  IsConnection (err error) = Unit

  deadlined-IsConnection :
      (stream : Fd) (caller : Caller) (r : Result (Unit {0}) IoError) (t : Wired)
      → stream ≡ d
      → t.told ≡ []
      → Daemon (λ r t. IsConnection r × (t.told ≡ [])) t (deadlined stream caller r)
  unfolding deadlined
  deadlined-IsConnection stream caller (ok u) t e untold = (e, untold)
  deadlined-IsConnection stream caller (err error) t e untold = (tt, untold)

  accepted-IsConnection :
      (socket : Socket) (r : Result Fd IoError) (t : Wired)
      → Connects d r
      → t.told ≡ []
      → Daemon (λ r t. IsConnection r × (t.told ≡ [])) t (accepted socket r)
  unfolding accepted of_socket
  accepted-IsConnection socket (err error) t e untold = (tt, untold)
  accepted-IsConnection socket (ok stream) t e untold = λ s1 r1 t1 l1 v1 m1. rw m1 (
    daemon_step lossy Reached c d s1 s1 refl refl v1,
    λ s2 r2 t2 l2 v2 m2. rw m2 (
      daemon_step lossy Reached c d s2 s2 refl refl v2,
      deadlined-IsConnection stream (of_credentials r1) r2 s2 e (l2.0 ∙ (l1.0 ∙ untold)),
    ),
  )

  accept-IsConnection :
      (socket : Socket) (s : Wired)
      → s.told ≡ []
      → Daemon (λ r t. IsConnection r × (t.told ≡ [])) s (accept socket)
  unfolding accept
  accept-IsConnection socket s untold = λ s1 r1 t1 l1 v1 m1. rw (m1.0) (
    daemon_step lossy Reached c d s1 s1 refl refl v1,
    accepted-IsConnection socket r1 s1 m1.1 (l1.0 ∙ untold),
  )

  -- Between turns: nothing is told, or a call was served.
  abbrev Fresh : Turned → Wired → Type 0
  Fresh l t = (t.told ≡ []) ⊎ (1 ≤ l.served)

  Fresh-Later : (l : Turned) (s t : Wired) → Later lossy Reached 0 s t → Fresh l s → Fresh l t
  Fresh-Later l s t k (inl untold) = inl (k.0 ∙ untold)
  Fresh-Later l s t k (inr served_it) = inr served_it

  Fresh-served :
      (l : Turned) (s : Wired) → Fresh l s → goes_on (some 1) l.served ≡ true → s.told ≡ []
  unfolding goes_on
  Fresh-served l s (inl untold) on = untold
  Fresh-served l s (inr served_it) on = absurd (ground arith)

  one_served : (n : ℕ) → goes_on (some 1) n ≡ true → 1 ≤ one_more n
  one_served n on = let (e, le) = one_more-on 1 n on (omega arith) in omega arith

  module _ (uid : ℕ) (socket : Socket) where
    abbrev gate : Authorizer
    gate = peer_gate (for_uids (uid ∷ []))

    handled-Fresh :
        (l : Turned) (r : Result (Fd × Caller) IoError) (s : Wired)
        → IsConnection r
        → s.told ≡ []
        → goes_on (some 1) l.served ≡ true
        → Daemon Fresh s (handled lossy gate l r)
    unfolding handled answer peer_gate
    handled-Fresh l (err error) s at untold on =
        after_off Fresh (noted error (is_idle error.kind)) _ s
          (noted-OffWire error (is_idle error.kind)) untold λ u t untold. inl untold
    handled-Fresh l (ok (stream, caller)) s at untold on = λ s1 r1 t1 l1 v1 m1. rw m1 (
      daemon_step lossy Reached c d s1 s1 refl refl v1,
      Secure->>= (wire_may c d) (views lossy Reached) 0 (λ u t. Unit {0}) Fresh
          (answered lossy stream caller (gate.authorize change caller)) _ s1
          (rw at (
            answered_lem lossy Reached c d caller (gate.authorize change caller) s1
              (uid, caller, refl) (l1.0 ∙ untold)))
          λ u t k s2 r2 t2 l2 v2 m2.
            rw m2 (daemon_step lossy Reached c d s2 s2 refl refl v2, inr (one_served l.served on)),
    )

    turn-Fresh :
        (l : Turned) (s : Wired)
        → s.told ≡ []
        → goes_on (some 1) l.served ≡ true
        → Daemon Fresh s (turn lossy gate socket l)
    unfolding turn
    turn-Fresh l s untold on =
        Secure->>= (wire_may c d) (views lossy Reached) 0 (λ r t. IsConnection r × (t.told ≡ []))
          Fresh (accept socket) _ s (accept-IsConnection socket s untold)
          λ r t k.
            Secure->>= (wire_may c d) (views lossy Reached) 0 Fresh Fresh (handled lossy gate l r) _
              t (handled-Fresh l r t k.0 k.1 on)
              λ m u fresh s1 r1 t1 l1 v1 m1.
                rw m1
                  (daemon_step lossy Reached c d s1 s1 refl refl v1, Fresh-Later m u s1 l1 fresh)

    turns-Secure :
        (n : ℕ) (l : Turned) (s : Wired)
        → Fresh l s
        → Daemon (λ l t. Unit {0}) s (turns lossy gate n socket (some 1) l)
    unfolding turns
    turns-Secure zero l s fresh = tt
    turns-Secure (suc n) l s fresh = elim (Bool-cases (goes_on (some 1) l.served)) [
      | inl on ↦ rw on (
          Secure->>= (wire_may c d) (views lossy Reached) 0 Fresh (λ l t. Unit {0})
            (turn lossy gate socket l) _ s (turn-Fresh l s (Fresh-served l s fresh on) on)
            (λ m t next. turns-Secure n m t next))
      | inr over ↦ rw over tt
    ]

    closed-Secure : (l : Turned) (s : Wired) → Daemon (λ r t. Unit {0}) s (closed socket (some 1) l)
    unfolding closed left drop
    closed-Secure l s = elim (Bool-cases (goes_on (some 1) l.served)) [
      | inl on ↦ rw on tt
      | inr over ↦
          rw over
            (λ s1 r1 t1 l1 v1 m1. rw m1 (daemon_step lossy Reached c d s1 s1 refl refl v1, tt))
    ]

    opened-Secure :
        (n : ℕ) (path : FilePath) (s : Wired)
        → s.told ≡ []
        → Daemon (λ r t. Unit {0}) s (opened lossy n path (some 1) socket uid)
    unfolding opened
    opened-Secure n path s untold = λ s1 r1 t1 l1 v1 m1. rw m1 (
      daemon_step lossy Reached c d s1 s1 refl refl v1,
      after_off _ notify_ready _ s1 notify_ready-OffWire (l1.0 ∙ untold) λ u t untold.
          after_off _ heartbeat_interval _ t heartbeat_interval-OffWire untold λ interval t untold.
            after_off _ (armed socket interval) _ t (armed-OffWire socket interval) untold
              λ spawned t untold s2 r2 t2 l2 v2 m2. rw m2 (
                daemon_step lossy Reached c d s2 s2 refl refl v2,
                subst (Daemon (λ r t. Unit {0}) s2)
                    (sym (looped-turns lossy gate socket (some 1) n _))
                    (Secure->>= (wire_may c d) (views lossy Reached) 0 (λ l t. Unit {0})
                      (λ r t. Unit {0}) (turns lossy gate n socket (some 1) _) _ s2
                      (turns-Secure n _ s2 (inl (l2.0 ∙ untold))) λ l t k. closed-Secure l t),
              ),
    )

  serving-Secure :
      (n : ℕ) (path : FilePath) (r : Result Socket BindError) (s : Wired)
      → s.told ≡ []
      → Daemon (λ r t. Unit {0}) s (serving lossy n path (some 1) r)
  unfolding serving
  serving-Secure n path (err error) s untold = tt
  serving-Secure n path (ok socket) s untold =
      after_off _ own _ s own-OffWire untold
        λ uid t untold. opened-Secure uid socket n path t untold

  -- Whatever the client does, `serve` tells it nothing but the answer to one call.
  pub serve-Secure :
      (n : ℕ) (path : FilePath) (s : Wired)
      → s.told ≡ []
      → Daemon (λ r t. Unit {0}) s (serve lossy n path (some 1))
  unfolding serve
  serve-Secure n path s untold =
      after_off _ (bind (Config.new daemon path)) _ s (bind-OffWire (Config.new daemon path)) untold
        (serving-Secure n path)

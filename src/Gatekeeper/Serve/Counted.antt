-- ===== src/Gatekeeper/Serve/Counted.antt =====
-- How many calls `serve` of examples/gatekeeper.rs may have served when it returns, whatever it is
-- answered on the way.
use uds_policy.Common.{
  subst, sym, ℕ, zero, suc, ◌≡◌, Bool-cases, true, inl, inr, Option, none, some, Result, ok, err,
  List, [], ◌∷◌, Text, arith,
}
use uds_policy.System.{FilePath, Byte, Fd, IoError}
use uds_policy.System.Always.{Always, Always->>=, Always->>}
use uds_policy.Caller.{Caller}
use uds_policy.Authorization.{Authorizer, peer_gate, for_uids}
use uds_policy.Socket.Config
use uds_policy.Socket.Config.{Socket, BindError}
use uds_policy.Socket.Bind.{bind, drop}
use uds_policy.Socket.Accept.{accept}
use uds_policy.Watchdog.Heartbeat.{heartbeat_interval}
use uds_policy.Watchdog.Notify.{notify_ready}
use uds_policy.Gatekeeper.{daemon, answer}
use uds_policy.Gatekeeper.Serve.Looped.{closed, looped-turns}
use uds_policy.Gatekeeper.Serve.{
  Turned, handled, turn, turns, goes_on, noted, is_idle, armed, own, opened, serving, serve, left,
}
use uds_policy.Gatekeeper.Serve.Loop.{WithinLimit, one_more-WithinLimit}

abbrev pub IsCounted : Option ℕ → Turned → Type 0
IsCounted limit l = WithinLimit limit l.served

-- What `serve` returns, unless the socket could not be bound.
abbrev pub HasCounted : Option ℕ → Result Turned BindError → Type 0
HasCounted limit (ok l) = IsCounted limit l
HasCounted limit (err error) = Unit

module _ (lossy : List Byte → Text) (authorizer : Authorizer) (limit : Option ℕ) where
  handled-IsCounted :
      (l : Turned) (r : Result (Fd × Caller) IoError)
      → IsCounted limit l
      → goes_on limit l.served ≡ true
      → Always (IsCounted limit) (handled lossy authorizer l r)
  unfolding handled
  handled-IsCounted l (ok (stream, caller)) within on = λ started.
      Always->> _ (answer lossy stream caller authorizer) _
        λ u finished. one_more-WithinLimit limit l.served true on
  handled-IsCounted l (err error) within on =
      Always->> _ (noted error (is_idle error.kind)) _ λ u. within

  turn-IsCounted :
      (socket : Socket) (l : Turned)
      → IsCounted limit l
      → goes_on limit l.served ≡ true
      → Always (IsCounted limit) (turn lossy authorizer socket l)
  unfolding turn
  turn-IsCounted socket l within on = Always->> _ (accept socket) _ λ r.
      Always->>= (IsCounted limit) _ (handled lossy authorizer l r) _
        (handled-IsCounted l r within on) λ m counted at. counted

  turns-IsCounted :
      (n : ℕ) (socket : Socket) (l : Turned)
      → IsCounted limit l
      → Always (IsCounted limit) (turns lossy authorizer n socket limit l)
  unfolding turns
  turns-IsCounted zero socket l within = within
  turns-IsCounted (suc n) socket l within = elim (Bool-cases (goes_on limit l.served)) [
    | inl on ↦ rw on (
        Always->>= (IsCounted limit) _ (turn lossy authorizer socket l) _
          (turn-IsCounted socket l within on) (turns-IsCounted n socket))
    | inr over ↦ rw over within
  ]

none_served : (limit : Option ℕ) → WithinLimit limit 0
none_served none = tt
none_served (some max) = omega arith

module _ (lossy : List Byte → Text) (n : ℕ) (path : FilePath) (limit : Option ℕ) where
  closed-HasCounted :
      (socket : Socket) (l : Turned)
      → IsCounted limit l
      → Always (HasCounted limit) (closed socket limit l)
  unfolding closed left
  closed-HasCounted socket l within = elim (Bool-cases (goes_on limit l.served)) [
    | inl on ↦ rw on within
    | inr over ↦ rw over (Always->> _ (drop socket) _ λ u. within)
  ]

  opened-HasCounted :
      (socket : Socket) (uid : ℕ) → Always (HasCounted limit) (opened lossy n path limit socket uid)
  unfolding opened
  opened-HasCounted socket uid = λ created. Always->> _ notify_ready _ λ u.
      Always->> _ heartbeat_interval _ λ interval.
        Always->> _ (armed socket interval) _ λ spawned said.
          subst (Always (HasCounted limit)) (sym (looped-turns lossy _ socket limit n _)) (
            Always->>= (IsCounted limit) _
              (turns lossy (peer_gate (for_uids (uid ∷ []))) n socket limit _) _
              (turns-IsCounted lossy _ limit n socket _ (none_served limit))
              (closed-HasCounted socket))

  serving-HasCounted :
      (r : Result Socket BindError) → Always (HasCounted limit) (serving lossy n path limit r)
  unfolding serving
  serving-HasCounted (err error) = tt
  serving-HasCounted (ok socket) = Always->> _ own _ (opened-HasCounted socket)

  pub serve-HasCounted : Always (HasCounted limit) (serve lossy n path limit)
  unfolding serve
  serve-HasCounted = Always->> _ (bind (Config.new daemon path)) _ serving-HasCounted

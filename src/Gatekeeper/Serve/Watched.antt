-- ===== src/Gatekeeper/Serve/Watched.antt =====
-- The accept loop of examples/gatekeeper.rs under the watchdog that `serve` arms.
mod Tests
use uds_policy.Common.{
  ℕ, zero, suc, ◌+◌, ◌≤◌, ◌≡◌, Bool, false, Option, Result, ok, err, List, [], ◌∷◌, ◌++◌, Text, All,
  if◌then◌else◌,
}
use uds_policy.System.{Duration, Instant, Byte, Fd, IoError, Handler, run, now}
use uds_policy.Caller.{Caller}
use uds_policy.Authorization.{Authorizer}
use uds_policy.Socket.Config.{Socket}
use uds_policy.Socket.Accept.{accept}
use uds_policy.Watchdog.Liveness.{Liveness, bounded}
use uds_policy.Watchdog.Activity.{ServeActivity, call_started, call_finished}
use uds_policy.Watchdog.Activity.History.{Stamp, turned, finished, started, recorded}
use uds_policy.Watchdog.Activity.Time.{apply}
use uds_policy.Gatekeeper.{answer}
use uds_policy.Gatekeeper.Serve.{Turned, turn, goes_on, noted, is_idle}

-- What the loop starts with, from a record that was made at this moment.
abbrev pub fresh : Instant → Turned
fresh t₀ = record { activity = recorded t₀ []; served = 0 }

module _ (lossy : List Byte → Text) (authorizer : Authorizer) {S : Type 0} (h : Handler S)
    (socket : Socket) where
  -- A host on which the daemon is healthy: a clock that is read, an accept that returns within the
  -- interval for which its timeout is armed, as does any other step of the loop, and answers that
  -- take no longer than a bounded call may.
  pub record Healthy (interval : Duration) (l : Liveness) : Type 0 where
    pub time : S → Instant
    pub clock_read : (s : S) → (h now s).0 ≡ time s
    pub read_quick : (s : S) → time (h now s).1 ≤ time s + interval
    pub accept_wakes : (s : S) → time (run h (accept socket) s).state ≤ time s + interval
    pub noted_quick :
        (error : IoError) (s : S)
        → time (run h (noted error (is_idle error.kind)) s).state ≤ time s + interval
    pub answer_bounded :
        (stream : Fd) (caller : Caller) (s : S)
        → (run h (accept socket) s).result ≡ ok (stream, caller)
        → let t = (run h (accept socket) s).state in
          time (run h (answer lossy stream caller authorizer) (h now t).1).state
          ≤ time t + l.longest_bounded_call

  -- The stamps of a turn after its accept, oldest first, and the state that the turn leaves.
  abbrev handled_stamps : Result (Fd × Caller) IoError → S → List Stamp
  handled_stamps (ok (stream, caller)) s =
      let t = (run h (answer lossy stream caller authorizer) (h now s).1).state in
      started bounded (h now s).0 ∷ finished (h now t).0 ∷ turned (h now (h now t).1).0 ∷ []
  handled_stamps (err error) s =
      turned (h now (run h (noted error (is_idle error.kind)) s).state).0 ∷ []

  abbrev handled_end : Result (Fd × Caller) IoError → S → S
  handled_end (ok (stream, caller)) s =
      (h now (h now (run h (answer lossy stream caller authorizer) (h now s).1).state).1).1
  handled_end (err error) s = (h now (run h (noted error (is_idle error.kind)) s).state).1

  abbrev turn_stamps : S → List Stamp
  turn_stamps s = let o = run h (accept socket) s in handled_stamps o.result o.state

  -- The stamps of the whole loop.
  abbrev pub turns_stamps : ℕ → Option ℕ → Turned → S → List Stamp
  turns_stamps zero limit l s = []
  turns_stamps (suc n) limit l s =
      let o = run h (turn lossy authorizer socket l) s in
      let rest = turns_stamps n limit o.result o.state in
      if goes_on limit l.served then turn_stamps s ++ rest else []

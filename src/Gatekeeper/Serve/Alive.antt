-- ===== src/Gatekeeper/Serve/Alive.antt =====
-- How long the watchdog takes the accept loop of examples/gatekeeper.rs for alive after a turn.
use uds_policy.Common.{◌+◌, ◌≤◌, ◌≡◌, refl, ◌↔◌, true, some, Text, List, arith}
use uds_policy.System.{Duration, Instant, Byte, Handler, run, run-bind, now}
use uds_policy.Authorization.{Authorizer}
use uds_policy.Socket.Config.{Socket}
use uds_policy.Socket.Accept.{accept}
use uds_policy.Watchdog.Liveness.{Liveness}
use uds_policy.Watchdog.Activity.{ServeActivity, is_alive, tick}
use uds_policy.Gatekeeper.Serve.{Turned, turn, handled}
use uds_policy.Gatekeeper.Serve.Loop.{IsResting, handled_lem}

tick-is_alive :
    (l : Liveness) (a : ServeActivity) (at later : Instant) (ceiling : Duration)
    → IsResting a
    → l.idle_tick_ceiling ≡ some ceiling
    → (is_alive (tick at a) later l ≡ true) ↔ (later ≤ at + ceiling)
unfolding is_alive tick
tick-is_alive l a at later ceiling rests has = (ground arith, ground arith)

module _ (lossy : List Byte → Text) (authorizer : Authorizer) {S : Type 0} (h : Handler S)
    (socket : Socket) where
  -- After a turn that found the record unpoisoned and no call in flight, the loop counts as alive
  -- exactly up to the idle ceiling after the last reading of the clock in that turn, whatever was
  -- accepted and however long the work took.
  pub turn-is_alive :
      (liveness : Liveness) (l : Turned) (s : S) (later : Instant) (ceiling : Duration)
      → IsResting l.activity
      → liveness.idle_tick_ceiling ≡ some ceiling
      → let o = run h (turn lossy authorizer socket l) s in
        (t : S) × (o.state ≡ (h now t).1)
        × ((is_alive o.result.activity later liveness ≡ true) ↔ (later ≤ (h now t).0 + ceiling))
  unfolding turn
  turn-is_alive liveness l s later ceiling rests has =
      let o = run h (accept socket) s in
      let p = run h (handled lossy authorizer l o.result) o.state in
      let resting = (handled_lem lossy authorizer h socket l o.result o.state rests).0 in
      rw (run-bind h (accept socket)) (
        rw (run-bind h (handled lossy authorizer l o.result))
          (p.state, refl, tick-is_alive liveness _ _ later ceiling resting has))

-- ===== src/Gatekeeper/Serve/Watched/Tests.antt =====
-- Two turns of the loop in 50 ms, with a second for the watchdog's interval.
use uds_policy.Common.{
  ℕ, ◌+◌, ◌≤◌, ◌≡◌, refl, subst, Bool, true, false, none, some, Result, ok, err, List, [], ◌∷◌,
  Text, arith,
}
use uds_policy.System.{Byte, Fd, IoError, run, now, from_secs}
use uds_policy.System.Sample.{sample}
use uds_policy.Caller.{Caller, of_credentials}
use uds_policy.Authorization.{Authorizer, for_uids, peer_gate, authorize, contains}
use uds_policy.Socket.Accept.{accept}
use uds_policy.Socket.Tests.Streams.{socket}
use uds_policy.Watchdog.Liveness.{Liveness, bounded}
use uds_policy.Watchdog.Activity.History.{started, finished, turned}
use uds_policy.Watchdog.Timeline.Prompt.{stamps}
use uds_policy.Watchdog.Activity
use uds_policy.Watchdog.Activity.{tick, call_started, call_finished}
use uds_policy.Call
use uds_policy.Audit.{begin, finish, describe}
use uds_policy.Caller.Render
use uds_policy.Caller.Names.{name_for_uid}
use uds_policy.Watchdog.Timeline.{Section, stamp, look}
use uds_policy.Gatekeeper.{answer, answered, exchange}
use uds_policy.Gatekeeper.Serve.{turn, handled, goes_on, one_more, noted, is_idle}
use uds_policy.Gatekeeper.Serve.Watched.{Healthy, turns_stamps, fresh}

abbrev ascii : List Byte → Text
ascii bytes = bytes

abbrev gate : Authorizer
unfolding peer_gate for_uids
gate = peer_gate (for_uids (1000 ∷ []))

abbrev liveness : Liveness
liveness = record {
  idle_tick_ceiling = some (from_secs 3);
  longest_bounded_call = from_secs 600;
  longest_silent_stream = none;
}

Bounded : ℕ → Result (Fd × Caller) IoError → Type 0
Bounded t (err error) = Unit
Bounded t (ok (stream, caller)) =
    (run sample (answer ascii stream caller gate) (sample now t).1).state
    ≤ t + liveness.longest_bounded_call

accepted-Bounded : (t : ℕ) → Bounded t (run sample (accept socket) t).result
unfolding Bounded accept of_credentials answer authorize contains Call.gated begin finish exchange
    answered gate describe Render.display name_for_uid
accepted-Bounded t = omega arith

noted_lem : (e : IoError) (b : Bool) (t : ℕ) → (run sample (noted e b) t).state ≡ t
unfolding noted
noted_lem e true t = refl
noted_lem e false t = refl

accept_lem : (t : ℕ) → (run sample (accept socket) t).state ≡ t
unfolding accept
accept_lem t = refl

healthy : Healthy ascii gate sample socket (from_secs 1) liveness
unfolding Bounded accept
healthy = record {
  time = λ t. t;
  clock_read = λ t. refl;
  read_quick = λ t. omega arith;
  accept_wakes = λ t. omega arith;
  noted_quick = λ e t. rw (noted_lem e (is_idle e.kind) t) (omega arith);
  answer_bounded = λ stream caller t e. subst (Bounded t) e (accepted-Bounded t);
}

-- Looks within a call, after a turn and at the end.
abbrev watched : List Section
watched =
    stamp (started bounded 0)
    ∷ look 10_000_000
    ∷ stamp (finished 15_000_000)
    ∷ stamp (turned 20_000_000)
    ∷ look 22_000_000
    ∷ stamp (started bounded 25_000_000)
    ∷ stamp (finished 40_000_000)
    ∷ stamp (turned 45_000_000)
    ∷ look 50_000_000
    ∷ []

made : stamps watched ≡ turns_stamps ascii gate sample socket 2 (some 2) (fresh 0) 0
unfolding turn handled goes_on Activity.new one_more tick call_started call_finished accept
    of_credentials answer authorize contains Call.gated begin finish exchange answered gate describe
    Render.display name_for_uid
made = refl

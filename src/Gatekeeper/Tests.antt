-- ===== src/Gatekeeper/Tests.antt =====
-- Runs of the daemon of examples/gatekeeper.rs, and its theorems at concrete inputs.
use uds_policy.Common.{
  ℕ, ◌*◌, ◌≤◌, ◌≡◌, refl, ◌⊎◌, true, pos, some, ok, err, List, [], ◌∷◌, Text, arith, is_ok, All,
  IsOneLine, format, decimal, codes,
}
use uds_policy.System.{Duration, Byte, run}
use uds_policy.System.Sample.{sample}
use uds_policy.System.Journal.{printed}
use uds_policy.Call
use uds_policy.Caller.{Caller, peer}
use uds_policy.Caller.Names.{get}
use uds_policy.Caller.Names.Memo.{with_cache}
use uds_policy.Caller.Names.Plain.{PlainCache}
use uds_policy.Authorization.{Authorizer, Denial, for_uids, peer_gate, authorize, contains}
use uds_policy.Socket.Accept.{accept, set_accept_timeout}
use uds_policy.Socket.Tests.Streams.{streams, kernel, socket, two_seconds}
use uds_policy.Watchdog.Liveness
use uds_policy.Watchdog.Liveness.{Liveness, with_idle_tick_ceiling}
use uds_policy.Watchdog.Activity
use uds_policy.Watchdog.Activity.{is_alive}
use uds_policy.Gatekeeper.{change, answer}
use uds_policy.Gatekeeper.Answer.{replies, Refuses, Audits, answer_gated}
use uds_policy.Gatekeeper.Plain.{refusal-IsOneLine}
use uds_policy.Gatekeeper.Serve.{Turned, turns, armed}
use uds_policy.Gatekeeper.Serve.Loop.{IsResting, turns_complete}
use uds_policy.Gatekeeper.Serve.Armed.{armed_wakes}
use uds_policy.Gatekeeper.Serve.Accounts.{tally}
use uds_policy.Gatekeeper.Serve.Accounts.Loop.{IsBalanced, turns_accounted}

-- A decoder for texts that are ASCII.
abbrev ascii : List Byte → Text
ascii bytes = bytes

abbrev gate : Authorizer
gate = peer_gate (for_uids (0 ∷ []))

abbrev stranger : Caller
stranger = peer (pos 7) 1000 1000

answer_gated_example :
    let t = (run sample (answer ascii 4 stranger gate) 0).trace in
    ((denial : Denial) × (gate.authorize change stranger ≡ err denial)
      × Refuses ascii sample 4 stranger 0 denial.reason t)
    ⊎ ((gate.authorize change stranger ≡ ok tt) × Audits ascii sample 4 stranger 0 t)
answer_gated_example = answer_gated ascii sample 4 stranger 0 gate

abbrev fresh : Turned
fresh = record { activity = Activity.new 0; served = 0 }

resting : IsResting fresh.activity
unfolding Activity.new
resting = (refl, refl)

yields : (t : ℕ) → is_ok (run sample (accept socket) t).result ≡ true
unfolding accept
yields t = refl

turns_complete_example : (run sample (turns ascii gate 2 socket (some 2) fresh) 0).result.served ≡ 2
turns_complete_example =
    turns_complete ascii gate sample socket 2 2 fresh 0 yields resting (omega arith) (omega arith)
      (omega arith)

armed_wakes_example :
    (6_000_000_000 ≡ 2_000_000_000 * 3)
    × ((wait : Duration) × (wait ≤ 2_000_000_000)
        × ((run streams (armed socket (some 2_000_000_000)) two_seconds).state 3 ≡ some wait))
unfolding armed set_accept_timeout Liveness.new with_idle_tick_ceiling
armed_wakes_example =
    armed_wakes streams kernel socket 2_000_000_000 6_000_000_000
      (with_idle_tick_ceiling 6_000_000_000 Liveness.new) two_seconds (omega arith) refl refl

empty_PlainCache : PlainCache []
unfolding get
empty_PlainCache u n e = cc e

refusal-IsOneLine_example :
    let t = (run (with_cache sample) (answer ascii 4 stranger gate) ([], 0)).trace in
    All IsOneLine (printed t) × All IsOneLine (replies t)
unfolding peer_gate for_uids authorize contains
refusal-IsOneLine_example =
    refusal-IsOneLine ascii sample 4 stranger (for_uids (0 ∷ [])) ([], 0)
      (record {
        reason = format (
            codes "uid "
            ∷ decimal 1000
            ∷ codes " gid "
            ∷ decimal 1000
            ∷ codes " may not call "
            ∷ Call.display change
            ∷ []);
      })
      refl tt empty_PlainCache

turns_accounted_example :
    let o = run sample (turns ascii gate 5 socket (some 2) fresh) 0 in
    IsBalanced 0 (tally o.trace) o.result
turns_accounted_example = turns_accounted ascii gate socket sample 5 (some 2) fresh 0 (omega arith)

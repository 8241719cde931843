-- ===== src/Gatekeeper/SelfTest/Wire/Tests.antt =====
-- A daemon and a client by turns on a connection in memory.
use uds_policy.Common.{ℕ, refl, pos, List, [], ◌∷◌, ◌++◌, codes}
use native.Mathlib.Decide.{ℕ_discrete}
use uds_policy.System.Threads.{Pool, Reach-mono, start}
use uds_policy.System.Schedule.{play, play-Reach}
use uds_policy.Caller.{Caller, peer}
use uds_policy.Caller.Names.{name_for_uid}
use uds_policy.Caller.Render
use uds_policy.Call
use uds_policy.Audit.{begin, finish, describe}
use uds_policy.Authorization.{Authorizer, for_uids, peer_gate, authorize, contains}
use uds_policy.Gatekeeper.{change, answer, answered, exchange}
use uds_policy.Gatekeeper.SelfTest.Client.{spoken, greeted}
use uds_policy.Gatekeeper.SelfTest.Reply.{reply_line}
use uds_policy.Gatekeeper.SelfTest.Wire.Shared.{Wired, IsPrefix, End}
use uds_policy.Gatekeeper.SelfTest.Wire.Interleaved.{connected, hello_interleaved}
use uds_policy.Gatekeeper.SelfTest.Wire.Memory.{on_wire, on_wire-may, ascii, reply}

abbrev you : Caller
you = peer (pos 7) 1000 1000

abbrev gate : Authorizer
gate = peer_gate (for_uids (1000 ∷ []))

abbrev begun : Pool Wired End
begun = connected ascii 8 4 you gate

abbrev by_turns : List ℕ
by_turns = 1 ∷ 0 ∷ 1 ∷ 1 ∷ 0 ∷ 0 ∷ 0 ∷ 0 ∷ 0 ∷ 0 ∷ 0 ∷ 0 ∷ 0 ∷ 0 ∷ 1 ∷ []

abbrev talked : Pool Wired End
talked = play on_wire by_turns begun

hello_interleaved_example :
    IsPrefix reply (reply_line (codes "hello") (gate.authorize change you) ++ codes "\n")
unfolding spoken greeted answer answered exchange begin finish describe Render.display name_for_uid
    Call.display Call.gated for_uids authorize contains peer_gate ℕ_discrete
hello_interleaved_example =
    hello_interleaved ascii 8 4 you gate talked reply
      (Reach-mono on_wire-may (play-Reach on_wire by_turns begun begun start)) refl

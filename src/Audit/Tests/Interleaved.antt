-- ===== src/Audit/Tests/Interleaved.antt =====
-- Two operations that write to one journal by turns.
use native.Mathlib.Decide.{ℕ_discrete}
use uds_policy.Common.{ℕ, ◌≡◌, refl, none, List, [], ◌∷◌, ◌++◌, Text, codes}
use uds_policy.System.{Command, Answer, Handler, eprintln}
use uds_policy.System.Sample.{sample}
use uds_policy.System.Threads.{Pool, Reach-mono, start}
use uds_policy.System.Schedule.{follows, play, play-Reach}
use uds_policy.Call
use uds_policy.Call.{Call}
use uds_policy.Caller.{in_process}
use uds_policy.Caller.Render
use uds_policy.Audit.{begin, finish, describe}
use uds_policy.Audit.Lines.{session}
use uds_policy.Audit.Interleaved.{Journal, journal_may, IsRecorded, interleaved_sessions}

abbrev change : Call
change = record {
  object = codes "Thing";
  method = codes "Change";
  authorization = Call.policy (codes "org.example.thing.change");
}

abbrev service : Text
service = codes "exampled"

abbrev writing : Handler Journal
writing (eprintln l) j = (tt, l ∷ j)
writing c j = ((sample c 0).0, j)

writing-may :
    (c : Command) (s : Journal) (r : Answer c) (t : Journal)
    → follows writing c s r t
    → journal_may c s r t
writing-may (eprintln l) s r t m = m.1
writing-may _ s r t m = m.1

abbrev starts : Pool Journal (Unit {0})
starts = record { shared = []; threads = λ i. session service change in_process none }

abbrev turns : List ℕ
turns = 0 ∷ 1 ∷ 0 ∷ 1 ∷ 1 ∷ 0 ∷ 0 ∷ 1 ∷ []

abbrev ended : Pool Journal (Unit {0})
ended = play writing turns starts

interleaved_sessions_example :
    ((more : Journal) × (ended.shared ≡ more ++ []))
    × IsRecorded service change in_process none (codes "org.example.thing.change") tt ended.shared
unfolding session begin finish describe Render.display ℕ_discrete
interleaved_sessions_example =
    interleaved_sessions service (λ i. change) (λ i. in_process) (λ i. none)
      (λ i. codes "org.example.thing.change") [] ended 0 (λ i. refl)
      (Reach-mono writing-may (play-Reach writing turns starts starts start)) refl

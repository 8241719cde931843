-- ===== src/Audit/Tests.antt =====
-- Runs of src/audit.rs, and its theorems at concrete inputs.
mod Interleaved
use uds_policy.Common.{
  ◌-◌, ◌≤◌, ◌≡◌, refl, true, false, none, some, Option, [], ◌∷◌, ◌++◌, Text, codes, flatten,
  decimal, signed_decimal, length, arith, All, IsOneLine, pos,
}
use uds_policy.System.{run, now, Io, ret, ask, eprintln, ◌>>◌}
use uds_policy.System.Journal.{printed}
use uds_policy.System.Sample.{sample}
use uds_policy.Call
use uds_policy.Call.{Call, gated, unprivileged}
use uds_policy.Caller.{Caller, peer}
use uds_policy.Caller.Names.{get, name_for_uid, sanitize}
use uds_policy.Caller.Names.Memo.{with_cache}
use uds_policy.Caller.Names.Plain.{PlainCache}
use uds_policy.Caller.Render
use uds_policy.Audit.{bound, begin, finish, is_audited, outcome_line, as_millis, describe}
use uds_policy.Audit.Lines.{session, around, Brackets, around-Brackets}
use uds_policy.Audit.Plain.{bound_lem, session-IsOneLine}

abbrev change : Call
change = record {
  object = codes "Thing";
  method = codes "Change";
  authorization = Call.policy (codes "org.example.thing.change");
}

abbrev you : Caller
you = peer (pos 4711) 1000 1000

-- The two lines of the README, with a failure that tries to forge a third.
two_lines :
    printed
      (run
        (with_cache sample)
        (session (codes "exampled") change you (some (codes "a\nb")))
        ([], 0)).trace
    ≡ codes
        "exampled: audit: begin Thing.Change action=org.example.thing.change by=you(uid 1000 gid 1000 pid 4711)"
      ∷ codes
          "exampled: audit: failed Thing.Change action=org.example.thing.change by=you(uid 1000 gid 1000 pid 4711) (5ms): a b"
      ∷ []
unfolding session begin finish describe Render.display Render.numbers name_for_uid get sanitize
    flatten decimal signed_decimal Call.display outcome_line bound
two_lines = refl

bound_lem_example :
    IsOneLine (bound (codes "a\nb"))
    × (length (bound (codes "a\nb")) ≤ 256)
    × (bound (bound (codes "a\nb")) ≡ bound (codes "a\nb"))
bound_lem_example = bound_lem (codes "a\nb")

-- Work that writes a line of its own and then fails.
abbrev failing : Io (Option Text)
failing = ask (eprintln (codes "no such thing")) >> ret (some (codes "a\nb"))

around-Brackets_example :
    Brackets sample
      (codes "exampled")
      change
      you
      failing
      0
      change.authorization
      (printed (run sample (around (codes "exampled") change you failing) 0).trace)
around-Brackets_example = around-Brackets sample (codes "exampled") change you failing 0

empty_PlainCache : PlainCache []
unfolding get
empty_PlainCache u n e = cc e

session-IsOneLine_example : All IsOneLine (
    printed
      (run
        (with_cache sample)
        (session (codes "exampled") change you (some (codes "a\nb")))
        ([], 0)).trace)
session-IsOneLine_example =
    session-IsOneLine sample (codes "exampled") change you (some (codes "a\nb")) ([], 0)
      (omega arith) (omega arith) tt empty_PlainCache

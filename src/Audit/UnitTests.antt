-- ===== src/Audit/UnitTests.antt =====
-- The unit tests of src/audit.rs, under their names, and that they pass on the model.
use uds_policy.Common.{
  ◌++◌, ◌≡◌, refl, Bool, true, not, ◌&&◌, none, codes, text_eq, contains_char, repeat, length, leb,
  flatten,
}
use uds_policy.System.{Handler, Io, ret, run, ◌>>=◌, ◌>>◌}
use uds_policy.Call
use uds_policy.Call.{Call, gated, unprivileged}
use uds_policy.Caller.{in_process, unreadable}
use uds_policy.Caller.Render
use uds_policy.Audit.{begin, finish, is_audited, bound, describe}

-- `GATED` and `OPEN`
abbrev gated_call : Call
unfolding gated
gated_call = gated (codes "Thing") (codes "Change") (codes "org.example.thing.change")

abbrev open_call : Call
unfolding unprivileged
open_call = unprivileged (codes "Thing") (codes "Read")

only_state_changing_calls_are_audited : Io Bool
unfolding begin finish is_audited
only_state_changing_calls_are_audited = do
  quiet ← begin (codes "exampled") open_call in_process
  finish quiet none
  audited ← begin (codes "exampled") gated_call in_process
  finish audited none
  ret (not (is_audited quiet) && is_audited audited)

the_label_names_the_call_the_action_and_the_caller : Io Bool
unfolding describe text_eq
the_label_names_the_call_the_action_and_the_caller = do
  label ← describe gated_call (codes "org.example.thing.change") in_process
  ret (text_eq label (codes "Thing.Change action=org.example.thing.change by=in-process"))

an_unreadable_caller_still_produces_a_by_field : Io Bool
unfolding describe text_eq
an_unreadable_caller_still_produces_a_by_field = do
  label ←
      describe gated_call (codes "org.example.thing.change")
        (unreadable (codes "Socket operation on non-socket"))
  ret (
      text_eq label (
        codes
          "Thing.Change action=org.example.thing.change by=unreadable (Socket operation on non-socket)"))

a_failure_description_cannot_forge_a_journal_line : Bool
unfolding bound contains_char repeat
a_failure_description_cannot_forge_a_journal_line =
    let forged = bound (codes "a\nexampled: audit: ok " ++ repeat b'x' 400) in
    not (contains_char forged b'\n') && leb (length forged) 256

module _ {S : Type 0} (h : Handler S) (s : S) where
  unit_tests_pass :
      ((run h only_state_changing_calls_are_audited s).result ≡ true)
      × ((run h the_label_names_the_call_the_action_and_the_caller s).result ≡ true)
      × ((run h an_unreadable_caller_still_produces_a_by_field s).result ≡ true)
      × (a_failure_description_cannot_forge_a_journal_line ≡ true)
  unfolding only_state_changing_calls_are_audited the_label_names_the_call_the_action_and_the_caller
      an_unreadable_caller_still_produces_a_by_field
      a_failure_description_cannot_forge_a_journal_line gated unprivileged Call.display
      Render.display flatten
  unit_tests_pass = (refl, refl, refl, refl)

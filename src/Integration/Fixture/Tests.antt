-- ===== src/Integration/Fixture/Tests.antt =====
-- One call of each kind of the daemon of tests/socket.rs, and what the audit test asserts of it.
use uds_policy.Common.{
  ok, ◌≡◌, refl, true, pos, List, [], ◌∷◌, ◌++◌, Text, codes, text_eq, flatten, decimal,
  signed_decimal, some,
}
use uds_policy.System.{IoError, run}
use uds_policy.System.Sample.{sample}
use uds_policy.System.Journal.{printed}
use uds_policy.Call
use uds_policy.Audit.{begin, describe, finish}
use uds_policy.Caller.Render
use uds_policy.Caller.Render.{numbers}
use uds_policy.Caller.Names.{name_for_uid, sanitize}
use uds_policy.Caller.{Caller, peer}
use uds_policy.Integration.Fixture.{
  wanted, answered, wait_for_socket, call, names_the_caller, is_quiet,
}

abbrev trimmed : Text → Text
trimmed t = t

abbrev nothing : IoError → Text
nothing error = []

-- stderr, of its lines
abbrev lines : List Text → Text
lines [] = []
lines (l ∷ ls) = l ++ (codes "\n" ++ lines ls)

abbrev caller : Caller
caller = peer (pos 4711) 1000 1000

abbrev pub journal : Text → Text
journal asked = lines (
    printed
      (run sample (answered trimmed nothing 4 caller (wanted trimmed nothing (ok asked)) (ok asked))
        0).trace)

change_named : names_the_caller (codes "Thing.Change ok\n") (journal (codes "change")) 4711 ≡ true
unfolding names_the_caller answered wanted text_eq begin Call.gated describe Render.display
    name_for_uid Call.display sanitize flatten numbers decimal signed_decimal finish
change_named = refl

read_unnamed : is_quiet (journal (codes "read")) ≡ true
unfolding is_quiet answered wanted text_eq begin Call.unprivileged finish
read_unnamed = refl

waited_and_called :
    ((run sample (wait_for_socket 1 (codes "/run/s")) 0).result ≡ some (ok tt))
    × ((run sample (call (codes "/run/s") (codes "change")) 0).result
        ≡ ok (codes "Thing.Change said: hello"))
unfolding wait_for_socket call
waited_and_called = (refl, refl)

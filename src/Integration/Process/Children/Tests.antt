-- ===== src/Integration/Process/Children/Tests.antt =====
-- Hosts in memory on which a spawned child runs, and the tests that start one.
use uds_policy.Common.{
  ℕ, ◌≡◌, refl, true, some, ok, Text, codes, [], decimal, signed_decimal, flatten, text_eq, ◌==◌,
  if◌then◌else◌,
}
use uds_policy.System.{
  FilePath, Handler, run, env_var, close, spawn, write_all, read_to_string, process_id,
}
use uds_policy.System.Sample.{sample}
use uds_policy.Socket.Bind.Kernel.{Node, absent, dead_socket, live_socket}
use uds_policy.Socket.Tests.Memory.{memory}
use uds_policy.Socket.Bind.{bind}
use uds_policy.Socket.Accept.{accept}
use uds_policy.Caller.{of_credentials}
use uds_policy.Caller.Names.{name_for_uid, sanitize}
use uds_policy.Caller.Render
use uds_policy.Caller.Render.{numbers}
use uds_policy.Call
use uds_policy.Audit.{begin, describe, finish}
use uds_policy.Gatekeeper.SelfTest.Halves.{join}
use uds_policy.Integration.{stale_reclaimed, testd}
use uds_policy.Integration.Fixture.Tests.{journal}
use uds_policy.Integration.Fixture.{
  answered, wanted, names_the_caller, is_quiet, wait_for_socket, call,
}
use uds_policy.Integration.Process.{the_stale_socket_maker, spawn_ignored, unique, daemon_journal}
use uds_policy.Integration.Process.Children.{a_stale_socket_is_reclaimed, audit_names_the_caller}

-- The maker's process: its variable is set, and a listener that it closes is dead.
abbrev closed : Node → Node
closed (live_socket m) = dead_socket
closed n = n

abbrev inside : FilePath → Handler Node
inside path (env_var v) n = (some path, n)
inside path (close l) n = (tt, closed n)
inside path c n = memory c n

abbrev host : Handler Node
host (spawn program args var path) n = (ok 7, (run (inside path) the_stale_socket_maker n).state)
host c n = memory c n

-- From no file to a dead socket to a live one.
stale_passes :
    (dir : FilePath) → let o = run host (a_stale_socket_is_reclaimed dir) absent in o.result ≡ true
unfolding a_stale_socket_is_reclaimed stale_reclaimed unique spawn_ignored the_stale_socket_maker
    bind testd accept of_credentials
stale_passes dir = refl

-- A daemon that answers over the stream 8, and whose journal is read from the pipe 9; the state is what
-- it was last asked.
abbrev heard : ℕ → Text → Text
heard fd asked = if fd == 9 then journal asked else codes "Thing.Change ok\n"

abbrev trail : Handler Text
trail (write_all fd wire) asked = (ok tt, wire)
trail process_id asked = (4711, asked)
trail (read_to_string fd) asked = (ok (heard fd asked), asked)
trail c asked = ((sample c 0).0, asked)

audit_passes : (run trail (audit_names_the_caller 1 (codes "/t")) []).result ≡ some true
unfolding audit_names_the_caller daemon_journal spawn_ignored unique join wait_for_socket call
    names_the_caller is_quiet answered wanted text_eq begin Call.gated Call.unprivileged describe
    Render.display name_for_uid Call.display sanitize flatten numbers decimal signed_decimal finish
audit_passes = refl

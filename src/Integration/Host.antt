-- ===== src/Integration/Host.antt =====
-- A host with one path and with descriptors that have receive timeouts, and the tests of
-- tests/socket.rs that it runs.
use native.Mathlib.Decide.{ℕ_discrete}
use uds_policy.Common.{◌≡◌, refl, true, none, some}
use uds_policy.System.{
  FilePath, Command, Answer, Handler, run, accept_stream, set_read_timeout, set_receive_timeout,
  peer_credentials, from_secs,
}
use uds_policy.Socket.Bind.Kernel.{Node, absent, dead_socket}
use uds_policy.Socket.Tests.Memory.{memory}
use uds_policy.Socket.Tests.Streams.{Timeouts, streams}
use uds_policy.Caller.{of_credentials}
use uds_policy.Socket.Bind.{bind}
use uds_policy.Socket.Accept.{accept, set_accept_timeout}
use uds_policy.Integration.{
  testd, stale_reclaimed, the_read_deadline_is_not_inherited_from_the_listener,
  clearing_the_read_deadline_clears_the_inherited_one,
}

abbrev on_streams : (c : Command) → Node × Timeouts → Answer c × (Node × Timeouts)
on_streams c (n, t) = let (r, t') = streams c t in (r, (n, t'))

abbrev host : Handler (Node × Timeouts)
host (accept_stream l) s = on_streams (accept_stream l) s
host (set_read_timeout fd d) s = on_streams (set_read_timeout fd d) s
host (set_receive_timeout l u) s = on_streams (set_receive_timeout l u) s
host (peer_credentials fd) s = on_streams (peer_credentials fd) s
host c (n, t) = let (r, n') = memory c n in (r, (n', t))

abbrev untimed : Timeouts
untimed fd = none

stale_passes :
    (path : FilePath) → (run host (stale_reclaimed path) (dead_socket, untimed)).result ≡ true
unfolding stale_reclaimed bind testd accept of_credentials
stale_passes path = refl

-- The accepted stream is descriptor 4, the listener descriptor 3.
deadline_passes :
    (path : FilePath)
    → let o =
        run host (the_read_deadline_is_not_inherited_from_the_listener path) (absent, untimed) in
      (o.result ≡ some 4) × (o.state.1 4 ≡ some (from_secs 7)) × (o.state.1 3 ≡ some (from_secs 2))
unfolding the_read_deadline_is_not_inherited_from_the_listener bind testd set_accept_timeout accept
    ℕ_discrete
deadline_passes path = (refl, refl, refl)

cleared_passes :
    (path : FilePath)
    → let o =
        run host (clearing_the_read_deadline_clears_the_inherited_one path) (absent, untimed) in
      (o.result ≡ some 4) × (o.state.1 4 ≡ none) × (o.state.1 3 ≡ some (from_secs 2))
unfolding clearing_the_read_deadline_clears_the_inherited_one bind testd set_accept_timeout accept
    ℕ_discrete
cleared_passes path = (refl, refl, refl)

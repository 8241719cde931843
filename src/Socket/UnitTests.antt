-- ===== src/Socket/UnitTests.antt =====
-- The unit tests of src/socket.rs, under their names, and when they pass on the model. A test that
-- makes a temporary directory is given the path in it, and starts where its first lines leave off.
use uds_policy.Common.{
  ℕ, ◌≡◌, refl, Bool, true, false, ◌&&◌, Option, none, some, Result, ok, err, Text, codes, text_eq,
  ◌==◌,
}
use uds_policy.System.{
  IoError, Io, Handler, FilePath, Fd, ret, run, ask, exists, bind_listener, from_secs, ◌>>=◌,
  group_from_name,
}
use uds_policy.Socket.Config.{BindError, not_a_socket, already_active, new, with_socket_group}
use uds_policy.Socket.Reclaim.{reclaim_stale_socket}
use uds_policy.Socket.Bind.Kernel.{absent, other_file}
use uds_policy.Socket.Tests.Memory.{memory}
use uds_policy.Socket.Group.{lookup_group_gid}

is_text : Option Text → Text → Bool
unfolding text_eq
is_text none t = false
is_text (some s) t = text_eq s t

is_number : Option ℕ → ℕ → Bool
is_number none m = false
is_number (some n) m = n == m

the_default_config_is_the_shape_a_root_daemon_needs : Bool
unfolding is_text is_number new with_socket_group
the_default_config_is_the_shape_a_root_daemon_needs =
    let config =
      with_socket_group (codes "example")
        (new (codes "exampled") (codes "/run/example/api.sock")) in
    config.socket_mode == 0o660
    && is_text config.socket_group (codes "example")
    && is_number config.request_read_timeout (from_secs 30)

-- `let absent = lookup_group_gid(…)?` and `assert_eq!(absent, None)`
is_absent : Result (Option ℕ) IoError → Bool
is_absent (ok none) = true
is_absent _ = false

a_group_that_exists_resolves_and_one_that_does_not_is_absent_rather_than_an_error : Io Bool
unfolding is_absent lookup_group_gid
a_group_that_exists_resolves_and_one_that_does_not_is_absent_rather_than_an_error = do
  resolved ← lookup_group_gid (codes "uds-policy-no-such-group-9d1f")
  ret (is_absent resolved)

-- `matches!(error, BindError::NotASocket(_))` of what was to be an error
is_not_a_socket : Result (Unit {0}) BindError → Bool
is_not_a_socket (err (not_a_socket path)) = true
is_not_a_socket _ = false

a_path_that_is_not_a_socket_is_left_alone : FilePath → Io Bool
unfolding is_not_a_socket reclaim_stale_socket
a_path_that_is_not_a_socket_is_left_alone path = do
  error ← reclaim_stale_socket path
  there ← ask (exists path)
  ret (is_not_a_socket error && there)

is_already_active : Result (Unit {0}) BindError → Bool
is_already_active (err (already_active path)) = true
is_already_active _ = false

-- after `UnixListener::bind(&path)?`
listened : FilePath → Result Fd IoError → Io Bool
unfolding is_already_active reclaim_stale_socket
listened path (err error) = ret false
listened path (ok listener) = do
  error ← reclaim_stale_socket path
  there ← ask (exists path)
  ret (is_already_active error && there)

a_socket_with_a_live_listener_is_not_reclaimed : FilePath → Io Bool
unfolding listened
a_socket_with_a_live_listener_is_not_reclaimed path = do
  listener ← ask (bind_listener path)
  listened path listener

-- The tests on a file system in memory, where the first starts behind `std::fs::write`.
file_tests_pass :
    (path : FilePath)
    → ((run memory (a_path_that_is_not_a_socket_is_left_alone path) other_file).result ≡ true)
      × ((run memory (a_socket_with_a_live_listener_is_not_reclaimed path) absent).result ≡ true)
unfolding a_path_that_is_not_a_socket_is_left_alone a_socket_with_a_live_listener_is_not_reclaimed
file_tests_pass path = (refl, refl)

default_config_passes : the_default_config_is_the_shape_a_root_daemon_needs ≡ true
unfolding the_default_config_is_the_shape_a_root_daemon_needs
default_config_passes = refl

-- The second test passes where NSS answers that the group is not there.
absent_group_passes :
    {S : Type 0} (h : Handler S) (s : S)
    → (h (group_from_name (codes "uds-policy-no-such-group-9d1f")) s).0 ≡ ok none
    → (run h a_group_that_exists_resolves_and_one_that_does_not_is_absent_rather_than_an_error
        s).result
      ≡ true
unfolding a_group_that_exists_resolves_and_one_that_does_not_is_absent_rather_than_an_error
absent_group_passes h s e = rw e refl

-- ===== src/Integration/Process/Children.antt =====
-- The tests of tests/socket.rs that start a child process, under their names. A test is given its
-- temporary directory; a `?` or an assertion that fails is a test that fails.
mod Tests
use uds_policy.Common.{
  ℕ, Bool, true, false, ◌&&◌, Option, none, some, Result, ok, err, [], ◌∷◌, Text, codes, format,
  decimal, if◌then◌else◌,
}
use uds_policy.System.{FilePath, IoError, Io, ret, ask, ◌>>=◌, exists, process_id, wait_child}
use uds_policy.Gatekeeper.SelfTest.Halves.{join}
use uds_policy.Integration.{stale_reclaimed}
use uds_policy.Integration.Fixture.{call, names_the_caller, is_quiet}
use uds_policy.Integration.Process.{spawn_ignored, unique, daemon_journal}

-- behind `maker.wait()?`
left_behind : FilePath → Result (Unit {0}) IoError → Io Bool
left_behind path (err error) = ret false
left_behind path (ok status) = do
  there ← ask (exists path)
  if there then stale_reclaimed path else ret false

-- behind `spawn_ignored(…)?`
made : FilePath → Result ℕ IoError → Io Bool
unfolding left_behind
made path (err error) = ret false
made path (ok maker) = do status ← ask (wait_child maker); left_behind path status

a_stale_socket_is_reclaimed : FilePath → Io Bool
unfolding made join
a_stale_socket_is_reclaimed dir = do
  id ← unique
  let path = join dir (format (codes "stale-" ∷ decimal id ∷ codes ".sock" ∷ []))
  maker ← spawn_ignored (codes "tests::the_stale_socket_maker") path
  made path maker

-- behind the second `daemon_journal(…)?`
quiet : Option (Result (Text × Text) IoError) → Option Bool
unfolding is_quiet
quiet none = none
quiet (some (err error)) = some false
quiet (some (ok (reply, journal))) = some (is_quiet journal)

-- behind the first
named : ℕ → FilePath → Option (Result (Text × Text) IoError) → Io (Option Bool)
unfolding quiet names_the_caller
named rounds dir none = ret none
named rounds dir (some (err error)) = ret (some false)
named rounds dir (some (ok (reply, journal))) = do
  id ← ask process_id
  if names_the_caller reply journal id
      then (do r ← daemon_journal rounds dir (λ socket. call socket (codes "read")); ret (quiet r))
      else ret (some false)

-- `none` if it still waits for a daemon.
audit_names_the_caller : ℕ → FilePath → Io (Option Bool)
unfolding named
audit_names_the_caller rounds dir = do
  r ← daemon_journal rounds dir (λ socket. call socket (codes "change"))
  named rounds dir r

-- ===== src/Integration/Process.antt =====
-- The child processes of tests/socket.rs: how they are started and stopped, what runs in them, and the
-- tests that need one.
pub mod Children
use uds_policy.Common.{
  ℕ, zero, suc, Bool, true, false, ◌&&◌, Option, none, some, Result, ok, err, List, [], ◌∷◌, Text,
  codes, format, decimal, if◌then◌else◌,
}
use uds_policy.System.{
  FilePath, Fd, IoError, Io, ret, ask, try_then, ◌>>=◌, ◌>>◌, exists, env_var, bind_listener,
  read_to_string, process_id, current_exe, since_epoch, spawn, kill_child, wait_child, take_stderr,
  close,
}
use uds_policy.Socket.Config
use uds_policy.Socket.Config.{Socket, BindError}
use uds_policy.Socket.Bind.{bind}
use uds_policy.Gatekeeper.SelfTest.Halves.{join}
use uds_policy.Integration.{testd}
use uds_policy.Integration.Fixture.{serving, wait_for_socket, call, names_the_caller, is_quiet}

-- `FIXTURE_SOCKET`
abbrev pub fixture_socket : Text
fixture_socket = codes "UDS_POLICY_FIXTURE_SOCKET"

pub spawn_ignored : Text → FilePath → Io (Result ℕ IoError)
spawn_ignored fixture socket = do
  exe ← ask current_exe
  let args =
      fixture
      ∷ codes "--exact"
      ∷ codes "--ignored"
      ∷ codes "--nocapture"
      ∷ codes "--test-threads"
      ∷ codes "1"
      ∷ []
  try_then (λ program. ask (spawn program args fixture_socket socket)) exe

-- `map_or(0, …)`
or_zero : Option ℕ → ℕ
or_zero none = 0
or_zero (some nanos) = nanos

pub unique : Io ℕ
unfolding or_zero
unique = do since ← ask since_epoch; ret (or_zero since)

-- How a fixture ends: it returns, or panics for the error of the call that it expects to succeed.
pub data Ended : Type 0 where
  returned : Ended
  no_listener : IoError → Ended
  no_socket : BindError → Ended
  -- `none` after as many turns as it was given
  stopped : Option IoError → Ended

-- after `env::var(FIXTURE_SOCKET)`
listened : Result Fd IoError → Io Ended
listened (err error) = ret (no_listener error)
listened (ok listener) = do ask (close listener); ret returned

the_stale_socket_maker : Io Ended
unfolding listened
the_stale_socket_maker = do
  var ← ask (env_var fixture_socket)
  elim var [
    | none ↦ ret returned
    | some socket ↦ do listener ← ask (bind_listener socket); listened listener
  ]

-- after `env::var(FIXTURE_SOCKET)`, with the `trim` and `left` of the loop
bound : (Text → Text) → (IoError → Text) → ℕ → Result Socket BindError → Io Ended
bound trim left turns (err error) = ret (no_socket error)
bound trim left turns (ok socket) = do r ← serving trim left turns socket; ret (stopped r)

the_fixture_daemon : (Text → Text) → (IoError → Text) → ℕ → Io Ended
unfolding bound
the_fixture_daemon trim left turns = do
  var ← ask (env_var fixture_socket)
  elim var [
    | none ↦ ret returned
    | some path ↦ do socket ← bind (testd path); bound trim left turns socket
  ]

-- behind `child.wait()?`, with the child's stderr
drained : Option Fd → Io (Result Text IoError)
drained none = ret (ok [])
drained (some stderr) = ask (read_to_string stderr)

-- `Ok((outcome?, journal))`
told : Result Text IoError → Text → Io (Result (Text × Text) IoError)
told (err error) journal = ret (err error)
told (ok reply) journal = ret (ok (reply, journal))

-- behind the exchange
stopped_and_read : ℕ → Result Text IoError → Io (Result (Text × Text) IoError)
unfolding drained told
stopped_and_read child outcome = do
  killed ← ask (kill_child child)
  try_then
      (λ _.
        ask (wait_child child)
        >>= try_then (λ _. do
          stderr ← ask (take_stderr child)
          journal ← drained stderr
          try_then (told outcome) journal))
      killed

-- `and_then(|()| exchange(&socket))`, once the wait is over
exchanged :
    (FilePath → Io (Result Text IoError))
    → FilePath
    → ℕ
    → Option (Result (Unit {0}) IoError)
    → Io (Option (Result (Text × Text) IoError))
unfolding stopped_and_read
exchanged exchange socket child none = ret none
exchanged exchange socket child (some bound) = do
  outcome ← try_then (λ _. exchange socket) bound
  r ← stopped_and_read child outcome
  ret (some r)

-- behind `spawn_ignored(…)`, with as many rounds of the wait as it is given
awaited :
    ℕ
    → (FilePath → Io (Result Text IoError))
    → FilePath
    → Result ℕ IoError
    → Io (Option (Result (Text × Text) IoError))
unfolding exchanged
awaited rounds exchange socket (err error) = ret (some (err error))
awaited rounds exchange socket (ok child) = do
  there ← wait_for_socket rounds socket
  exchanged exchange socket child there

-- `none` if it still waits for the socket.
pub daemon_journal :
    ℕ
    → FilePath
    → (FilePath → Io (Result Text IoError))
    → Io (Option (Result (Text × Text) IoError))
unfolding awaited unique join
daemon_journal rounds dir exchange = do
  id ← unique
  let socket = join dir (format (codes "fixture-" ∷ decimal id ∷ codes ".sock" ∷ []))
  child ← spawn_ignored (codes "tests::the_fixture_daemon") socket
  awaited rounds exchange socket child

-- ===== src/Integration.antt =====
-- Tests of tests/socket.rs that take one path, under their names. A test is given the path in its
-- temporary directory, and a `?` that fails is a test that fails.
pub mod Path
pub mod Fixture
pub mod Process
pub mod Streams
mod Host
use uds_policy.Common.{
  Bool, true, false, not, ◌&&◌, Option, none, some, Result, ok, err, Text, codes, contains_text,
}
use uds_policy.System.{
  FilePath, Duration, Fd, IoError, Io, ret, ask, ◌>>=◌, ◌>>◌, exists, connect, from_secs,
}
use uds_policy.Caller.{Caller, peer}
use uds_policy.Socket.Config.{
  SocketConfig, BindError, Socket, new, display, with_request_read_timeout,
}
use uds_policy.Socket.Bind.{bind, drop}
use uds_policy.Socket.Accept.{accept, set_accept_timeout}

-- what `socket_at` binds
abbrev pub testd : FilePath → SocketConfig
unfolding new
testd path = new (codes "testd") path

abbrev pub socket_at : FilePath → Io (Result Socket BindError)
socket_at path = bind (testd path)

-- after `socket_at(&path)?`
pub dropped : FilePath → Result Socket BindError → Io Bool
dropped path (err error) = ret false
dropped path (ok socket) = do
  bound ← ask (exists socket.config.socket_path)
  drop socket
  left ← ask (exists path)
  ret (bound && not left)

unfoldable pub the_socket_is_unlinked_on_drop : FilePath → Io Bool
unfolding dropped
the_socket_is_unlinked_on_drop path = do r ← socket_at path; dropped path r

-- `error.to_string().contains("already serving")` of what was to be an error
pub says_already_serving : Result Socket BindError → Bool
unfolding display contains_text
says_already_serving (ok socket) = false
says_already_serving (err error) = contains_text (display error) (codes "already serving")

-- after `let first = socket_at(&path)?`
pub second_refused : FilePath → Result Socket BindError → Io Bool
unfolding says_already_serving
second_refused path (err error) = ret false
second_refused path (ok first) = do
  error ← socket_at path
  there ← ask (exists first.config.socket_path)
  ret (says_already_serving error && there)

unfoldable pub a_live_socket_is_not_reclaimed : FilePath → Io Bool
unfolding second_refused
a_live_socket_is_not_reclaimed path = do first ← socket_at path; second_refused path first

-- `matches!(caller, Caller::Peer { .. })` behind `socket.accept()?`
is_attributed : Result (Fd × Caller) IoError → Bool
is_attributed (ok (stream, peer pid uid gid)) = true
is_attributed _ = false

-- after `UnixStream::connect(socket.path())?`
connected : Socket → Result (Unit {0}) IoError → Io Bool
unfolding is_attributed
connected socket (err error) = ret false
connected socket (ok client) = do r ← accept socket; ret (is_attributed r)

-- after `socket_at(&path)?`
reclaimed : Result Socket BindError → Io Bool
unfolding connected
reclaimed (err error) = ret false
reclaimed (ok socket) = do
  there ← ask (exists socket.config.socket_path)
  client ← ask (connect socket.config.socket_path)
  works ← connected socket client
  ret (there && works)

-- behind the maker of the stale socket
unfoldable pub stale_reclaimed : FilePath → Io Bool
unfolding reclaimed
stale_reclaimed path = do r ← socket_at path; reclaimed r

-- after `UnixStream::connect(socket.path())?`
client_accepted : Socket → Result (Unit {0}) IoError → Io (Result (Fd × Caller) IoError)
client_accepted socket (err error) = ret (err error)
client_accepted socket (ok client) = accept socket

-- after `socket.set_accept_timeout(Duration::from_secs(2))?`
listener_armed : Socket → Result (Unit {0}) IoError → Io (Result (Fd × Caller) IoError)
unfolding client_accepted
listener_armed socket (err error) = ret (err error)
listener_armed socket (ok u) = do
  client ← ask (connect socket.config.socket_path)
  client_accepted socket client

-- after `Socket::bind(…)?`
budgeted : Result Socket BindError → Io (Option Fd)
unfolding listener_armed
budgeted (err error) = ret none
budgeted (ok socket) = do
  armed ← set_accept_timeout socket (from_secs 2)
  r ← listener_armed socket armed
  ret (elim r [ ok (stream, caller) ↦ some stream | err error ↦ none ])

-- The two tests of the read deadline, up to the stream whose deadline they read.
unfoldable pub the_read_deadline_is_not_inherited_from_the_listener : FilePath → Io (Option Fd)
unfolding budgeted with_request_read_timeout
the_read_deadline_is_not_inherited_from_the_listener path = do
  r ← bind (with_request_read_timeout (some (from_secs 7)) (testd path))
  budgeted r

unfoldable pub clearing_the_read_deadline_clears_the_inherited_one : FilePath → Io (Option Fd)
unfolding budgeted with_request_read_timeout
clearing_the_read_deadline_clears_the_inherited_one path = do
  r ← bind (with_request_read_timeout none (testd path))
  budgeted r

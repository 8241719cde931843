-- ===== src/Integration/Streams.antt =====
-- The tests of tests/socket.rs that talk over an accepted stream or read the socket's mode, under their
-- names. A test is given the path in its temporary directory, and a `?` that fails is a test that
-- fails.
mod Passed
use uds_policy.Common.{
  ℕ, ℤ, pos, ◌%◌, Bool, true, false, ◌&&◌, some, Result, ok, err, List, [], Text, codes, text_eq,
  ◌==◌,
}
use uds_policy.System.{
  FilePath, Byte, Fd, IoError, Io, ret, ask, ◌>>=◌, connect, connect_stream, write_all,
  shutdown_write, read_to_string, read_to_end, process_id, file_mode,
}
use uds_policy.Caller.{Caller, peer}
use uds_policy.Socket.Config.{BindError, Socket}
use uds_policy.Socket.Accept.{accept}
use uds_policy.Integration.{socket_at}

-- `pid` is this process's, whose id fits an i32.
is_process : ℤ → ℕ → Bool
is_process (pos pid) id = pid == id
is_process _ id = false

-- after `stream.read_to_string(&mut said)?`
heard : Result Text IoError → Bool
unfolding text_eq
heard (ok said) = text_eq said (codes "anything at all")
heard (err error) = false

-- after `socket.accept()?`
attributed : Result (Fd × Caller) IoError → Io Bool
unfolding is_process heard
attributed (ok (stream, peer pid uid gid)) = do
  id ← ask process_id
  said ← ask (read_to_string stream)
  ret (is_process pid id && heard said)
attributed _ = ret false

-- after `client.shutdown(Shutdown::Write)?`
spoken : Socket → Result (Unit {0}) IoError → Io Bool
unfolding attributed
spoken socket (ok u) = do r ← accept socket; attributed r
spoken socket (err error) = ret false

-- after `client.write_all(b"anything at all")?`
written : Socket → Fd → Result (Unit {0}) IoError → Io Bool
unfolding spoken
written socket client (ok u) = do r ← ask (shutdown_write client); spoken socket r
written socket client (err error) = ret false

-- after `UnixStream::connect(socket.path())?`
connected : Socket → Result Fd IoError → Io Bool
unfolding written
connected socket (ok client) = do
  r ← ask (write_all client (codes "anything at all"))
  written socket client r
connected socket (err error) = ret false

-- after `socket_at(…)?`
answering : Result Socket BindError → Io Bool
unfolding connected
answering (ok socket) = do
  client ← ask (connect_stream socket.config.socket_path)
  connected socket client
answering (err error) = ret false

unfoldable pub accept_answers_who_is_calling : FilePath → Io Bool
unfolding answering
accept_answers_who_is_calling path = do r ← socket_at path; answering r

-- `assert_eq!(stream.read_to_end(&mut nothing)?, 0)`
is_empty_read : Result (List Byte) IoError → Bool
is_empty_read (ok []) = true
is_empty_read _ = false

-- after `socket.accept()?`
accepted_probe : Result (Fd × Caller) IoError → Io Bool
unfolding is_empty_read
accepted_probe (ok (stream, peer pid uid gid)) = do
  nothing ← ask (read_to_end stream)
  ret (is_empty_read nothing)
accepted_probe _ = ret false

-- after `drop(UnixStream::connect(socket.path())?)`
dropped_client : Socket → Result (Unit {0}) IoError → Io Bool
unfolding accepted_probe
dropped_client socket (ok u) = do r ← accept socket; accepted_probe r
dropped_client socket (err error) = ret false

probing : Result Socket BindError → Io Bool
unfolding dropped_client
probing (ok socket) = do
  client ← ask (connect socket.config.socket_path)
  dropped_client socket client
probing (err error) = ret false

unfoldable pub a_connect_and_drop_probe_is_an_ordinary_accept : FilePath → Io Bool
unfolding probing
a_connect_and_drop_probe_is_an_ordinary_accept path = do r ← socket_at path; probing r

-- `mode & 0o777`, the last nine bits
is_mode : Result ℕ IoError → Bool
is_mode (ok mode) = mode % 0o1000 == 0o660
is_mode (err error) = false

moded : Result Socket BindError → Io Bool
unfolding is_mode
moded (ok socket) = do mode ← ask (file_mode socket.config.socket_path); ret (is_mode mode)
moded (err error) = ret false

unfoldable pub the_bound_socket_has_the_mode_an_unprivileged_front_end_needs : FilePath → Io Bool
unfolding moded
the_bound_socket_has_the_mode_an_unprivileged_front_end_needs path = do r ← socket_at path; moded r

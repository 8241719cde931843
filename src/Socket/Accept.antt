-- ===== src/Socket/Accept.antt =====
-- `Socket::accept` and `Socket::set_accept_timeout` of src/socket.rs.
pub mod Deadline
use uds_policy.Common.{
  ℕ, ◌-◌, ◌/◌, ◌^◌, Option, Result, ok, err, map_err, Text, codes, format, [], ◌∷◌, leb,
  if◌then◌else◌,
}
use uds_policy.System.{
  Duration, IoError, Errno, other_kind, Fd, Io, ret, ask, ◌>>=◌, accept_stream, set_read_timeout,
  time_val, set_receive_timeout,
}
use uds_policy.Caller.{Caller, of_socket}
use uds_policy.Socket.Config.{Socket}

-- after `set_read_timeout(…)?`
unfoldable pub deadlined :
    Fd → Caller → Result (Unit {0}) IoError → Io (Result (Fd × Caller) IoError)
deadlined stream caller (err error) = ret (err error)
deadlined stream caller (ok _) = ret (ok (stream, caller))

-- after `self.listener.accept()?`
unfoldable pub accepted : Socket → Result Fd IoError → Io (Result (Fd × Caller) IoError)
unfolding of_socket deadlined
accepted socket (err error) = ret (err error)
accepted socket (ok stream) = do
  caller ← of_socket stream
  r ← ask (set_read_timeout stream socket.config.request_read_timeout)
  deadlined stream caller r

unfoldable pub accept : Socket → Io (Result (Fd × Caller) IoError)
unfolding accepted
accept socket = do r ← ask (accept_stream socket.listener); accepted socket r

abbrev pub i64_max : ℕ
i64_max = 2 ^ 63 - 1

-- `Duration::as_micros`
abbrev pub as_micros : Duration → ℕ
as_micros d = d / 1_000

-- `io::Error::other(…)`; the text behind the colon is that of `TryFromIntError`.
abbrev pub out_of_range : IoError
out_of_range = record {
  kind = other_kind 0;
  message = codes "timeout out of range: out of range integral type conversion attempted";
}

unfoldable pub set_accept_timeout : Socket → Duration → Io (Result (Unit {0}) IoError)
set_accept_timeout socket timeout =
    if leb (as_micros timeout) i64_max
    then (do
      value ← ask (time_val (as_micros timeout))
      r ← ask (set_receive_timeout socket.listener value)
      ret (map_err (λ (e : Errno). e.as_io) r))
    else ret (err out_of_range)

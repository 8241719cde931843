-- ===== src/Socket/Reclaim.antt =====
-- `reclaim_stale_socket` of src/socket.rs.
use uds_policy.Common.{Bool, true, false, Result, ok, err, map_err}
use uds_policy.System.{
  FilePath, IoError, connection_refused, not_found, Io, ret, ask, symlink_is_socket, connect,
  remove_file, ◌>>=◌,
}
use uds_policy.Socket.Config.{BindError, already_active, not_a_socket, unverifiable, io, from}

-- the arms of the `match` on `UnixStream::connect`
pub probed : FilePath → Result (Unit {0}) IoError → Io (Result (Unit {0}) BindError)
probed path (ok _) = ret (err (already_active path))
probed path (err error) = elim error.kind [
  | connection_refused ↦ (do r ← ask (remove_file path); ret (map_err io r))
  | not_found ↦ ret (ok tt)
  | _ ↦ ret (err (unverifiable path error))
]

-- after the early return of `symlink_metadata(socket_path)?`
pub checked : FilePath → Result Bool IoError → Io (Result (Unit {0}) BindError)
unfolding probed
checked path (err error) = ret (err (from error))
checked path (ok false) = ret (err (not_a_socket path))
checked path (ok true) = do r ← ask (connect path); probed path r

unfoldable pub reclaim_stale_socket : FilePath → Io (Result (Unit {0}) BindError)
unfolding checked
reclaim_stale_socket path = do r ← ask (symlink_is_socket path); checked path r

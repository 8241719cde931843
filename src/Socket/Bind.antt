-- ===== src/Socket/Bind.antt =====
-- `Socket::bind` and `Drop for Socket` of src/socket.rs.
pub mod Unlinks
pub mod Ownership
pub mod Kernel
pub mod Race
use uds_policy.Common.{ℕ, Bool, true, false, Option, none, some, Result, ok, err, Text}
use uds_policy.System.{
  FilePath, IoError, Fd, Io, ret, ask, ◌>>=◌, ◌>>◌, exists, remove_file, bind_listener,
  set_permissions,
}
use uds_policy.Socket.Config.{SocketConfig, BindError, io, from, Socket}
use uds_policy.Socket.Reclaim.{reclaim_stale_socket}
use uds_policy.Socket.Group.{give_socket_to_group}

-- `if let Some(group) = config.socket_group`
offer : SocketConfig → Option Text → Io (Unit {0})
offer config none = ret tt
offer config (some group) = give_socket_to_group config.socket_path group config.daemon

-- after `set_permissions`
permitted : SocketConfig → Fd → Result (Unit {0}) IoError → Io (Result Socket BindError)
unfolding offer
permitted config listener (err error) = do
  ask (remove_file config.socket_path)
  ret (err (io error))
permitted config listener (ok _) = do
  offer config config.socket_group
  ret (ok (record { listener = listener; config = config }))

-- after `UnixListener::bind(&socket_path)?`, which is one command; that it calls bind(2) and then
-- listen(2), and that a connect between the two is refused, is inside it and does not show
listening : SocketConfig → Result Fd IoError → Io (Result Socket BindError)
unfolding permitted
listening config (err error) = ret (err (from error))
listening config (ok listener) = do
  r ← ask (set_permissions config.socket_path config.socket_mode)
  permitted config listener r

-- after `reclaim_stale_socket(&socket_path)?`
cleared : SocketConfig → Result (Unit {0}) BindError → Io (Result Socket BindError)
unfolding listening
cleared config (err error) = ret (err error)
cleared config (ok _) = do r ← ask (bind_listener config.socket_path); listening config r

found : SocketConfig → Bool → Io (Result Socket BindError)
unfolding reclaim_stale_socket cleared
found config true = do r ← reclaim_stale_socket config.socket_path; cleared config r
found config false = cleared config (ok tt)

unfoldable pub bind : SocketConfig → Io (Result Socket BindError)
unfolding found
bind config = do there ← ask (exists config.socket_path); found config there

-- `Drop for Socket`
unfoldable pub drop : Socket → Io (Unit {0})
drop socket = do ask (remove_file socket.config.socket_path); ret tt

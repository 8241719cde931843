-- ===== src/Watchdog/Notify.antt =====
-- `notify_ready`, `pet`, `notify` and `notify_to` of src/watchdog.rs.
pub mod Sent
use uds_policy.Common.{
  ℕ, Bool, true, false, Option, none, some, Result, ok, err, [], ◌∷◌, Text, codes, ◌==◌,
  if◌then◌else◌,
}
use uds_policy.System.{
  IoError, Fd, Io, ret, ask, ◌>>=◌, ◌>>◌, env_var, unbound_datagram, abstract_address,
  send_to_abstract, send_to_path,
}

-- the arms of the `match` on `SocketAddr::from_abstract_name`
to_abstract : Fd → Text → Text → Result (Unit {0}) IoError → Io (Unit {0})
to_abstract socket name message (err _) = ret tt
to_abstract socket name message (ok _) = do ask (send_to_abstract socket name message); ret tt

-- `if let Some(name) = socket_path.strip_prefix('@')`; the path is not empty
dispatch : Fd → Text → Text → Io (Unit {0})
unfolding to_abstract
dispatch socket [] message = do ask (send_to_path socket [] message); ret tt
dispatch socket (c ∷ name) message =
    if c == b'@'
    then (do r ← ask (abstract_address name); to_abstract socket name message r)
    else (do ask (send_to_path socket (c ∷ name) message); ret tt)

-- `let Ok(socket) = UnixDatagram::unbound() else { … }`
with_socket : Text → Text → Result Fd IoError → Io (Unit {0})
unfolding dispatch
with_socket path message (err _) = ret tt
with_socket path message (ok socket) = dispatch socket path message

unfoldable pub notify_to : Text → Text → Io (Unit {0})
unfolding with_socket
notify_to [] message = ret tt
notify_to (c ∷ path) message = do r ← ask unbound_datagram; with_socket (c ∷ path) message r

-- `let Ok(socket_path) = std::env::var("NOTIFY_SOCKET") else { … }`
unfoldable pub notified : Text → Option Text → Io (Unit {0})
notified message none = ret tt
notified message (some path) = notify_to path message

unfoldable pub notify : Text → Io (Unit {0})
unfolding notified
notify message = do path ← ask (env_var (codes "NOTIFY_SOCKET")); notified message path

unfoldable pub notify_ready : Io (Unit {0})
notify_ready = notify (codes "READY=1")

unfoldable pub pet : Io (Unit {0})
pet = notify (codes "WATCHDOG=1")

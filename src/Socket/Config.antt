-- ===== src/Socket/Config.antt =====
-- `SocketConfig`, `BindError` and `Socket` of src/socket.rs.
use uds_policy.Common.{ℕ, Option, none, some, Text, codes, format, [], ◌∷◌}
use uds_policy.System.{FilePath, Duration, IoError, Fd, from_secs}

pub record SocketConfig : Type 0 where
  pub daemon : Text
  pub socket_path : FilePath
  pub socket_mode : ℕ
  pub socket_group : Option Text
  pub request_read_timeout : Option Duration

-- `SocketConfig::new`
unfoldable pub new : Text → FilePath → SocketConfig
new daemon socket_path = record {
  daemon = daemon;
  socket_path = socket_path;
  socket_mode = 0o660;
  socket_group = none;
  request_read_timeout = some (from_secs 30);
}

unfoldable pub with_socket_group : Text → SocketConfig → SocketConfig
with_socket_group group config = record config { socket_group = some group }

unfoldable pub with_socket_mode : ℕ → SocketConfig → SocketConfig
with_socket_mode mode config = record config { socket_mode = mode }

unfoldable pub with_request_read_timeout : Option Duration → SocketConfig → SocketConfig
with_request_read_timeout timeout config = record config { request_read_timeout = timeout }

pub data BindError : Type 0 where
  already_active : FilePath → BindError
  not_a_socket : FilePath → BindError
  unverifiable : FilePath → IoError → BindError
  io : IoError → BindError

-- `Display for BindError`
unfoldable pub display : BindError → Text
display (already_active path) = format (codes "a daemon is already serving " ∷ path ∷ [])
display (not_a_socket path) =
    format (path ∷ codes " exists and is not a socket, so it was left alone" ∷ [])
display (unverifiable path error) = format (
    path
    ∷ codes " exists and could not be verified stale, so it was left alone: "
    ∷ error.message
    ∷ [])
display (io error) = error.message

-- `From<std::io::Error>`, which `?` applies
abbrev pub from : IoError → BindError
from error = io error

-- `Error::source`
unfoldable pub source : BindError → Option IoError
source (unverifiable path error) = some error
source (io error) = some error
source _ = none

-- `Socket`: a listener and the configuration that it was bound with.
pub record Socket : Type 0 where
  pub listener : Fd
  pub config : SocketConfig

-- `Socket::path`
abbrev path : Socket → FilePath
path socket = socket.config.socket_path

-- ===== src/Caller.antt =====
-- src/caller.rs: who asked. The name cache and the rendering of a caller are in the modules below.
pub mod Names
pub mod Render
mod Tests
mod UnitTests
use uds_policy.Common.{ℕ, ℤ, Option, none, some, Result, ok, err, Text}
use uds_policy.System.{Fd, Errno, Credentials, Io, ret, ask, ◌>>=◌, peer_credentials}

pub data Caller : Type 0 where
  peer : ℤ → ℕ → ℕ → Caller
  unreadable : Text → Caller
  in_process : Caller

-- the arms of the `match` on `getsockopt(stream, PeerCredentials)`
unfoldable pub of_credentials : Result Credentials Errno → Caller
of_credentials (ok peer_is) = peer peer_is.pid peer_is.uid peer_is.gid
of_credentials (err error) = unreadable error.text

-- `Caller::of_socket`
unfoldable pub of_socket : Fd → Io Caller
of_socket stream = do r ← ask (peer_credentials stream); ret (of_credentials r)

-- `Caller::uid`, `Caller::gid`, `Caller::pid`
unfoldable pub uid : Caller → Option ℕ
uid (peer p u g) = some u
uid _ = none

unfoldable pub gid : Caller → Option ℕ
gid (peer p u g) = some g
gid _ = none

unfoldable pub pid : Caller → Option ℤ
pid (peer p u g) = some p
pid _ = none

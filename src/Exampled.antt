-- ===== src/Exampled.antt =====
-- The daemon that the documentation of src/lib.rs shows under "Getting started".
pub mod Loop
pub mod Accepts
pub mod Lifecycle
mod Tests
use uds_policy.Common.{
  ℕ, zero, suc, Option, none, some, Result, ok, err, List, [], ◌∷◌, Text, codes, format,
}
use uds_policy.System.{Fd, IoError, Io, ret, ask, ◌>>=◌, ◌>>◌, eprintln}
use uds_policy.Call
use uds_policy.Call.{Call}
use uds_policy.Caller.{Caller}
use uds_policy.Authorization.{Denial, allow_socket_peers}
use uds_policy.Audit.{begin, finish}
use uds_policy.Socket.Config.{SocketConfig, BindError, Socket, new, with_socket_group}
use uds_policy.Socket.Bind.{bind, drop}
use uds_policy.Socket.Accept.{accept}
use uds_policy.Watchdog.Notify.{notify_ready}

-- `CHANGE`
abbrev pub change : Call
change = Call.gated (codes "Thing") (codes "Change") (codes "org.example.thing.change")

abbrev pub daemon : Text
daemon = codes "exampled"

abbrev pub config : SocketConfig
unfolding new with_socket_group
config = with_socket_group (codes "example") (new daemon (codes "/run/example/api.sock"))

-- What a `?` returns.
pub data Stopped : Type 0 where
  unbound : BindError → Stopped
  unaccepted : IoError → Stopped

-- `speak` is the protocol that the daemon speaks over the stream.
module _ (speak : Fd → Io (Unit {0})) where
  -- after `authorizer.authorize(CHANGE, &caller)`
  pub authorized : Fd → Caller → Result (Unit {0}) Denial → Io (Unit {0})
  authorized stream caller (err denial) = do
    ask (eprintln (format (codes "exampled: refused: " ∷ denial.reason ∷ [])))
    ret tt
  authorized stream caller (ok u) = do
    audit ← begin daemon change caller
    speak stream
    finish audit none

  -- The `loop`, for as many turns as it is given: the error of the `accept` that ended it, if any.
  unfoldable pub turns : ℕ → Socket → Io (Option IoError)
  unfolding authorized
  turns zero socket = ret none
  turns (suc n) socket = do
    r ← accept socket
    elim r [
      | err error ↦ ret (some error)
      | ok (stream, caller) ↦ do
        authorized stream caller (allow_socket_peers.authorize change caller)
        turns n socket
    ]

  -- The socket is dropped with the function that returns.
  pub ended : Socket → Option IoError → Io (Result (Unit {0}) Stopped)
  ended socket none = ret (ok tt)
  ended socket (some error) = do drop socket; ret (err (unaccepted error))

  pub started : ℕ → Result Socket BindError → Io (Result (Unit {0}) Stopped)
  unfolding ended
  started n (err error) = ret (err (unbound error))
  started n (ok socket) = do notify_ready; r ← turns n socket; ended socket r

  unfoldable pub run_daemon : ℕ → Io (Result (Unit {0}) Stopped)
  unfolding started
  run_daemon n = do r ← bind config; started n r

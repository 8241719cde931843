-- ===== src/Gatekeeper/Serve/Bookkeeping.antt =====
-- The parts of examples/gatekeeper.rs that only read the clock and the environment, look names up,
-- set the listener's timeout, and write to the journal, to the client or to systemd.
use uds_policy.Common.{
  none, some, [], ◌∷◌, codes, Bool, true, false, Option, Result, ok, err, List, Text, arith,
}
use uds_policy.System.{
  Instant, Byte, IoError, Command, Io, Duration, process_id, env_var, time_val, set_receive_timeout,
  unbound_datagram, abstract_address, send_to_abstract, send_to_path, now, eprintln, cache_get,
  cache_insert, user_from_uid, write_line, Fd,
}
use uds_policy.System.Only.{Only, Only->>=, Only-mono}
use uds_policy.Call.{Call, Authorization, policy, unprivileged_tag}
use uds_policy.Caller.{Caller, peer}
use uds_policy.Caller.Names.{name_for_uid}
use uds_policy.Caller.Render
use uds_policy.Authorization.{Denial}
use uds_policy.Audit.{Operation, announce, begin, finish, describe}
use uds_policy.Gatekeeper.{answered, replied, exchange}
use uds_policy.Gatekeeper.Serve.{handled, noted, armed}
use uds_policy.Watchdog.Notify.{notify_ready, notify, notified, notify_to}
use uds_policy.Watchdog.Heartbeat.{heartbeat_interval}
use uds_policy.Socket.Config.{Socket}
use uds_policy.Socket.Accept.{set_accept_timeout}

abbrev pub IsBookkeeping : Command → Type 0
IsBookkeeping now = Unit
IsBookkeeping (eprintln l) = Unit
IsBookkeeping (cache_get u) = Unit
IsBookkeeping (cache_insert u n) = Unit
IsBookkeeping (user_from_uid u) = Unit
IsBookkeeping (write_line s t) = Unit
IsBookkeeping process_id = Unit
IsBookkeeping (env_var v) = Unit
IsBookkeeping (time_val u) = Unit
IsBookkeeping (set_receive_timeout l u) = Unit
IsBookkeeping unbound_datagram = Unit
IsBookkeeping (abstract_address a) = Unit
IsBookkeeping (send_to_abstract s a m) = Unit
IsBookkeeping (send_to_path s p m) = Unit
IsBookkeeping _ = ⊥

-- The commands of an operation and of the rendering of its caller.
abbrev pub IsNoting : Command → Type 0
IsNoting now = Unit
IsNoting (eprintln l) = Unit
IsNoting (cache_get u) = Unit
IsNoting (cache_insert u n) = Unit
IsNoting (user_from_uid u) = Unit
IsNoting _ = ⊥

noting-IsBookkeeping : (c : Command) → IsNoting c → IsBookkeeping c
noting-IsBookkeeping now q = tt
noting-IsBookkeeping (eprintln l) q = tt
noting-IsBookkeeping (cache_get u) q = tt
noting-IsBookkeeping (cache_insert u n) q = tt
noting-IsBookkeeping (user_from_uid u) q = tt
noting-IsBookkeeping _ q = absurd q

abbrev Notes : {A : Type 0} → Io A → Type 0
Notes = Only IsNoting

abbrev Books : {A : Type 0} → Io A → Type 0
Books = Only IsBookkeeping

booked : {A : Type 0} (m : Io A) → Notes m → Books m
booked m o = Only-mono m noting-IsBookkeeping o

pub display-Notes : (caller : Caller) → Notes (Render.display caller)
unfolding Render.display name_for_uid
display-Notes (peer pid uid gid) = ground arith
display-Notes _ = tt

announce-Notes :
    (service : Text) (call : Call) (caller : Caller) (started : Instant) (a : Authorization)
    → Notes (announce service call caller started a)
unfolding begin describe
announce-Notes service call caller started unprivileged_tag = tt
announce-Notes service call caller started (policy action) =
    Only->>= IsNoting (describe call action caller) _
      (Only->>= IsNoting (Render.display caller) _ (display-Notes caller) (λ by. tt))
      (λ label. ground arith)

pub begin-Notes :
    (service : Text) (call : Call) (caller : Caller) → Notes (begin service call caller)
unfolding begin
begin-Notes service call caller = (tt, λ r. announce-Notes service call caller r call.authorization)

pub begin-Books :
    (service : Text) (call : Call) (caller : Caller) → Books (begin service call caller)
begin-Books service call caller =
    booked (begin service call caller) (begin-Notes service call caller)

pub finish-Notes : (op : Operation) (failure : Option Text) → Notes (finish op failure)
unfolding finish
finish-Notes op failure = ground arith

pub finish-Books : (op : Operation) (failure : Option Text) → Books (finish op failure)
finish-Books op failure = booked (finish op failure) (finish-Notes op failure)

pub noted-Books : (error : IoError) (idle : Bool) → Books (noted error idle)
unfolding handled
noted-Books error true = tt
noted-Books error false = ground arith

notify_to-Books : (path message : Text) → Books (notify_to path message)
unfolding notify_to
notify_to-Books [] message = tt
notify_to-Books (c ∷ path) message = ground arith

notified-Books : (message : Text) (path : Option Text) → Books (notified message path)
unfolding notify
notified-Books message none = tt
notified-Books message (some path) = notify_to-Books path message

pub notify_ready-Books : Books notify_ready
unfolding notify_ready notify
notify_ready-Books = (tt, notified-Books (codes "READY=1"))

pub heartbeat_interval-Books : Books heartbeat_interval
unfolding heartbeat_interval
heartbeat_interval-Books = ground arith

pub armed-Books : (socket : Socket) (interval : Option Duration) → Books (armed socket interval)
unfolding armed set_accept_timeout
armed-Books socket none = tt
armed-Books socket (some interval) = ground arith

module _ (lossy : List Byte → Text) where
  pub replied-Notes :
      (caller : Caller) (r : Result (Unit {0}) IoError) → Notes (replied lossy caller r)
  unfolding exchange
  replied-Notes caller (err error) = tt
  replied-Notes caller (ok u) =
      Only->>= IsNoting (Render.display caller) _ (display-Notes caller) (λ by. ground arith)

  pub replied-Books :
      (caller : Caller) (r : Result (Unit {0}) IoError) → Books (replied lossy caller r)
  replied-Books caller r = booked (replied lossy caller r) (replied-Notes caller r)

  pub refused-Books :
      (stream : Fd) (caller : Caller) (denial : Denial)
      → Books (answered lossy stream caller (err denial))
  unfolding answered
  refused-Books stream caller denial =
      Only->>= IsBookkeeping (Render.display caller) _
        (booked (Render.display caller) (display-Notes caller)) (λ by. ground arith)

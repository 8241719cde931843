-- ===== src/Gatekeeper/SelfTest/Wire/Off.antt =====
-- The programs of the self-test and of its daemon that make no command on their connection.
use uds_policy.Common.{ℕ, zero, suc, Bool, true, false, Option, none, some, Result, Text, arith}
use uds_policy.System.{Instant, ret, Duration, FilePath, IoError}
use uds_policy.System.Only.{Only, Only->>=}
use uds_policy.Caller.{of_socket}
use uds_policy.Socket.Config.{Socket, SocketConfig}
use uds_policy.Socket.Bind.{bind}
use uds_policy.Socket.Reclaim.{reclaim_stale_socket}
use uds_policy.Socket.Group.{give_socket_to_group}
use uds_policy.Socket.Accept.{set_accept_timeout}
use uds_policy.Gatekeeper.Serve.{own, armed, noted}
use uds_policy.Watchdog.Notify.{notify_ready, notify, notify_to}
use uds_policy.Watchdog.Heartbeat.{heartbeat_interval}
use uds_policy.Gatekeeper.SelfTest.Wire.Steps.{IsOffWire}
use uds_policy.Gatekeeper.SelfTest.Client.{waited, looked, overslept}
use uds_policy.Gatekeeper.SelfTest.Halves.{prepared}

pub bind-OffWire : (config : SocketConfig) → Only IsOffWire (bind config)
unfolding bind reclaim_stale_socket give_socket_to_group
bind-OffWire config = ground arith

pub own-OffWire : Only IsOffWire own
unfolding own of_socket
own-OffWire = (tt, λ r. ground arith)

pub notify_ready-OffWire : Only IsOffWire notify_ready
unfolding notify_ready notify notify_to
notify_ready-OffWire = ground arith

pub heartbeat_interval-OffWire : Only IsOffWire heartbeat_interval
unfolding heartbeat_interval
heartbeat_interval-OffWire = (tt, λ usec. (tt, λ pid. (tt, λ current. tt)))

pub armed-OffWire :
    (socket : Socket) (interval : Option Duration) → Only IsOffWire (armed socket interval)
unfolding armed set_accept_timeout
armed-OffWire socket interval = ground arith

pub noted-OffWire : (error : IoError) (idle : Bool) → Only IsOffWire (noted error idle)
unfolding noted
noted-OffWire error true = tt
noted-OffWire error false = (tt, λ u. tt)

pub looked-OffWire : (deadline : Instant) (there : Bool) → Only IsOffWire (looked deadline there)
unfolding looked overslept
looked-OffWire deadline true = tt
looked-OffWire deadline false = (tt, λ at. ground arith)

pub waited-OffWire :
    (n : ℕ) (path : FilePath) (deadline : Instant) → Only IsOffWire (waited n path deadline)
unfolding waited
waited-OffWire zero path deadline = tt
waited-OffWire (suc n) path deadline = (
  tt,
  λ there.
      Only->>= IsOffWire (looked deadline there) _ (looked-OffWire deadline there)
        (next n path deadline (waited-OffWire n path deadline)),
)
  where
    next :
        (n : ℕ) (path : FilePath) (deadline : Instant)
        → Only IsOffWire (waited n path deadline)
        → (r : Option (Result (Unit {0}) IoError))
        → Only IsOffWire
            (elim r [ none ↦ waited n path deadline | some settled ↦ ret (some settled) ])
    next n path deadline o none = o
    next n path deadline o (some settled) = tt

pub prepared-OffWire : (to_str : FilePath → Option Text) → Only IsOffWire (prepared to_str)
unfolding prepared
prepared-OffWire to_str = (tt, λ base. (tt, λ pid. (tt, λ created. tt)))

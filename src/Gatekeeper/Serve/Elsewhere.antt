-- ===== src/Gatekeeper/Serve/Elsewhere.antt =====
-- Between binding its socket and dropping it, `serve` of examples/gatekeeper.rs touches no path.
use uds_policy.Common.{
  ℕ, zero, suc, Bool-cases, inl, inr, Option, Result, ok, err, List, Text, arith,
}
use uds_policy.System.{
  Duration, Byte, Fd, IoError, Command, Io, exists, symlink_is_socket, connect, remove_file,
  bind_listener, set_permissions, chown_group, connect_stream, create_dir_all, remove_dir_all,
  file_mode, spawn, kill_child, wait_child, close, now, eprintln, cache_get, cache_insert,
  user_from_uid, process_id, env_var, time_val, set_receive_timeout, unbound_datagram,
  abstract_address, send_to_abstract, send_to_path, write_line,
}
use uds_policy.System.Only.{Only, Only->>=, Only-mono}
use uds_policy.Gatekeeper.Serve.Bookkeeping.{
  IsBookkeeping, begin-Books, finish-Books, noted-Books, replied-Books, refused-Books,
  notify_ready-Books, heartbeat_interval-Books, armed-Books,
}
use uds_policy.Caller.{Caller, of_socket}
use uds_policy.Authorization.{Authorizer, Denial}
use uds_policy.Audit.{begin}
use uds_policy.Socket.Config.{Socket}
use uds_policy.Socket.Accept.{accept}
use uds_policy.Watchdog.Heartbeat.{heartbeat_interval}
use uds_policy.Watchdog.Notify.{notify_ready}
use uds_policy.Gatekeeper.{answer, answered, said, exchange}
use uds_policy.Gatekeeper.Serve.{Turned, own, armed, turn, turns, handled, goes_on, noted, is_idle}

-- The commands that are not about a path, a listener's end or a process that may have one.
abbrev pub IsElsewhere : Command → Type 0
IsElsewhere (exists p) = ⊥
IsElsewhere (symlink_is_socket p) = ⊥
IsElsewhere (connect p) = ⊥
IsElsewhere (remove_file p) = ⊥
IsElsewhere (bind_listener p) = ⊥
IsElsewhere (set_permissions p m) = ⊥
IsElsewhere (chown_group p g) = ⊥
IsElsewhere (connect_stream p) = ⊥
IsElsewhere (create_dir_all p) = ⊥
IsElsewhere (remove_dir_all p) = ⊥
IsElsewhere (file_mode p) = ⊥
IsElsewhere (spawn p a v x) = ⊥
IsElsewhere (kill_child c) = ⊥
IsElsewhere (wait_child c) = ⊥
IsElsewhere (close l) = ⊥
IsElsewhere _ = Unit

abbrev pub Quiet : {A : Type 0} → Io A → Type 0
Quiet = Only IsElsewhere

pub own-Quiet : Quiet own
unfolding own of_socket
own-Quiet = (tt, λ r. ground arith)

bookkeeping-IsElsewhere : (c : Command) → IsBookkeeping c → IsElsewhere c
bookkeeping-IsElsewhere now q = tt
bookkeeping-IsElsewhere (eprintln l) q = tt
bookkeeping-IsElsewhere (cache_get u) q = tt
bookkeeping-IsElsewhere (cache_insert u n) q = tt
bookkeeping-IsElsewhere (user_from_uid u) q = tt
bookkeeping-IsElsewhere (write_line s t) q = tt
bookkeeping-IsElsewhere process_id q = tt
bookkeeping-IsElsewhere (env_var v) q = tt
bookkeeping-IsElsewhere (time_val u) q = tt
bookkeeping-IsElsewhere (set_receive_timeout l u) q = tt
bookkeeping-IsElsewhere unbound_datagram q = tt
bookkeeping-IsElsewhere (abstract_address a) q = tt
bookkeeping-IsElsewhere (send_to_abstract s a m) q = tt
bookkeeping-IsElsewhere (send_to_path s p m) q = tt
bookkeeping-IsElsewhere _ q = absurd q

pub quietly : {A : Type 0} (m : Io A) → Only IsBookkeeping m → Quiet m
quietly m o = Only-mono m bookkeeping-IsElsewhere o

pub notify_ready-Quiet : Quiet notify_ready
notify_ready-Quiet = quietly notify_ready notify_ready-Books

pub heartbeat_interval-Quiet : Quiet heartbeat_interval
heartbeat_interval-Quiet = quietly heartbeat_interval heartbeat_interval-Books

pub armed-Quiet : (socket : Socket) (interval : Option Duration) → Quiet (armed socket interval)
armed-Quiet socket interval = quietly (armed socket interval) (armed-Books socket interval)

pub accept-Quiet : (socket : Socket) → Quiet (accept socket)
unfolding accept of_socket
accept-Quiet socket = ground arith

module _ (lossy : List Byte → Text) where
  said-Quiet :
      (stream : Fd) (caller : Caller) (r : Result (List Byte) IoError)
      → Quiet (said lossy stream caller r)
  unfolding exchange
  said-Quiet stream caller (err error) = tt
  said-Quiet stream caller (ok bytes) = (tt, λ r. quietly _ (replied-Books lossy caller r))

  exchange-Quiet : (stream : Fd) (caller : Caller) → Quiet (exchange lossy stream caller)
  unfolding exchange
  exchange-Quiet stream caller = (tt, said-Quiet stream caller)

  answered-Quiet :
      (stream : Fd) (caller : Caller) (verdict : Result (Unit {0}) Denial)
      → Quiet (answered lossy stream caller verdict)
  unfolding answered
  answered-Quiet stream caller (err denial) = quietly _ (refused-Books lossy stream caller denial)
  answered-Quiet stream caller (ok u) =
      Only->>= IsElsewhere (begin _ _ caller) _ (quietly _ (begin-Books _ _ caller)) (λ op.
        Only->>= IsElsewhere (exchange lossy stream caller) _ (exchange-Quiet stream caller)
          (λ outcome. quietly _ (finish-Books op _)))

  module _ (authorizer : Authorizer) (socket : Socket) where
    handled-Quiet :
        (l : Turned) (r : Result (Fd × Caller) IoError) → Quiet (handled lossy authorizer l r)
    unfolding handled answer
    handled-Quiet l (err error) =
        Only->>= IsElsewhere (noted error (is_idle error.kind)) _
          (quietly _ (noted-Books error (is_idle error.kind))) (λ u. tt)
    handled-Quiet l (ok (stream, caller)) = (
      tt,
      λ started.
          Only->>= IsElsewhere (answered lossy stream caller _) _ (answered-Quiet stream caller _)
            (λ u. ground arith),
    )

    turn-Quiet : (l : Turned) → Quiet (turn lossy authorizer socket l)
    unfolding turn
    turn-Quiet l = Only->>= IsElsewhere (accept socket) _ (accept-Quiet socket) (λ r.
        Only->>= IsElsewhere (handled lossy authorizer l r) _ (handled-Quiet l r)
          (λ m. ground arith))

    pub turns-Quiet :
        (n : ℕ) (limit : Option ℕ) (l : Turned) → Quiet (turns lossy authorizer n socket limit l)
    unfolding turns
    turns-Quiet zero limit l = tt
    turns-Quiet (suc n) limit l = elim (Bool-cases (goes_on limit l.served)) [
      | inl on ↦ rw on (
          Only->>= IsElsewhere (turn lossy authorizer socket l) _ (turn-Quiet l)
            (λ m. turns-Quiet n limit m))
      | inr over ↦ rw over tt
    ]

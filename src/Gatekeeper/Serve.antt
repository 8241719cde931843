-- ===== src/Gatekeeper/Serve.antt =====
-- `serve` and `nix_uid` of examples/gatekeeper.rs: bind, arm the watchdog, and turn the accept loop.
pub mod Loop
pub mod Looped
pub mod Armed
pub mod Alive
pub mod Bookkeeping
pub mod Counted
pub mod Accounts
pub mod Vetted
pub mod Elsewhere
pub mod Lifecycle
pub mod Watched
pub mod Tests
use uds_policy.Common.{
  ℕ, zero, suc, ◌*◌, ◌+◌, Bool, true, false, Option, none, some, Result, ok, err, List, [], ◌∷◌,
  Text, codes, format, ltb, u64_max, if◌then◌else◌,
}
use uds_policy.System.{
  FilePath, Duration, Byte, ErrorKind, would_block, timed_out, IoError, Fd, Io, ret, ask, ◌>>=◌,
  ◌>>◌, now, eprintln, socket_pair,
}
use uds_policy.Caller
use uds_policy.Caller.{Caller, of_socket}
use uds_policy.Authorization.{Authorizer, for_uids, peer_gate}
use uds_policy.Socket.Config
use uds_policy.Socket.Config.{Socket, BindError}
use uds_policy.Socket.Bind.{bind, drop}
use uds_policy.Socket.Accept.{accept, set_accept_timeout}
use uds_policy.Watchdog.Liveness
use uds_policy.Watchdog.Liveness.{Liveness, bounded, with_idle_tick_ceiling}
use uds_policy.Watchdog.Activity
use uds_policy.Watchdog.Activity.{ServeActivity, tick, call_started, call_finished}
use uds_policy.Watchdog.Heartbeat.{heartbeat_interval}
use uds_policy.Watchdog.Notify.{notify_ready}
use uds_policy.Gatekeeper.{daemon, answer}

-- `Caller::of_socket(&here).uid()` and `unwrap_or(0)`
uid_or_root : Option ℕ → ℕ
uid_or_root (some uid) = uid
uid_or_root none = 0

own_uid : Result (Fd × Fd) IoError → Io ℕ
unfolding uid_or_root
own_uid (err _) = ret 0
own_uid (ok (here, there)) = do caller ← of_socket here; ret (uid_or_root (Caller.uid caller))

-- `nix_uid`
unfoldable pub own : Io ℕ
unfolding own_uid
own = do pair ← ask socket_pair; own_uid pair

-- the arms of the `match` on `socket.set_accept_timeout(interval)`
guarded : Duration → Result (Unit {0}) IoError → Io Liveness
guarded interval (ok _) = ret (with_idle_tick_ceiling (interval * 3) Liveness.new)
guarded interval (err error) = do
  ask (
      eprintln
        (format (daemon ∷ codes ": watchdog accept timeout unavailable: " ∷ error.message ∷ [])))
  ret Liveness.new

-- `if let Some(interval) = watchdog::heartbeat_interval()`: what `spawn_heartbeat` is given
unfoldable pub armed : Socket → Option Duration → Io (Option (Duration × Liveness))
unfolding guarded
armed socket none = ret none
armed socket (some interval) = do
  r ← set_accept_timeout socket interval
  liveness ← guarded interval r
  ret (some (interval, liveness))

-- `matches!(error.kind(), ErrorKind::WouldBlock | ErrorKind::TimedOut)`
pub is_idle : ErrorKind → Bool
is_idle would_block = true
is_idle timed_out = true
is_idle _ = false

unfoldable pub noted : IoError → Bool → Io (Unit {0})
noted error true = ret tt
noted error false = do
  ask (eprintln (format (daemon ∷ codes ": accept failed: " ∷ error.message ∷ [])))
  ret tt

-- What the loop carries from turn to turn: the shared record, and how many calls it served.
pub record Turned : Type 0 where
  pub activity : ServeActivity
  pub served : ℕ

-- `served.saturating_add(1)`, of a 64-bit `usize`
unfoldable pub one_more : ℕ → ℕ
one_more served = if ltb served u64_max then served + 1 else served

-- `limit.is_none_or(|max| served < max)`
unfoldable pub goes_on : Option ℕ → ℕ → Bool
goes_on none served = true
goes_on (some max) served = ltb served max

-- what ends with `serve`
unfoldable pub left : Socket → Turned → Io (Result Turned BindError)
left socket l = do drop socket; ret (ok l)

module _ (lossy : List Byte → Text) (authorizer : Authorizer) where
  -- the arms of the `match` on `socket.accept()`
  unfoldable pub handled : Turned → Result (Fd × Caller) IoError → Io Turned
  unfolding one_more noted is_idle
  handled l (ok (stream, caller)) = do
    started ← ask now
    answer lossy stream caller authorizer
    finished ← ask now
    ret (record {
      activity = call_finished finished (call_started bounded started l.activity);
      served = one_more l.served;
    })
  handled l (err error) = do noted error (is_idle error.kind); ret l

  -- one turn of the loop, with the `tick` that ends it
  unfoldable pub turn : Socket → Turned → Io Turned
  unfolding handled
  turn socket l = do
    r ← accept socket
    l ← handled l r
    at ← ask now
    ret (record l { activity = tick at l.activity })

  -- The `while` loop, for as many turns as it is given.
  unfoldable pub turns : ℕ → Socket → Option ℕ → Turned → Io Turned
  turns zero socket limit l = ret l
  turns (suc n) socket limit l =
      if goes_on limit l.served then turn socket l >>= turns n socket limit else ret l

  -- The `while` loop with what follows it. When its condition no longer holds, the socket is dropped
  -- with the end of `serve`; after as many turns as it is given, the process is stopped in front of
  -- another one.
  unfoldable pub looped : ℕ → Socket → Option ℕ → Turned → Io (Result Turned BindError)
  unfolding left
  looped zero socket limit l = if goes_on limit l.served then ret (ok l) else left socket l
  looped (suc n) socket limit l =
      if goes_on limit l.served then turn socket l >>= looped n socket limit else left socket l

-- after `nix_uid()`
unfoldable pub opened :
    (List Byte → Text) → ℕ → FilePath → Option ℕ → Socket → ℕ → Io (Result Turned BindError)
unfolding looped
opened lossy n socket_path limit socket uid = do
  created ← ask now
  notify_ready
  interval ← heartbeat_interval
  armed socket interval
  ask (eprintln (format (daemon ∷ codes ": serving on " ∷ socket_path ∷ [])))
  looped lossy (peer_gate (for_uids (uid ∷ []))) n socket limit
      (record { activity = Activity.new created; served = 0 })

-- after `Socket::bind(…)?`
unfoldable pub serving :
    (List Byte → Text)
    → ℕ
    → FilePath
    → Option ℕ
    → Result Socket BindError
    → Io (Result Turned BindError)
unfolding opened
serving lossy n socket_path limit (err error) = ret (err error)
serving lossy n socket_path limit (ok socket) = do
  uid ← own
  opened lossy n socket_path limit socket uid

unfoldable pub serve : (List Byte → Text) → ℕ → FilePath → Option ℕ → Io (Result Turned BindError)
unfolding serving
serve lossy n socket_path limit = do
  r ← bind (Config.new daemon socket_path)
  serving lossy n socket_path limit r

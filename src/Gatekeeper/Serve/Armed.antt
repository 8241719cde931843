-- ===== src/Gatekeeper/Serve/Armed.antt =====
-- How `serve` of examples/gatekeeper.rs arms the watchdog.
use uds_policy.Common.{◌*◌, ◌/◌, ◌≤◌, ◌≡◌, some, arith}
use uds_policy.System.{Duration, Handler, run, time_val}
use uds_policy.Socket.Config.{Socket}
use uds_policy.Socket.Accept.{set_accept_timeout}
use uds_policy.Socket.Accept.Deadline.{SocketKernel}
use uds_policy.Watchdog.Liveness
use uds_policy.Watchdog.Liveness.{Liveness, with_idle_tick_ceiling}
use uds_policy.Gatekeeper.Serve.{armed}

module _ {S : Type 0} (h : Handler S) (k : SocketKernel h) (socket : Socket) where
  -- With an interval of a microsecond or more, the heartbeat is given an idle ceiling only if the
  -- listener wakes up at least once in each interval, and then the ceiling is three of them.
  pub armed_wakes :
      (interval ceiling : Duration) (liveness : Liveness) (s : S)
      → 1_000 ≤ interval
      → (run h (armed socket (some interval)) s).result ≡ some (interval, liveness)
      → liveness.idle_tick_ceiling ≡ some ceiling
      → (ceiling ≡ interval * 3)
        × ((wait : Duration) × (wait ≤ interval)
            × (k.deadline (run h (armed socket (some interval)) s).state socket.listener
                ≡ some wait))
  unfolding armed set_accept_timeout Liveness.new with_idle_tick_ceiling
  armed_wakes interval ceiling liveness s least is has =
      let t = (h (time_val (interval / 1_000)) s).1 in
      let set = k.receive_timeout_set socket.listener (interval / 1_000) t in
      let exact = k.time_val_exact (interval / 1_000) s in
      (ground arith, ((interval / 1_000) * 1_000, omega arith, ground (arith, set)))

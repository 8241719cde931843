-- ===== src/Socket/Tests/Race.antt =====
-- Two daemons of different names that start at once on one stale socket.
use uds_policy.Common.{◌≡◌, refl, none, Result, ok, Text, codes}
use uds_policy.System.{Command, Answer, ret, run}
use uds_policy.System.Sample.{sample}
use uds_policy.System.Threads.{Pool, Reach}
use uds_policy.System.Schedule.{follows}
use uds_policy.Socket.Config.{SocketConfig, Socket, BindError}
use uds_policy.Socket.Bind.{drop}
use uds_policy.Socket.Bind.Race.{Place, free, leads_to, one_path, begun, racing_daemons}

abbrev other : (c : Command) → Answer c
other c = (sample c 0).0

abbrev config : Text → SocketConfig
config daemon = record {
  daemon = daemon;
  socket_path = codes "/run/example/api.sock";
  socket_mode = 0o660;
  socket_group = none;
  request_read_timeout = none;
}

abbrev first : SocketConfig
first = config (codes "first")

abbrev second : SocketConfig
second = config (codes "second")

abbrev say : Text
say = codes "refused"

racing_daemons_example :
    (q : Pool Place (Result Socket BindError)) × Reach
      (follows (one_path other say))
      (begun first second 3)
      q
    × (q.threads 0 ≡ ret (ok (record { listener = 3; config = first })))
    × (q.threads 1 ≡ ret (ok (record { listener = 4; config = second })))
    × (q.shared.entry ≡ leads_to 4)
    × ((run
          (one_path other say)
          (drop (record { listener = 3; config = first }))
          q.shared).state.entry
        ≡ free)
racing_daemons_example = racing_daemons other say first second 3 refl refl refl

-- ===== src/Socket/Tests.antt =====
-- Runs of src/socket.rs, and its theorems at concrete inputs.
pub mod Memory
pub mod Streams
mod Race
use uds_policy.Common.{
  ◌≡◌, refl, Bool, true, false, Option, none, some, Result, ok, is_ok, List, [], ◌∷◌, ◌++◌, Text,
  codes, All, arith,
}
use uds_policy.System.{run}
use uds_policy.System.Sample.{sample}
use uds_policy.Socket.Config.{SocketConfig, Socket}
use uds_policy.Socket.Group.{give_socket_to_group}
use uds_policy.Socket.Group.Loud.{IsLoud, give_socket_to_group-IsLoud}
use uds_policy.Socket.Bind.{bind}
use uds_policy.Socket.Bind.Unlinks.{seen_after, nothing, UnlinkAllowed, bind_unlinks}
use uds_policy.System.Observe.{Follows}
use uds_policy.Socket.Bind.Ownership.{bind_holds, ConfiguredAs}
use uds_policy.Socket.Notes.{notes, removed, proven_stale, mode_failed, holding}

abbrev config : SocketConfig
config = record {
  daemon = codes "exampled";
  socket_path = codes "/run/example/api.sock";
  socket_mode = 0o660;
  socket_group = some (codes "example");
  request_read_timeout = some 30_000_000_000;
}

abbrev socket : Socket
socket = record { listener = 3; config = config }

-- The surroundings of `sample` show a stale socket: it is unlinked, and the path is bound.
stale_reclaimed :
    (removed (notes (run sample (bind config) 0).trace) ≡ config.socket_path ∷ [])
    × ((run sample (bind config) 0).result ≡ ok socket)
unfolding bind give_socket_to_group
stale_reclaimed = (refl, refl)

bind_unlinks_example :
    Follows seen_after (UnlinkAllowed config.socket_path) nothing (run sample (bind config) 0).trace
    × (removed (notes (run sample (bind config) 0).trace)
        ≡ proven_stale (notes (run sample (bind config) 0).trace)
          ++ mode_failed (notes (run sample (bind config) 0).trace))
    × All (λ p. p ≡ config.socket_path) (removed (notes (run sample (bind config) 0).trace))
bind_unlinks_example = bind_unlinks sample config 0

bind_holds_example :
    (holding false (notes (run sample (bind config) 0).trace)
      ≡ is_ok (run sample (bind config) 0).result)
    × ConfiguredAs config (run sample (bind config) 0).result
bind_holds_example = bind_holds sample config 0

give_socket_to_group-IsLoud_example :
    IsLoud sample
      (codes "/run/s")
      (codes "example")
      (codes "exampled")
      (run sample
        (give_socket_to_group (codes "/run/s") (codes "example") (codes "exampled"))
        0).trace
give_socket_to_group-IsLoud_example =
    give_socket_to_group-IsLoud sample (codes "/run/s") (codes "example") (codes "exampled") 0

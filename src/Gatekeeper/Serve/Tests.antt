-- ===== src/Gatekeeper/Serve/Tests.antt =====
-- `serve` on a file system with one path, in memory.
use uds_policy.Common.{◌≡◌, refl, List, [], ◌∷◌, none, some, Text, codes}
use uds_policy.System.{
  Byte, Command, run, exists, symlink_is_socket, connect, remove_file, bind_listener,
  set_permissions, chown_group,
}
use uds_policy.Socket.Bind.Kernel.{Node, dead_socket}
use uds_policy.Socket.Tests.Memory
use uds_policy.Socket.Tests.Memory.{memory}
use uds_policy.Socket.Config.{new}
use uds_policy.Socket.Bind.{bind}
use uds_policy.Gatekeeper.{daemon}
use uds_policy.Gatekeeper.Serve.Vetted.{ReadsVetted}
use uds_policy.Gatekeeper.Serve.Vetted.Start.{serve_vetted}
use uds_policy.Gatekeeper.Serve.{own, serve}
use uds_policy.Gatekeeper.Serve.Elsewhere.{IsElsewhere}
use uds_policy.Gatekeeper.Serve.Lifecycle.{ServeKernel, ServePromise, serve_refines}

abbrev socket_path : Text
socket_path = codes "/tmp/uds-policy-gatekeeper.sock"

pub elsewhere_lem : (c : Command) (n : Node) → IsElsewhere c → (memory c n).1 ≡ n
elsewhere_lem (exists p) n q = absurd q
elsewhere_lem (symlink_is_socket p) n q = absurd q
elsewhere_lem (connect p) n q = absurd q
elsewhere_lem (remove_file p) n q = absurd q
elsewhere_lem (bind_listener p) n q = absurd q
elsewhere_lem (set_permissions p m) n q = absurd q
elsewhere_lem (chown_group p g) n q = absurd q
elsewhere_lem _ n q = refl

abbrev kernel : ServeKernel memory socket_path
kernel = record {
  path = Memory.kernel socket_path;
  unlink_lem = λ m s e. refl;
  elsewhere_lem = elsewhere_lem;
}

abbrev ascii : List Byte → Text
ascii bytes = bytes

serve_refines_example :
    let o = run memory (serve ascii 3 socket_path (some 2)) dead_socket in
    ServePromise socket_path (some 2) dead_socket o.result o.state
serve_refines_example = serve_refines ascii memory socket_path kernel 3 (some 2) dead_socket

serve_vetted_example :
    let uid =
      (run memory own (run memory (bind (new daemon socket_path)) dead_socket).state).result in
    ReadsVetted (uid ∷ []) none (run memory (serve ascii 3 socket_path (some 2)) dead_socket).trace
serve_vetted_example = serve_vetted ascii 3 (some 2) memory socket_path dead_socket

-- ===== src/Socket/Tests/Memory.antt =====
-- A file system with one path, in memory, which meets what `PathKernel` documents.
use uds_policy.Common.{ℕ, ◌≡◌, refl, Bool, true, false, none, some, Result, ok, err, codes}
use uds_policy.System.{
  FilePath, Fd, IoError, Handler, run, exists, symlink_is_socket, connect, remove_file,
  bind_listener, set_permissions,
}
use uds_policy.System.Sample.{sample, refused, denied}
use uds_policy.Socket.Config.{SocketConfig, already_active}
use uds_policy.Socket.Bind.{bind}
use uds_policy.Socket.Bind.Kernel.{
  Node, absent, dead_socket, live_socket, there, IsStat, IsProbe, IsBound, PathKernel, Promise,
}
use uds_policy.Socket.Bind.Kernel.Refines.{bind_refines}
use uds_policy.Socket.Bind.Ownership.{refused_bind_untouched}
use uds_policy.Socket.Notes.{notes, touched}

abbrev pub stat : Node → Result Bool IoError
stat absent = err denied
stat dead_socket = ok true
stat (live_socket m) = ok true
stat _ = ok false

abbrev pub probe : Node → Result (Unit {0}) IoError
probe (live_socket m) = ok tt
probe _ = err refused

abbrev pub bound : Node → Result Fd IoError × Node
bound absent = (ok 3, live_socket 0o755)
bound old = (err denied, old)

abbrev pub mode_set : ℕ → Node → Node
mode_set mode (live_socket m) = live_socket mode
mode_set mode old = old

abbrev pub memory : Handler Node
memory (exists p) n = (there n, n)
memory (symlink_is_socket p) n = (stat n, n)
memory (connect p) n = (probe n, n)
memory (remove_file p) n = (ok tt, absent)
memory (bind_listener p) n = bound n
memory (set_permissions p m) n = (ok tt, mode_set m n)
memory c n = ((sample c 0).0, n)

pub stat_lem : (n : Node) → IsStat n (stat n)
stat_lem absent = (denied, refl)
stat_lem _ = refl

pub probe_lem : (n : Node) → IsProbe n (probe n)
probe_lem dead_socket = (refused, refl, refl)
probe_lem (live_socket m) = refl
probe_lem _ = tt

pub bound_lem : (n : Node) → IsBound n (bound n).0 (bound n).1
bound_lem absent = (3, 0o755, refl, refl)
bound_lem _ = (denied, refl, refl)

pub mode_set_lem : (mode m : ℕ) (n : Node) → n ≡ live_socket m → mode_set mode n ≡ live_socket mode
mode_set_lem mode m n e = rw e refl

abbrev pub kernel : (p : FilePath) → PathKernel memory p
kernel p = record {
  node = λ n. n;
  exists_lem = λ n. (refl, refl);
  stat_lem = λ n. (stat_lem n, refl);
  connect_lem = λ n. (probe_lem n, refl);
  remove_lem = λ n e. (refl, refl);
  bind_lem = bound_lem;
  chmod_lem = λ mode m n e. (refl, mode_set_lem mode m n e);
  chown_lem = λ g n. refl;
  group_lem = λ g n. refl;
  eprintln_lem = λ l n. refl;
}

abbrev config : SocketConfig
config = record {
  daemon = codes "exampled";
  socket_path = codes "/run/example/api.sock";
  socket_mode = 0o660;
  socket_group = some (codes "example");
  request_read_timeout = none;
}

bind_refines_example :
    Promise config dead_socket
      (run memory (bind config) dead_socket).result
      (run memory (bind config) dead_socket).state
bind_refines_example = bind_refines memory config (kernel config.socket_path) dead_socket

served :
    (run memory (bind config) (live_socket 0o660)).result ≡ err (already_active config.socket_path)
unfolding bind
served = refl

refused_bind_untouched_example :
    touched (notes (run memory (bind config) (live_socket 0o660)).trace) ≡ false
refused_bind_untouched_example =
    refused_bind_untouched memory config (live_socket 0o660) (already_active config.socket_path)
      served tt

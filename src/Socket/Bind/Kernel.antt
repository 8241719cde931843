-- ===== src/Socket/Bind/Kernel.antt =====
-- `bind` on a file system: what becomes of the path, for everything that can stand there.
pub mod Refines
use uds_policy.Common.{
  ℕ, ◌≡◌, refl, ap, ◌∙◌, Bool, true, false, Option, none, some, Result, ok, err, Text, arith,
}
use uds_policy.System.{
  FilePath, Fd, IoError, connection_refused, Handler, run, exists, symlink_is_socket, connect,
  remove_file, bind_listener, set_permissions, chown_group, group_from_name, eprintln, run-bind,
}
use uds_policy.Socket.Config.{SocketConfig, BindError, already_active, not_a_socket, io, Socket}
use uds_policy.Socket.Group.{give_socket_to_group}
use uds_policy.Socket.Reclaim.{reclaim_stale_socket}
use uds_policy.Socket.Bind.{bind, offer, cleared, found, listening, permitted}

-- What a path can be: nothing, a file of another kind, a symbolic link whose target exists or does
-- not, a socket that nothing listens on, or one that is served, with its mode.
pub data Node : Type 0 where
  absent other_file dead_socket : Node
  symlink : Bool → Node
  live_socket : ℕ → Node

abbrev pub there : Node → Bool
there absent = false
there (symlink target) = target
there _ = true

abbrev pub IsStat : Node → Result Bool IoError → Type 0
IsStat absent r = (e : IoError) × (r ≡ err e)
IsStat dead_socket r = r ≡ ok true
IsStat (live_socket m) r = r ≡ ok true
IsStat _ r = r ≡ ok false

abbrev pub IsProbe : Node → Result (Unit {0}) IoError → Type 0
IsProbe dead_socket r = (e : IoError) × (r ≡ err e) × (e.kind ≡ connection_refused)
IsProbe (live_socket m) r = r ≡ ok tt
IsProbe _ r = Unit

-- `bind(2)`: a path that is taken is refused, whatever it is.
abbrev pub IsBound : Node → Result Fd IoError → Node → Type 0
IsBound absent r n = (fd : Fd) × (m : ℕ) × (r ≡ ok fd) × (n ≡ live_socket m)
IsBound old r n = (e : IoError) × (r ≡ err e) × (n ≡ old)

-- What the kernel documents of one path, for a process that may write to its directory and that
-- nobody interferes with.
pub record PathKernel {S : Type 0} (h : Handler S) (p : FilePath) : Type 1 where
  pub node : S → Node
  pub exists_lem :
      (s : S) → ((h (exists p) s).0 ≡ there (node s)) × (node (h (exists p) s).1 ≡ node s)
  pub stat_lem :
      (s : S)
      → IsStat (node s) (h (symlink_is_socket p) s).0
        × (node (h (symlink_is_socket p) s).1 ≡ node s)
  pub connect_lem :
      (s : S) → IsProbe (node s) (h (connect p) s).0 × (node (h (connect p) s).1 ≡ node s)
  pub remove_lem :
      (s : S)
      → node s ≡ dead_socket
      → ((h (remove_file p) s).0 ≡ ok tt) × (node (h (remove_file p) s).1 ≡ absent)
  pub bind_lem :
      (s : S) → IsBound (node s) (h (bind_listener p) s).0 (node (h (bind_listener p) s).1)
  pub chmod_lem :
      (mode m : ℕ) (s : S)
      → node s ≡ live_socket m
      → ((h (set_permissions p mode) s).0 ≡ ok tt)
        × (node (h (set_permissions p mode) s).1 ≡ live_socket mode)
  pub chown_lem : (g : ℕ) (s : S) → node (h (chown_group p g) s).1 ≡ node s
  pub group_lem : (g : Text) (s : S) → node (h (group_from_name g) s).1 ≡ node s
  pub eprintln_lem : (l : Text) (s : S) → node (h (eprintln l) s).1 ≡ node s

-- The promise of `bind` for each kind of node: the result, and the node afterwards.
abbrev pub Promise : SocketConfig → Node → Result Socket BindError → Node → Type 0
Promise config absent r n =
    (fd : Fd) × (r ≡ ok (record { listener = fd; config = config }))
    × (n ≡ live_socket config.socket_mode)
Promise config dead_socket r n =
    (fd : Fd) × (r ≡ ok (record { listener = fd; config = config }))
    × (n ≡ live_socket config.socket_mode)
Promise config (live_socket m) r n =
    (r ≡ err (already_active config.socket_path)) × (n ≡ live_socket m)
Promise config other_file r n = (r ≡ err (not_a_socket config.socket_path)) × (n ≡ other_file)
Promise config (symlink true) r n = (r ≡ err (not_a_socket config.socket_path)) × (n ≡ symlink true)
Promise config (symlink false) r n = (e : IoError) × (r ≡ err (io e)) × (n ≡ symlink false)

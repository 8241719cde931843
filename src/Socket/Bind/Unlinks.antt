-- ===== src/Socket/Bind/Unlinks.antt =====
-- Which files `bind` removes, and right after what.
use uds_policy.Common.{◌≡◌, ◌⊎◌, true, ok, err, [], ◌++◌, Text, All, arith}
use uds_policy.System.{
  FilePath, connection_refused, Command, Answer, Handler, run, symlink_is_socket, connect,
  remove_file, bind_listener, set_permissions,
}
use uds_policy.System.Observe.{Follows}
use uds_policy.Socket.Config.{SocketConfig}
use uds_policy.Socket.Reclaim.{reclaim_stale_socket}
use uds_policy.Socket.Group.{give_socket_to_group}
use uds_policy.Socket.Bind.{bind}
use uds_policy.Socket.Notes.{notes, removed, proven_stale, mode_failed}

-- What the last commands have shown, with the path of each: a socket, then that it refused a
-- connection; or a listener that was bound, then that its mode could not be set.
pub data Seen : Type 0 where
  nothing : Seen
  socket_at bound_at : FilePath → Seen
  refused_at unmoded_at : FilePath → FilePath → Seen

-- Any other command, and any other answer, makes all of it old.
abbrev pub seen_after : (c : Command) → Answer c → Seen → Seen
seen_after (symlink_is_socket p) (ok true) x = socket_at p
seen_after (connect q) (err e) (socket_at p) = elim e.kind [
  | connection_refused ↦ refused_at p q
  | _ ↦ nothing
]
seen_after (bind_listener p) (ok fd) x = bound_at p
seen_after (set_permissions q m) (err e) (bound_at p) = unmoded_at p q
seen_after _ _ _ = nothing

module _ (path : FilePath) where
  -- A file is removed only at `path`, and only when the last two commands were the look that found a
  -- socket there and the connection that it refused, or the bind there and the failure to set its mode.
  abbrev pub UnlinkAllowed : Command → Seen → Type 0
  UnlinkAllowed (remove_file p) x =
      (p ≡ path) × ((x ≡ refused_at path path) ⊎ (x ≡ unmoded_at path path))
  UnlinkAllowed _ x = Unit

module _ {S : Type 0} (h : Handler S) where
  reclaim_unlinks :
      (p : FilePath) (s : S)
      → let t = notes (run h (reclaim_stale_socket p) s).trace in removed t ≡ proven_stale t
  unfolding reclaim_stale_socket
  reclaim_unlinks p s = ground arith

  give-quiet :
      (p : FilePath) (group daemon : Text) (s : S)
      → let t = notes (run h (give_socket_to_group p group daemon) s).trace in
        (removed t ≡ []) × (proven_stale t ≡ []) × (mode_failed t ≡ [])
  unfolding give_socket_to_group
  give-quiet p group daemon s = ground arith

  -- `bind` removes a file only at its path, and only right after one of two things: the look that
  -- found a socket there and then the connection that it refused, or its own bind there and then the
  -- failure to set its mode, with no other command between. So the files that it asks to remove are,
  -- in order, the path that was seen to be stale and the one whose mode could not be set. All of this
  -- holds whatever the surroundings answer.
  pub bind_unlinks :
      (config : SocketConfig) (s : S)
      → let t = (run h (bind config) s).trace in
        Follows seen_after (UnlinkAllowed config.socket_path) nothing t
        × (removed (notes t) ≡ proven_stale (notes t) ++ mode_failed (notes t))
        × All (λ p. p ≡ config.socket_path) (removed (notes t))
  unfolding bind give_socket_to_group
  bind_unlinks config s = ground arith

-- ===== src/Socket/Notes.antt =====
-- What a run of `bind` shows of the path it works on, in the order of its commands.
use uds_policy.Common.{Bool, true, false, List, [], ◌∷◌, ok, err}
use uds_policy.System.{
  FilePath, Command, Answer, Event, connection_refused, symlink_is_socket, connect, remove_file,
  remove_dir_all, bind_listener, set_permissions,
}

pub data Note : Type 0 where
  -- the metadata say that a socket is there; a connection to it was refused
  saw_socket saw_refused : FilePath → Note
  -- the path was asked to be removed; a listener was bound to it; its mode could not be set
  unlinked bound_at mode_refused : FilePath → Note
  quiet : Note

abbrev note : (c : Command) → Answer c → Note
note (symlink_is_socket p) (ok true) = saw_socket p
note (connect p) (err error) = elim error.kind [ connection_refused ↦ saw_refused p | _ ↦ quiet ]
note (remove_file p) r = unlinked p
note (remove_dir_all p) r = unlinked p
note (bind_listener p) (ok l) = bound_at p
note (set_permissions p m) (err error) = mode_refused p
note _ _ = quiet

abbrev pub notes : List Event → List Note
notes [] = []
notes (e ∷ t) = note e.command e.answer ∷ notes t

-- The paths that were asked to be removed.
abbrev pub removed : List Note → List FilePath
removed [] = []
removed (unlinked p ∷ t) = p ∷ removed t
removed (_ ∷ t) = removed t

-- The paths at which a socket was seen and, by the next command, refused a connection.
abbrev pub proven_stale : List Note → List FilePath
proven_stale [] = []
proven_stale (saw_socket p ∷ []) = []
proven_stale (saw_socket p ∷ saw_refused q ∷ t) = q ∷ proven_stale t
proven_stale (_ ∷ t) = proven_stale t

-- The paths whose mode could not be set.
abbrev pub mode_failed : List Note → List FilePath
mode_failed [] = []
mode_failed (mode_refused p ∷ t) = p ∷ mode_failed t
mode_failed (_ ∷ t) = mode_failed t

-- Whether the run bound or asked to remove anything.
abbrev pub touched : List Note → Bool
touched [] = false
touched (unlinked p ∷ t) = true
touched (bound_at p ∷ t) = true
touched (_ ∷ t) = touched t

-- Whether the run has, at its end, a listener of its own at the path.
abbrev pub holding : Bool → List Note → Bool
holding b [] = b
holding b (bound_at p ∷ t) = holding true t
holding b (unlinked p ∷ t) = holding false t
holding b (_ ∷ t) = holding b t

-- ===== src/Socket/Group/Loud.antt =====
-- A socket that keeps its own group is never kept quiet about.
use uds_policy.Common.{
  ℕ, ◌≡◌, refl, ◌⊎◌, inl, inr, Option, none, some, Result, ok, err, map_err, List, [], ◌∷◌, ◌++◌,
  Text, format, Contains, Contains-format,
}
use uds_policy.System.{
  FilePath, IoError, Errno, Command, Answer, Event, Handler, run, chown_group, group_from_name,
}
use uds_policy.System.Journal.{printed}
use uds_policy.Socket.Group.{
  give_socket_to_group, with_group, after_chown, not_given_parts, absent_parts, unresolved_parts,
}

-- A path whose group was changed, with the group that it got.
abbrev changed : (c : Command) → Answer c → List (FilePath × ℕ)
changed (chown_group p g) (ok _) = (p, g) ∷ []
changed _ _ = []

-- A group's name, with the gid that it was found to have.
abbrev named : (c : Command) → Answer c → List (Text × ℕ)
named (group_from_name name) (ok (some gid)) = (name, gid) ∷ []
named _ _ = []

abbrev pub all_changed : List Event → List (FilePath × ℕ)
all_changed [] = []
all_changed (e ∷ t) = changed e.command e.answer ++ all_changed t

abbrev pub all_named : List Event → List (Text × ℕ)
all_named [] = []
all_named (e ∷ t) = named e.command e.answer ++ all_named t

module _ {S : Type 0} (h : Handler S) (path : FilePath) (group daemon : Text) where
  -- The group of this path was changed to the gid that this group's name was found to have, of no
  -- other path, and nothing was written; or no group was changed and there is one line that names
  -- the daemon and the group.
  abbrev pub IsLoud : List Event → Type 0
  IsLoud t =
      ((gid : ℕ) × (all_named t ≡ (group, gid) ∷ [])
        × (all_changed t ≡ (path, gid) ∷ [])
        × (printed t ≡ []))
      ⊎ ((line : Text) × (all_changed t ≡ [])
          × (printed t ≡ line ∷ [])
          × Contains daemon line
          × Contains group line)

  after_chown-IsLoud :
      (gid : ℕ) (r : Result (Unit {0}) IoError) (s : S)
      → IsLoud (
          record { command = group_from_name group; answer = ok (some gid) }
          ∷ record { command = chown_group path gid; answer = r }
          ∷ (run h (after_chown path group daemon r) s).trace)
  unfolding after_chown not_given_parts
  after_chown-IsLoud gid (ok _) s = inl (gid, refl, refl, refl)
  after_chown-IsLoud gid (err e) s = inr (
    format (not_given_parts path group daemon e),
    refl,
    refl,
    Contains-format daemon (not_given_parts path group daemon e) (inl refl),
    Contains-format group (not_given_parts path group daemon e) (inr (inr (inr (inr (inl refl))))),
  )

  with_group-IsLoud :
      (r : Result (Option ℕ) Errno) (s : S)
      → IsLoud (
          record { command = group_from_name group; answer = r }
          ∷ (run h (with_group path group daemon (map_err (λ (e : Errno). e.as_io) r)) s).trace)
  unfolding with_group
  with_group-IsLoud (ok (some gid)) s = after_chown-IsLoud gid _ _
  with_group-IsLoud (ok none) s = inr (
    format (absent_parts path group daemon),
    refl,
    refl,
    Contains-format daemon (absent_parts path group daemon) (inl refl),
    Contains-format group (absent_parts path group daemon) (inr (inr (inl refl))),
  )
  with_group-IsLoud (err e) s = inr (
    format (unresolved_parts path group daemon e.as_io),
    refl,
    refl,
    Contains-format daemon (unresolved_parts path group daemon e.as_io) (inl refl),
    Contains-format group (unresolved_parts path group daemon e.as_io) (inr (inr (inl refl))),
  )

  -- Giving the socket to its group either changes, of this path and no other, the group to the gid
  -- that was found for the group's name, in silence, or changes no group and writes exactly one
  -- line, which names the daemon and the group.
  pub give_socket_to_group-IsLoud :
      (s : S) → IsLoud (run h (give_socket_to_group path group daemon) s).trace
  unfolding give_socket_to_group
  give_socket_to_group-IsLoud s = with_group-IsLoud _ _

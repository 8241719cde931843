-- ===== src/Socket/Group.antt =====
-- `lookup_group_gid` and `give_socket_to_group` of src/socket.rs.
pub mod Loud
use uds_policy.Common.{
  ℕ, Option, none, some, Result, ok, err, map_err, List, [], ◌∷◌, Text, codes, format,
}
use uds_policy.System.{
  FilePath, IoError, Errno, Io, ret, ask, ◌>>=◌, ◌>>◌, chown_group, group_from_name, eprintln,
}

unfoldable pub lookup_group_gid : Text → Io (Result (Option ℕ) IoError)
lookup_group_gid name = do r ← ask (group_from_name name); ret (map_err (λ (e : Errno). e.as_io) r)

module _ (socket_path : FilePath) (group daemon : Text) where
  -- the parts of each `eprintln!`
  not_given_parts : IoError → List Text
  not_given_parts error =
      daemon
      ∷ codes ": could not give "
      ∷ socket_path
      ∷ codes " to the "
      ∷ group
      ∷ codes " group, so unprivileged clients cannot connect: "
      ∷ error.message
      ∷ []

  absent_parts : List Text
  absent_parts =
      daemon
      ∷ codes ": there is no "
      ∷ group
      ∷ codes " group on this host, so "
      ∷ socket_path
      ∷ codes " keeps its own group and only root can connect"
      ∷ []

  unresolved_parts : IoError → List Text
  unresolved_parts error =
      daemon
      ∷ codes ": could not resolve the "
      ∷ group
      ∷ codes " group, so the socket keeps its own group and unprivileged clients cannot connect: "
      ∷ error.message
      ∷ []

  -- the arms of `if let Err(error) = chown(…)`
  pub after_chown : Result (Unit {0}) IoError → Io (Unit {0})
  unfolding not_given_parts
  after_chown (ok _) = ret tt
  after_chown (err error) = ask (eprintln (format (not_given_parts error)))

  -- the arms of the `match` on `lookup_group_gid(group)`
  pub with_group : Result (Option ℕ) IoError → Io (Unit {0})
  unfolding after_chown absent_parts unresolved_parts
  with_group (ok (some gid)) = do r ← ask (chown_group socket_path gid); after_chown r
  with_group (ok none) = ask (eprintln (format absent_parts))
  with_group (err error) = ask (eprintln (format (unresolved_parts error)))

  unfoldable pub give_socket_to_group : Io (Unit {0})
  unfolding lookup_group_gid with_group
  give_socket_to_group = do r ← lookup_group_gid group; with_group r

-- ===== src/Socket/Bind/Race.antt =====
-- Two daemons that start at once on the path of a stale socket: between the probe and the removal in
-- `reclaim_stale_socket` nothing keeps the other daemon from binding.
use native.Mathlib.Decide.{ℕ_discrete}
use uds_policy.Common.{
  none, ℕ, ◌+◌, ◌≡◌, refl, Bool, true, false, Result, ok, err, List, [], ◌∷◌, Text,
}
use uds_policy.System.{
  run, Fd, IoError, Command, Answer, Io, ErrorKind, other_kind, ret, Handler, exists,
  symlink_is_socket, connect, remove_file, bind_listener, set_permissions, connection_refused,
  not_found,
}
use uds_policy.System.Threads.{Pool, Reach, start, update}
use uds_policy.System.Schedule.{follows, play, play-Reach}
use uds_policy.Socket.Config.{BindError, Socket, SocketConfig}
use uds_policy.Socket.Bind.{bind, drop}

-- What stands at the path: nothing, a socket whose daemon is gone, or one that leads to a listener.
pub data Entry : Type 0 where
  free dead : Entry
  leads_to : Fd → Entry

-- One path, and the descriptor that the next listener gets.
pub record Place : Type 0 where
  pub entry : Entry
  pub next : Fd

abbrev taken : Entry → Bool
taken free = false
taken _ = true

-- daemon 0 in the configuration `a`, and every other one in `b`
abbrev pub starting : SocketConfig → SocketConfig → ℕ → Io (Result Socket BindError)
starting a b = update (λ i. bind b) 0 (bind a)

abbrev pub begun : SocketConfig → SocketConfig → Fd → Pool Place (Result Socket BindError)
begun a b fd = record { shared = record { entry = dead; next = fd }; threads = starting a b }

-- both probe before either removes
abbrev interleaved : List ℕ
interleaved = 0 ∷ 0 ∷ 0 ∷ 1 ∷ 1 ∷ 1 ∷ 0 ∷ 0 ∷ 0 ∷ 1 ∷ 1 ∷ 1 ∷ []

-- The kernel on that path: each command is atomic. `other` answers what has nothing to do with the
-- path, and `say` is the text of its errors.
module _ (other : (c : Command) → Answer c) (say : Text) where
  abbrev failed : ErrorKind → IoError
  failed kind = record { kind = kind; message = say }

  abbrev statted : Entry → Result Bool IoError
  statted free = err (failed not_found)
  statted _ = ok true

  abbrev pub probe : Entry → Result (Unit {0}) IoError
  probe free = err (failed not_found)
  probe dead = err (failed connection_refused)
  probe (leads_to fd) = ok tt

  abbrev pub unlinked : Entry → Result (Unit {0}) IoError
  unlinked free = err (failed not_found)
  unlinked _ = ok tt

  abbrev pub listened : Entry → Fd → Result Fd IoError × Place
  listened free fd = (ok fd, record { entry = leads_to fd; next = fd + 1 })
  listened old fd = (err (failed (other_kind 98)), record { entry = old; next = fd })

  abbrev pub one_path : Handler Place
  one_path (exists p) s = (taken s.entry, s)
  one_path (symlink_is_socket p) s = (statted s.entry, s)
  one_path (connect p) s = (probe s.entry, s)
  one_path (remove_file p) s = (unlinked s.entry, record s { entry = free })
  one_path (bind_listener p) s = listened s.entry s.next
  one_path (set_permissions p m) s = (unlinked s.entry, s)
  one_path c s = (other c, s)

  -- On a kernel whose every command on the path is atomic, two daemons that start at once on one
  -- stale socket, with no group to give it to, can both succeed: there is an interleaving after
  -- which each of them holds a listener, the path leads to the second one's only, and the first one
  -- removes that when it drops its own.
  pub racing_daemons :
      (a b : SocketConfig) (fd : Fd)
      → a.socket_path ≡ b.socket_path
      → a.socket_group ≡ none
      → b.socket_group ≡ none
      → (q : Pool Place (Result Socket BindError)) × Reach (follows one_path) (begun a b fd) q
        × (q.threads 0 ≡ ret (ok (record { listener = fd; config = a })))
        × (q.threads 1 ≡ ret (ok (record { listener = fd + 1; config = b })))
        × (q.shared.entry ≡ leads_to (fd + 1))
        × ((run one_path (drop (record { listener = fd; config = a })) q.shared).state.entry ≡ free)
  unfolding bind drop ℕ_discrete
  racing_daemons a b fd same no_a no_b =
      let q = play one_path interleaved (begun a b fd) in
      (q, play-Reach one_path interleaved _ _ start, rw no_a refl, rw no_b refl, refl, refl)

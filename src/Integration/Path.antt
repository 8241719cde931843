-- ===== src/Integration/Path.antt =====
-- The tests of tests/socket.rs pass on every kernel that behaves as documented.
use uds_policy.Common.{ℕ, ◌≡◌, ◌∙◌, refl, subst, true, ok}
use uds_policy.System.{FilePath, Fd, Handler, run, run-bind, exists, remove_file}
use uds_policy.Socket.Bind.Kernel.{Node, absent, live_socket, Promise}
use uds_policy.Socket.Bind.Kernel.Refines.{bind_refines}
use uds_policy.Socket.Bind.{drop}
use uds_policy.Gatekeeper.Serve.Lifecycle.{ServeKernel}
use uds_policy.Integration.{
  testd, socket_at, dropped, the_socket_is_unlinked_on_drop, second_refused,
  a_live_socket_is_not_reclaimed,
}

module _ {S : Type 0} (h : Handler S) (p : FilePath) (k : ServeKernel h p) where
  open k use {path, unlink_lem}
  open path use {node, exists_lem}

  -- What `socket_at` does on a path at which this node stands.
  pub bound :
      (n : Node) (s : S)
      → node s ≡ n
      → let o = run h (socket_at p) s in Promise (testd p) n o.result (node o.state)
  unfolding testd
  bound n s e =
      let o = run h (socket_at p) s in
      subst (λ m. Promise (testd p) m o.result (node o.state)) e (bind_refines h (testd p) path s)

  there_lem :
      (m : ℕ) (s : S)
      → node s ≡ live_socket m
      → ((h (exists p) s).0 ≡ true) × (node (h (exists p) s).1 ≡ live_socket m)
  there_lem m s e = let (r, n) = exists_lem s in (rw (r, e) refl, n ∙ e)

  dropped_passes :
      (fd : Fd) (m : ℕ) (s : S)
      → node s ≡ live_socket m
      → (run h (dropped p (ok (record { listener = fd; config = testd p }))) s).result ≡ true
  unfolding dropped drop testd
  dropped_passes fd m s e =
      let (a, b) = there_lem m s e in
      let t = (h (remove_file p) (h (exists p) s).1).1 in
      rw (a, (exists_lem t).0, unlink_lem m _ b) refl

  unlinked_passes :
      (s : S) → node s ≡ absent → (run h (the_socket_is_unlinked_on_drop p) s).result ≡ true
  unfolding the_socket_is_unlinked_on_drop
  unlinked_passes s e =
      let (fd, r, n) = bound absent s e in
      rw (run-bind h (socket_at p) (dropped p) s, r) (dropped_passes fd _ _ n)

  refused_passes :
      (fd : Fd) (m : ℕ) (s : S)
      → node s ≡ live_socket m
      → (run h (second_refused p (ok (record { listener = fd; config = testd p }))) s).result ≡ true
  unfolding second_refused testd
  refused_passes fd m s e =
      let (r, n) = bound (live_socket m) s e in
      let t = (run h (socket_at p) s).state in
      rw (run-bind h (socket_at p) _ s, r, (there_lem m t n).0) refl

  live_passes :
      (s : S) → node s ≡ absent → (run h (a_live_socket_is_not_reclaimed p) s).result ≡ true
  unfolding a_live_socket_is_not_reclaimed
  live_passes s e =
      let (fd, r, n) = bound absent s e in
      rw (run-bind h (socket_at p) (second_refused p) s, r) (refused_passes fd _ _ n)

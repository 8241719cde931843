-- ===== src/Integration/Streams/Passed.antt =====
-- The tests of tests/socket.rs that talk over an accepted stream or read the socket's mode pass.
use uds_policy.Common.{ℕ, ◌+◌, ◌≡◌, refl, true, ok, List, [], ◌++◌, text_eq}
use uds_policy.System.{
  FilePath, Byte, Handler, run, run-bind, file_mode, write_all, read_to_end, read_to_string,
  process_id,
}
use uds_policy.Socket.Bind.Kernel.{Node, absent, live_socket}
use uds_policy.Socket.Tests.Memory.{memory}
use uds_policy.Caller.{of_credentials}
use uds_policy.Socket.Bind.{bind}
use uds_policy.Socket.Accept.{accept}
use uds_policy.Gatekeeper.Serve.Lifecycle.{ServeKernel}
use uds_policy.Integration.{testd, socket_at}
use uds_policy.Integration.Path.{bound}
use uds_policy.Integration.Streams.{
  accept_answers_who_is_calling, a_connect_and_drop_probe_is_an_ordinary_accept,
  the_bound_socket_has_the_mode_an_unprivileged_front_end_needs,
}

module _ {S : Type 0} (h : Handler S) (p : FilePath) (k : ServeKernel h p)
    (file_mode_lem : (m : ℕ) (s : S)
      → k.path.node s ≡ live_socket m
      → (h (file_mode p) s).0 ≡ ok (0o140000 + m)) where
  -- A kernel whose `stat` shows a socket's mode, behind the bits of its kind.
  mode_passes :
      (s : S)
      → k.path.node s ≡ absent
      → (run h (the_bound_socket_has_the_mode_an_unprivileged_front_end_needs p) s).result ≡ true
  unfolding the_bound_socket_has_the_mode_an_unprivileged_front_end_needs testd
  mode_passes s e =
      let (fd, r, n) = bound h p k absent s e in
      let t = (run h (socket_at p) s).state in
      rw (run-bind h (socket_at p) _ s, r, file_mode_lem 0o660 t n) refl

-- A file system with one path, and one connection with what its client sent.
abbrev talking : Handler (Node × List Byte)
talking (write_all fd bytes) (n, sent) = (ok tt, (n, sent ++ bytes))
talking (read_to_end fd) (n, sent) = (ok sent, (n, sent))
talking (read_to_string fd) (n, sent) = (ok sent, (n, sent))
talking process_id s = (4711, s)
talking c (n, sent) = let (r, n') = memory c n in (r, (n', sent))

answers_pass :
    (path : FilePath)
    → (run talking (accept_answers_who_is_calling path) (absent, [])).result ≡ true
unfolding accept_answers_who_is_calling bind testd accept of_credentials text_eq
answers_pass path = refl

probe_passes :
    (path : FilePath)
    → (run talking (a_connect_and_drop_probe_is_an_ordinary_accept path) (absent, [])).result ≡ true
unfolding a_connect_and_drop_probe_is_an_ordinary_accept bind testd accept of_credentials
probe_passes path = refl

-- ===== src/Exampled/Lifecycle.antt =====
-- The documented daemon from its bind to its drop, on a file system.
use uds_policy.Common.{
  ℕ, zero, suc, ◌≡◌, refl, ◌⊎◌, inl, inr, true, false, Option, none, some, Result, ok, err, arith,
}
use uds_policy.System.{Fd, IoError, Io, ret, ◌>>◌, Handler, run, run-bind}
use uds_policy.System.Only.{Only, Only->>=}
use uds_policy.Exampled.Accepts.{accepts, EndsWith, IsApart, run_daemon-EndsWith}
use uds_policy.Caller.{Caller}
use uds_policy.Authorization.{Denial, allow_socket_peers}
use uds_policy.Audit.{begin}
use uds_policy.Socket.Config.{BindError, Socket, io, already_active, not_a_socket}
use uds_policy.Socket.Bind.{bind, drop}
use uds_policy.Socket.Accept.{accept}
use uds_policy.Socket.Bind.Kernel.{
  Node, absent, dead_socket, live_socket, other_file, symlink, Promise,
}
use uds_policy.Socket.Bind.Kernel.Refines.{bind_refines}
use uds_policy.Watchdog.Notify.{notify_ready}
use uds_policy.Gatekeeper.Serve.Bookkeeping.{begin-Books, finish-Books}
use uds_policy.Gatekeeper.Serve.Elsewhere.{
  IsElsewhere, Quiet, quietly, accept-Quiet, notify_ready-Quiet,
}
use uds_policy.Gatekeeper.Serve.Lifecycle.{ServeKernel, Ends, past_quiet}
use uds_policy.Exampled.{
  daemon, change, config, Stopped, unbound, unaccepted, authorized, turns, ended, started,
  run_daemon,
}

-- The daemon still serves, with a socket of mode 0660, or an accept failed and nothing is left behind.
abbrev pub Served : Result (Unit {0}) Stopped → Node → Type 0
Served r n =
    ((r ≡ ok tt) × (n ≡ live_socket 0o660))
    ⊎ ((e : IoError) × (r ≡ err (unaccepted e)) × (n ≡ absent))

-- What the daemon promises for each kind of node at its path.
abbrev pub DaemonPromise : Node → Result (Unit {0}) Stopped → Node → Type 0
DaemonPromise absent r n = Served r n
DaemonPromise dead_socket r n = Served r n
DaemonPromise (live_socket m) r n =
    (r ≡ err (unbound (already_active config.socket_path))) × (n ≡ live_socket m)
DaemonPromise other_file r n =
    (r ≡ err (unbound (not_a_socket config.socket_path))) × (n ≡ other_file)
DaemonPromise (symlink true) r n =
    (r ≡ err (unbound (not_a_socket config.socket_path))) × (n ≡ symlink true)
DaemonPromise (symlink false) r n = (e : IoError) × (r ≡ err (unbound (io e))) × (n ≡ symlink false)

module _ (speak : Fd → Io (Unit {0})) (spoken : (stream : Fd) → Quiet (speak stream))
    (apart : (stream : Fd) → Only IsApart (speak stream)) where
  authorized-Quiet :
      (stream : Fd) (caller : Caller) (verdict : Result (Unit {0}) Denial)
      → Quiet (authorized speak stream caller verdict)
  unfolding turns
  authorized-Quiet stream caller (err denial) = ground arith
  authorized-Quiet stream caller (ok u) =
      Only->>= IsElsewhere (begin daemon change caller) _
        (quietly _ (begin-Books daemon change caller))
        (λ op.
          Only->>= IsElsewhere (speak stream) _ (spoken stream)
            (λ v. quietly _ (finish-Books op none)))

  accepted-Quiet :
      (rest : Io (Option IoError)) (r : Result (Fd × Caller) IoError)
      → Quiet rest
      → Quiet {A = Option IoError} (elim r as (λ x. Io (Option IoError)) [
        | err error ↦ ret (some error)
        | ok (stream, caller) ↦
            authorized speak stream caller (allow_socket_peers.authorize change caller) >> rest
      ])
  accepted-Quiet rest (err error) q = tt
  accepted-Quiet rest (ok (stream, caller)) q =
      Only->>= IsElsewhere (authorized speak stream caller _) _ (authorized-Quiet stream caller _)
        (λ u. q)

  turns-Quiet : (n : ℕ) (socket : Socket) → Quiet (turns speak n socket)
  unfolding turns
  turns-Quiet zero socket = tt
  turns-Quiet (suc n) socket =
      Only->>= IsElsewhere (accept socket) _ (accept-Quiet socket)
        (λ r. accepted-Quiet (turns speak n socket) r (turns-Quiet n socket))

  module _ {S : Type 0} (h : Handler S) (k : ServeKernel h config.socket_path) where
    open k use {path}

    ended-Served :
        (fd : Fd) (r : Option IoError) (s : S)
        → path.node s ≡ live_socket 0o660
        → let o = run h (ended speak (record { listener = fd; config = config }) r) s in
          Served o.result (path.node o.state)
    unfolding run_daemon drop
    ended-Served fd none s e = inl (refl, e)
    ended-Served fd (some error) s e = inr (error, refl, k.unlink_lem 0o660 s e)

    started-Served :
        (n : ℕ) (fd : Fd) (s : S)
        → path.node s ≡ live_socket 0o660
        → let o = run h (started speak n (ok (record { listener = fd; config = config }))) s in
          Served o.result (path.node o.state)
    unfolding run_daemon
    started-Served n fd s e =
        let node = live_socket 0o660 in
        let socket : Socket = record { listener = fd; config = config } in
        let P : Result (Unit {0}) Stopped → S → Type 0 = λ r t. Served r (path.node t) in
        let served : Ends h config.socket_path k P (started speak n (ok socket)) s =
          past_quiet h config.socket_path k node P notify_ready _ s notify_ready-Quiet e (λ u s1 e1.
            past_quiet h config.socket_path k node P (turns speak n socket) _ s1
              (turns-Quiet n socket) e1 (λ r t e2. record { holds = ended-Served fd r t e2 })) in
        served.holds

    started-Promise :
        (n : ℕ) (old : Node) (r : Result Socket BindError) (s : S)
        → Promise config old r (path.node s)
        → let o = run h (started speak n r) s in DaemonPromise old o.result (path.node o.state)
    unfolding config
    started-Promise n absent r s (fd, e, made) = rw e (started-Served n fd s made)
    started-Promise n dead_socket r s (fd, e, made) = rw e (started-Served n fd s made)
    started-Promise n (live_socket m) r s (e, kept) = rw e (unfold run_daemon in (refl, kept))
    started-Promise n other_file r s (e, kept) = rw e (unfold run_daemon in (refl, kept))
    started-Promise n (symlink true) r s (e, kept) = rw e (unfold run_daemon in (refl, kept))
    started-Promise n (symlink false) r s (x, e, kept) = rw e (unfold run_daemon in (x, refl, kept))

    -- On a kernel that behaves as documented, and if the protocol touches no path and makes no accept
    -- of its own: the daemon on a free path, or on a socket that nothing listens on, either still
    -- serves it, with a socket of mode 0660, each of its accepts so far having succeeded, or an
    -- accept failed after nothing but successes, was the last, is the error that the daemon ends
    -- with, and nothing is left at the path; what else is there stays as it is, without an accept
    -- having been tried, and the error says what it was.
    pub run_daemon_refines :
        (n : ℕ) (s : S)
        → let o = run h (run_daemon speak n) s in
          DaemonPromise (path.node s) o.result (path.node o.state)
          × EndsWith n o.result (accepts o.trace)
    unfolding run_daemon
    run_daemon_refines n s =
        let bound = bind_refines h config path s in
        (
          rw (run-bind h (bind config) (started speak n) s)
              (started-Promise n (path.node s) _ _ bound),
          run_daemon-EndsWith speak apart h n s,
        )

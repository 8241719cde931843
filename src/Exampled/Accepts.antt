-- ===== src/Exampled/Accepts.antt =====
-- What the accepts of the documented daemon came to, and how it ended.
use uds_policy.Common.{
  ℕ, zero, suc, ◌<◌, ◌≡◌, refl, sym, ap, append-nil, append_assoc, Option, none, some, Result, ok,
  err, List, [], ◌∷◌, ◌++◌, arith,
}
use uds_policy.System.{
  Fd, IoError, Command, Answer, Event, Io, ret, exec, ◌>>=◌, ◌>>◌, Handler, run, run-bind,
  accept_stream, set_read_timeout,
}
use uds_policy.System.Only.{Only, Only->>=, Only-mono}
use uds_policy.Caller.{Caller, of_socket}
use uds_policy.Authorization.{Denial, allow_socket_peers}
use uds_policy.Audit.{begin}
use uds_policy.Socket.Config.{BindError, Socket}
use uds_policy.Socket.Reclaim.{reclaim_stale_socket}
use uds_policy.Socket.Group.{give_socket_to_group}
use uds_policy.Socket.Bind.{bind, drop}
use uds_policy.Socket.Accept.{accept}
use uds_policy.Watchdog.Notify.{notify_ready}
use uds_policy.Gatekeeper.Serve.Bookkeeping.{
  IsBookkeeping, begin-Books, finish-Books, notify_ready-Books,
}
use uds_policy.Exampled.{
  daemon, change, config, Stopped, unbound, unaccepted, authorized, turns, ended, started,
  run_daemon,
}

abbrev Taken : Type 0
Taken = Result (Unit {0}) IoError

-- An accept fails with the kernel's refusal of a connection, or of the deadline of the one that it gave.
abbrev taken : (c : Command) → Answer c → List Taken
taken (accept_stream l) (err e) = err e ∷ []
taken (set_read_timeout s d) r = r ∷ []
taken _ r = []

-- What each accept of a run came to, in order.
abbrev pub accepts : List Event → List Taken
accepts [] = []
accepts (e ∷ t) = taken e.command e.answer ++ accepts t

abbrev pub successes : ℕ → List Taken
successes zero = []
successes (suc n) = ok tt ∷ successes n

-- The commands of everything but an accept.
abbrev pub IsApart : Command → Type 0
IsApart (accept_stream l) = ⊥
IsApart (set_read_timeout s d) = ⊥
IsApart _ = Unit

-- A daemon that serves has had a success in each of its turns; one that an accept ended has had the
-- failure that it reports, after nothing but successes, and no accept after it; one that could not
-- bind has not tried any.
abbrev pub EndsWith : ℕ → Result (Unit {0}) Stopped → List Taken → Type 0
EndsWith n (ok u) xs = xs ≡ successes n
EndsWith n (err (unaccepted e)) xs = (k : ℕ) × (k < n) × (xs ≡ successes k ++ err e ∷ [])
EndsWith n (err (unbound e)) xs = xs ≡ []

abbrev result_of : Option IoError → Result (Unit {0}) Stopped
result_of none = ok tt
result_of (some e) = err (unaccepted e)

accepts-append : (t u : List Event) → accepts (t ++ u) ≡ accepts t ++ accepts u
accepts-append [] u = refl
accepts-append (e ∷ t) u =
    rw (accepts-append t u) (sym (append_assoc (taken e.command e.answer) _ _))

taken-apart : (c : Command) (r : Answer c) → IsApart c → taken c r ≡ []
taken-apart (accept_stream l) r q = absurd q
taken-apart (set_read_timeout s d) r q = absurd q
taken-apart _ r q = refl

books-IsApart : (c : Command) → IsBookkeeping c → IsApart c
books-IsApart (accept_stream l) q = absurd q
books-IsApart (set_read_timeout s d) q = absurd q
books-IsApart _ q = tt

apart : {A : Type 0} (m : Io A) → Only IsBookkeeping m → Only IsApart m
apart m o = Only-mono m books-IsApart o

module _ {S : Type 0} (h : Handler S) where
  apart-accepts : {A : Type 0} (m : Io A) (s : S) → Only IsApart m → accepts (run h m s).trace ≡ []
  apart-accepts (ret a) s q = refl
  apart-accepts (exec c k) s q =
      rw (taken-apart c (h c s).0 q.0) (apart-accepts (k (h c s).0) (h c s).1 (q.1 (h c s).0))

  -- What follows a part without accepts.
  apart-bind :
      {A B : Type 0} (m : Io A) (f : A → Io B) (s : S)
      → Only IsApart m
      → accepts (run h (m >>= f) s).trace
        ≡ accepts (run h (f (run h m s).result) (run h m s).state).trace
  apart-bind m f s q =
      rw (run-bind h m f s)
        (rw (accepts-append (run h m s).trace _) (rw (apart-accepts m s q) refl))

  accept-accepts :
      (socket : Socket) (s : S)
      → accepts (run h (accept socket) s).trace
        ≡ elim (run h (accept socket) s).result [ ok c ↦ ok tt ∷ [] | err e ↦ err e ∷ [] ]
  unfolding accept of_socket
  accept-accepts socket s = ground arith

bind-IsApart : Only IsApart (bind config)
unfolding bind reclaim_stale_socket give_socket_to_group
bind-IsApart = ground arith

EndsWith-suc :
    (n : ℕ) (r : Option IoError) (xs : List Taken)
    → EndsWith n (result_of r) xs
    → EndsWith (suc n) (result_of r) (ok tt ∷ xs)
EndsWith-suc n none xs e = ap (λ more. ok tt ∷ more) e
EndsWith-suc n (some error) xs (k, le, e) = (suc k, omega arith, ap (λ more. ok tt ∷ more) e)

-- `speak` makes no accept of its own.
module _ (speak : Fd → Io (Unit {0})) (spoken : (stream : Fd) → Only IsApart (speak stream)) where
  authorized-IsApart :
      (stream : Fd) (caller : Caller) (verdict : Result (Unit {0}) Denial)
      → Only IsApart (authorized speak stream caller verdict)
  unfolding turns
  authorized-IsApart stream caller (err denial) = (tt, λ r. tt)
  authorized-IsApart stream caller (ok u) =
      Only->>= IsApart (begin daemon change caller) _ (apart _ (begin-Books daemon change caller))
        (λ op.
          Only->>= IsApart (speak stream) _ (spoken stream) (λ v. apart _ (finish-Books op none)))

  module _ {S : Type 0} (h : Handler S) where
    turns-EndsWith :
        (n : ℕ) (socket : Socket) (s : S)
        → let o = run h (turns speak n socket) s in
          EndsWith n (result_of o.result) (accepts o.trace)
    unfolding turns
    turns-EndsWith zero socket s = refl
    turns-EndsWith (suc n) socket s =
        let a = run h (accept socket) s in
        rw (run-bind h (accept socket)) (
          later (λ t. turns-EndsWith n socket t) a.result a.state a.trace
            (accept-accepts h socket s))
      where
        later :
            ((t : S)
              → let o = run h (turns speak n socket) t in
                EndsWith n (result_of o.result) (accepts o.trace))
            → (r : Result (Fd × Caller) IoError) (t : S) (front : List Event)
            → accepts front ≡ elim r [ ok c ↦ ok tt ∷ [] | err e ↦ err e ∷ [] ]
            → let o =
                run h
                  (elim r as (λ x. Io (Option IoError)) [
                    | err error ↦ ret (some error)
                    | ok (stream, caller) ↦
                        authorized speak stream caller (allow_socket_peers.authorize change caller)
                        >> turns speak n socket
                  ])
                  t in
              EndsWith (suc n) (result_of o.result) (accepts (front ++ o.trace))
        later rest (err error) t front e =
            rw (accepts-append front []) (rw e (0, omega arith, refl))
        later rest (ok (stream, caller)) t front e =
            let m = authorized speak stream caller (allow_socket_peers.authorize change caller) in
            let u = run h m t in
            let quiet = apart-accepts h m t (authorized-IsApart stream caller _) in
            let o = run h (turns speak n socket) u.state in
            rw (run-bind h m) (
              rw (accepts-append front (u.trace ++ o.trace)) (
                rw (accepts-append u.trace o.trace)
                  (rw (e, quiet) (EndsWith-suc n o.result _ (rest u.state)))))

    ended-result :
        (socket : Socket) (r : Option IoError) (s : S)
        → let o = run h (ended speak socket r) s in
          (o.result ≡ result_of r) × (accepts o.trace ≡ [])
    unfolding run_daemon drop
    ended-result socket none s = (refl, refl)
    ended-result socket (some error) s = (refl, refl)

    started-EndsWith :
        (n : ℕ) (r : Result Socket BindError) (s : S)
        → let o = run h (started speak n r) s in EndsWith n o.result (accepts o.trace)
    unfolding run_daemon
    started-EndsWith n (err error) s = refl
    started-EndsWith n (ok socket) s =
        let u = run h notify_ready s in
        let o = run h (turns speak n socket) u.state in
        let (result, quiet) = ended-result socket o.result o.state in
        rw (run-bind h notify_ready (λ v. turns speak n socket >>= ended speak socket) s) (
          rw (run-bind h (turns speak n socket) (ended speak socket) u.state) (
            rw (accepts-append u.trace _) (
              rw (accepts-append o.trace _) (
                rw (apart-accepts h notify_ready s (apart _ notify_ready-Books), result, quiet)
                  (rw (append-nil (accepts o.trace)) (turns-EndsWith n socket u.state))))))

    -- The daemon tries an accept in each turn, until the first that fails, which it reports.
    pub run_daemon-EndsWith :
        (n : ℕ) (s : S)
        → let o = run h (run_daemon speak n) s in EndsWith n o.result (accepts o.trace)
    unfolding run_daemon
    run_daemon-EndsWith n s =
        let b = run h (bind config) s in
        rw (run-bind h (bind config) (started speak n) s) (
          rw (accepts-append b.trace _) (
            rw (apart-accepts h (bind config) s bind-IsApart)
              (started-EndsWith n b.result b.state)))

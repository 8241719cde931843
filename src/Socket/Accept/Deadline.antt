-- ===== src/Socket/Accept/Deadline.antt =====
-- Whose connection `accept` hands over, under which read deadline, and what `set_accept_timeout` arms.
use uds_policy.Common.{
  ℕ, ◌*◌, ◌<◌, ◌≡◌, refl, ◌⊎◌, inl, inr, Option, none, some, Result, ok, err, List, [], ◌∷◌, Text,
  arith, ◌==◌, if◌then◌else◌,
}
use uds_policy.System.{
  Duration, Fd, Credentials, Errno, Event, Handler, run, accept_stream, set_read_timeout, time_val,
  set_receive_timeout, peer_credentials,
}
use uds_policy.Caller.{Caller, peer, unreadable, of_credentials}
use uds_policy.Socket.Config.{Socket}
use uds_policy.Socket.Accept.{accept, set_accept_timeout, as_micros}

-- What the kernel documents of a listener and the streams accepted on it: `SO_PEERCRED` is the
-- credentials of the party that was waiting, a timeout that was set is in force, and one of 0
-- microseconds means that there is none; and what nix documents of a `TimeVal`: where one is made, it
-- has the microseconds that it was made from.
pub record SocketKernel {S : Type 0} (h : Handler S) : Type 1 where
  pub deadline : S → Fd → Option Duration
  pub waiting : S → Fd → Credentials
  pub peer_of : S → Fd → Credentials
  pub accepted_waiting :
      (l fd : Fd) (s : S)
      → (h (accept_stream l) s).0 ≡ ok fd
      → peer_of (h (accept_stream l) s).1 fd ≡ waiting s l
  pub credentials_known :
      (fd : Fd) (s : S) (c : Credentials) → (h (peer_credentials fd) s).0 ≡ ok c → c ≡ peer_of s fd
  pub timeout_set :
      (fd : Fd) (t : Option Duration) (s : S)
      → (h (set_read_timeout fd t) s).0 ≡ ok tt
      → deadline (h (set_read_timeout fd t) s).1 fd ≡ t
  pub time_val_exact : (u : ℕ) (s : S) → (h (time_val u) s).0 ≡ u
  pub receive_timeout_set :
      (l : Fd) (u : ℕ) (s : S)
      → (h (set_receive_timeout l u) s).0 ≡ ok tt
      → deadline (h (set_receive_timeout l u) s).1 l ≡ (if u == 0 then none else some (u * 1_000))

-- The caller is the party with these credentials, or it could not be read.
abbrev pub IsCallerOf : Credentials → Caller → Type 0
IsCallerOf c caller = (caller ≡ peer c.pid c.uid c.gid) ⊎ ((why : Text) × (caller ≡ unreadable why))

module _ {S : Type 0} (h : Handler S) (k : SocketKernel h) (socket : Socket) where
  open k use {deadline, waiting, peer_of}

  credentials-IsCallerOf :
      (fd : Fd) (s : S) (r : Result Credentials Errno)
      → (h (peer_credentials fd) s).0 ≡ r
      → IsCallerOf (peer_of s fd) (of_credentials r)
  unfolding of_credentials
  credentials-IsCallerOf fd s (ok c) e = rw (← k.credentials_known fd s c e) (inl refl)
  credentials-IsCallerOf fd s (err e) _ = inr (e.text, refl)

  module _ (s : S) (stream : Fd) where
    abbrev taken : S
    taken = (h (accept_stream socket.listener) s).1

    abbrev asked : S
    asked = (h (peer_credentials stream) taken).1

    abbrev budget : Option Duration
    budget = socket.config.request_read_timeout

    accept-ok :
        (caller : Caller)
        → (run h (accept socket) s).result ≡ ok (stream, caller)
        → ((h (accept_stream socket.listener) s).0 ≡ ok stream)
          × (caller ≡ of_credentials (h (peer_credentials stream) taken).0)
          × ((h (set_read_timeout stream budget) asked).0 ≡ ok tt)
          × ((run h (accept socket) s).state ≡ (h (set_read_timeout stream budget) asked).1)
    unfolding accept
    accept-ok caller e = ground arith

    -- A connection that `accept` returns has the read deadline of the configuration, whatever the
    -- listener's own timeout is, and comes with the credentials of the party that was waiting, or
    -- with the reason for which the kernel would not tell.
    pub accept_attributed :
        (caller : Caller)
        → (run h (accept socket) s).result ≡ ok (stream, caller)
        → (deadline (run h (accept socket) s).state stream ≡ socket.config.request_read_timeout)
          × IsCallerOf (waiting s socket.listener) caller
    accept_attributed caller e =
        let (took, is, set, end) = accept-ok caller e in
        (
          rw end (k.timeout_set stream budget asked set),
          rw (is, ← k.accepted_waiting socket.listener stream s took)
              (credentials-IsCallerOf stream taken _ refl),
        )

-- The timeouts that a run asked the listener for, in microseconds.
abbrev pub armed : List Event → List ℕ
armed [] = []
armed (e ∷ t) = elim e.command [ set_receive_timeout l u ↦ u ∷ armed t | _ ↦ armed t ]

-- The microseconds that `TimeVal::microseconds` was called with.
abbrev pub timed : List Event → List ℕ
timed [] = []
timed (e ∷ t) = elim e.command [ time_val u ↦ u ∷ timed t | _ ↦ timed t ]

-- nix asserts that the seconds of a `TimeVal` are at most `i64::MAX / 1_000_000 - 1`.
abbrev pub time_val_end : ℕ
time_val_end = 9_223_372_036_854_000_000

module _ {S : Type 0} (h : Handler S) (socket : Socket) where
  -- A timeout below one microsecond leaves the listener with no timeout at all, and the call says
  -- that it succeeded, if the kernel takes the timeout of 0 microseconds that it is asked for.
  pub short_timeout_disarms :
      (k : SocketKernel h) (timeout : Duration) (s : S)
      → timeout < 1_000
      → (h (set_receive_timeout socket.listener 0) (h (time_val 0) s).1).0 ≡ ok tt
      → let o = run h (set_accept_timeout socket timeout) s in
        (o.result ≡ ok tt) × (k.deadline o.state socket.listener ≡ none)
  unfolding set_accept_timeout
  short_timeout_disarms k timeout s lt taken =
      let none_left : as_micros timeout ≡ 0 = omega arith in
      rw none_left (
        rw (k.time_val_exact 0 s)
          (rw taken (refl, k.receive_timeout_set socket.listener 0 (h (time_val 0) s).1 taken)))

-- ===== src/Gatekeeper/SelfTest/Wire.antt =====
-- The stream between the client of `self_test` and the daemon of examples/gatekeeper.rs.
pub mod Shared
pub mod Steps
pub mod Asking
pub mod Answering
pub mod Interleaved
pub mod Off
pub mod Served
pub mod Answered
mod Memory
mod Tests
mod Passing
use uds_policy.Common.{
  ◌≡◌, ◌∙◌, refl, ap, Option, some, Result, ok, err, List, ◌++◌, Text, codes, All, All-of_append,
  subst, is_ok, true,
}
use uds_policy.System.{
  Event, Answer, Outcome, Byte, Duration, Fd, IoError, Command, Io, Handler, ask, try_then, ◌>>=◌,
  run, run-bind, set_read_timeout, write_all, shutdown_write, read_to_end, write_line,
  read_to_string, from_secs,
}
use uds_policy.System.Only.{Only, run-Inv}
use uds_policy.Gatekeeper.Serve.Bookkeeping.{IsNoting}
use uds_policy.Gatekeeper.SelfTest.Client.{greeted}

-- No read or write on a stream failed.
abbrev pub Succeeds : (k : Command) → Answer k → Type 0
Succeeds (read_to_end fd) r = is_ok r ≡ true
Succeeds (write_line fd line) r = is_ok r ≡ true
Succeeds _ r = Unit

abbrev pub IsUnharmed : Event → Type 0
IsUnharmed e = Succeeds e.command e.answer

module _ {S : Type 0} (h : Handler S) where
  pub IsUnharmed->>= :
      {A B : Type 0} (m : Io A) (f : A → Io B) (s : S)
      → All IsUnharmed (run h (m >>= f) s).trace
      → All IsUnharmed (run h m s).trace
        × All IsUnharmed (run h (f (run h m s).result) (run h m s).state).trace
  IsUnharmed->>= m f s u =
      All-of_append IsUnharmed (run h m s).trace _
        (subst (λ t. All IsUnharmed t) (ap (λ (o : Outcome _ S). o.trace) (run-bind h m f s)) u)

module _ {S : Type 0} (h : Handler S) (c d : Fd) where
  -- A connected pair of streams, the client's and the daemon's: what was sent to the daemon, and what
  -- was written to the client. A read to the end yields all of it.
  pub record Wire : Type 0 where
    pub asked : S → List Byte
    pub told : S → Text
    pub timed_lem :
        (t : Option Duration) (s : S)
        → let s' = (h (set_read_timeout c t) s).1 in (asked s' ≡ asked s) × (told s' ≡ told s)
    pub sent_lem :
        (bytes : List Byte) (s : S)
        → (h (write_all c bytes) s).0 ≡ ok tt
        → let s' = (h (write_all c bytes) s).1 in (asked s' ≡ asked s ++ bytes) × (told s' ≡ told s)
    pub shut_lem :
        (s : S) → let s' = (h (shutdown_write c) s).1 in (asked s' ≡ asked s) × (told s' ≡ told s)
    pub heard_lem :
        (bytes : List Byte) (s : S)
        → (h (read_to_end d) s).0 ≡ ok bytes
        → (bytes ≡ asked s) × (told (h (read_to_end d) s).1 ≡ told s)
    pub written_lem :
        (line : Text) (s : S)
        → (h (write_line d line) s).0 ≡ ok tt
        → told (h (write_line d line) s).1 ≡ told s ++ (line ++ codes "\n")
    pub read_lem : (text : Text) (s : S) → (h (read_to_string c) s).0 ≡ ok text → text ≡ told s
    -- The clock, the journal and the account names are not on the wire.
    pub noting_lem :
        (k : Command) (s : S) → IsNoting k → (asked (h k s).1 ≡ asked s) × (told (h k s).1 ≡ told s)

  is_ok-unit : (r : Result (Unit {0}) IoError) → is_ok r ≡ true → r ≡ ok tt
  is_ok-unit (ok u) e = refl
  is_ok-unit (err error) e = cc

  module _ (wire : Wire) where
    open wire use {
      asked, told, timed_lem, sent_lem, shut_lem, heard_lem, written_lem, read_lem, noting_lem,
    }

    -- The commands between leave the wire alone.
    pub unwired :
        {A : Type 0} (m : Io A) (s : S)
        → Only IsNoting m
        → (asked (run h m s).state ≡ asked s) × (told (run h m s).state ≡ told s)
    unwired m s o =
        run-Inv IsNoting h (λ t. (asked t ≡ asked s) × (told t ≡ told s))
          (λ k t q e. let (a, b) = noting_lem k t q in (a ∙ e.0, b ∙ e.1)) m s o (refl, refl)

    -- The commands of the client behind the first and the second of its sending.
    abbrev closing : Result (Unit {0}) IoError → Io (Result (Unit {0}) IoError)
    closing = try_then (λ _. ask (shutdown_write c))

    abbrev sending : Result (Unit {0}) IoError → Io (Result (Unit {0}) IoError)
    sending = try_then (λ _. ask (write_all c (codes "hello")) >>= closing)

    after_sent :
        (r : Result (Unit {0}) IoError) (s : S)
        → (run h (closing r) s).result ≡ ok tt
        → let s' = (run h (closing r) s).state in
          (r ≡ ok tt) × (asked s' ≡ asked s) × (told s' ≡ told s)
    after_sent (ok u) s e = let (a, t) = shut_lem s in (refl, a, t)
    after_sent (err error) s e = cc

    after_timed :
        (r : Result (Unit {0}) IoError) (s : S)
        → (run h (sending r) s).result ≡ ok tt
        → let s' = (run h (sending r) s).state in
          (asked s' ≡ asked s ++ codes "hello") × (told s' ≡ told s)
    after_timed (ok u) s e =
        let k = write_all c (codes "hello") in
        let (sent, a, t) = after_sent (h k s).0 (h k s).1 e in
        let (b, v) = sent_lem (codes "hello") s sent in (a ∙ b, t ∙ v)
    after_timed (err error) s e = cc

    -- What the client sends is on the wire.
    pub greeted_lem :
        (s : S)
        → (run h (greeted c) s).result ≡ ok tt
        → let s' = (run h (greeted c) s).state in
          (asked s' ≡ asked s ++ codes "hello") × (told s' ≡ told s)
    unfolding greeted
    greeted_lem s e =
        let k = set_read_timeout c (some (from_secs 20)) in
        let (a, t) = after_timed (h k s).0 (h k s).1 e in
        let (b, v) = timed_lem (some (from_secs 20)) s in
        (a ∙ ap (λ x. x ++ codes "hello") b, t ∙ v)

    pub written_told :
        (line : Text) (s : S)
        → is_ok (h (write_line d line) s).0 ≡ true
        → told (h (write_line d line) s).1 ≡ told s ++ (line ++ codes "\n")
    written_told line s e = written_lem line s (is_ok-unit (h (write_line d line) s).0 e)

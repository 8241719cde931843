-- ===== src/Gatekeeper/Serve/Vetted.antt =====
-- Whose requests the accept loop of examples/gatekeeper.rs reads.
pub mod Start
use uds_policy.Common.{
  ℕ, zero, suc, ◌≡◌, refl, true, Bool-cases, inl, inr, Option, none, some, Result, ok, err, List,
  [], ◌∷◌, Text,
}
use uds_policy.System.{
  Byte, Fd, IoError, Errno, Credentials, Command, Answer, Event, Io, ret, exec, ◌>>=◌, Handler, run,
  now, eprintln, cache_get, cache_insert, user_from_uid, write_line, peer_credentials, read_to_end,
  read_to_string,
}
use uds_policy.System.Only.{Only, Only-mono}
use uds_policy.System.Observe.{
  Follows, Obeys, Obeys->>=, Obeys-mono, Kept, quiet-Obeys, run-Follows,
}
use uds_policy.Caller.{Caller, peer, unreadable, of_credentials, of_socket}
use uds_policy.Authorization.{Authorizer, contains, for_uids, peer_gate, authorize}
use uds_policy.Audit.{begin, finish}
use uds_policy.Socket.Config.{Socket}
use uds_policy.Socket.Accept.{accept, accepted, deadlined}
use uds_policy.Gatekeeper.{answer, answered, exchange, said, replied}
use uds_policy.Gatekeeper.Serve.{Turned, handled, turn, turns, goes_on, noted, is_idle}
use uds_policy.Gatekeeper.Serve.Bookkeeping.{
  IsBookkeeping, begin-Books, finish-Books, noted-Books, replied-Books, refused-Books,
}

-- The last answer about a peer: on which stream it was asked, and what the kernel said.
abbrev pub Seen : Type 0
Seen = Option (Fd × Result Credentials Errno)

abbrev pub after : (c : Command) → Answer c → Seen → Seen
after (peer_credentials fd) r seen = some (fd, r)
after _ r seen = seen

-- The commands that ask about no peer and read no stream.
abbrev pub IsBlind : Command → Type 0
IsBlind (peer_credentials fd) = ⊥
IsBlind (read_to_end fd) = ⊥
IsBlind (read_to_string fd) = ⊥
IsBlind _ = Unit

after-blind : (c : Command) (r : Answer c) (seen : Seen) → IsBlind c → after c r seen ≡ seen
after-blind (peer_credentials fd) r seen q = absurd q
after-blind _ r seen q = refl

bookkeeping-IsBlind : (c : Command) → IsBookkeeping c → IsBlind c
bookkeeping-IsBlind (peer_credentials fd) q = absurd q
bookkeeping-IsBlind (read_to_end fd) q = absurd q
bookkeeping-IsBlind (read_to_string fd) q = absurd q
bookkeeping-IsBlind _ q = tt

abbrev pub Done : {A : Type 0} → Seen → A → Type 0
Done t a = Unit

module _ (uids : List ℕ) where
  -- The stream whose peer the kernel has just reported with a listed uid.
  abbrev pub IsVetted : Fd → Seen → Type 0
  IsVetted fd (some (stream, ok c)) = (fd ≡ stream) × (contains uids c.uid ≡ true)
  IsVetted fd _ = ⊥

  abbrev pub Allowed : Command → Seen → Type 0
  Allowed (read_to_end fd) seen = IsVetted fd seen
  Allowed (read_to_string fd) seen = IsVetted fd seen
  Allowed _ seen = Unit

  -- No stream is read in this trace but one that is vetted.
  abbrev pub ReadsVetted : Seen → List Event → Type 0
  ReadsVetted = Follows after Allowed

  -- A program that reads no stream but a vetted one, whatever it is answered, and returns in `Post`.
  abbrev pub Vets : {A : Type 0} → (Seen → A → Type 0) → Seen → Io A → Type 0
  Vets = Obeys after Allowed

  blind-Allowed : (c : Command) (seen : Seen) → IsBlind c → Allowed c seen
  blind-Allowed (read_to_end fd) seen q = absurd q
  blind-Allowed (read_to_string fd) seen q = absurd q
  blind-Allowed _ seen q = tt

  pub blind : {A : Type 0} (m : Io A) (seen : Seen) → Only IsBlind m → Vets (Kept seen) seen m
  blind m seen o = quiet-Obeys after Allowed IsBlind blind-Allowed after-blind m seen o

  pub books : {A : Type 0} (m : Io A) (seen : Seen) → Only IsBookkeeping m → Vets (Kept seen) seen m
  books m seen o = blind m seen (Only-mono m bookkeeping-IsBlind o)

  done : {A : Type 0} (m : Io A) (seen : Seen) → Only IsBookkeeping m → Vets Done seen m
  done m seen o = Obeys-mono after Allowed (Kept seen) Done m seen (λ t a e. tt) (books m seen o)

  module _ (lossy : List Byte → Text) where
    said-Vets :
        (stream : Fd) (caller : Caller) (seen : Seen) (r : Result (List Byte) IoError)
        → Vets Done seen (said lossy stream caller r)
    unfolding exchange
    said-Vets stream caller seen (err error) = tt
    said-Vets stream caller seen (ok bytes) =
        (tt, λ w. done (replied lossy caller w) seen (replied-Books lossy caller w))

    exchange-Vets :
        (stream : Fd) (caller : Caller) (seen : Seen)
        → IsVetted stream seen
        → Vets Done seen (exchange lossy stream caller)
    unfolding exchange
    exchange-Vets stream caller seen v = (v, said-Vets stream caller seen)

    served-Vets :
        (stream : Fd) (caller : Caller) (seen : Seen)
        → IsVetted stream seen
        → Vets Done seen (answered lossy stream caller (ok tt))
    unfolding answered
    served-Vets stream caller seen v =
        Obeys->>= after Allowed (Kept seen) Done (begin _ _ caller) _ seen
          (books _ seen (begin-Books _ _ caller))
          (λ t op e.
            Obeys->>= after Allowed Done Done (exchange lossy stream caller) _ t
              (exchange-Vets stream caller t (rw e v))
              (λ u outcome d. done (finish op _) u (finish-Books op _)))

    gate : Authorizer
    unfolding peer_gate for_uids
    gate = peer_gate (for_uids uids)

    answer-Vets :
        (stream : Fd) (c : Result Credentials Errno)
        → Vets Done (some (stream, c)) (answer lossy stream (of_credentials c) gate)
    unfolding answer gate of_credentials authorize contains
    answer-Vets stream (err error) =
        done _ (some (stream, err error)) (refused-Books lossy stream (unreadable error.text) _)
    answer-Vets stream (ok c) = elim (Bool-cases (contains uids c.uid)) [
      | inl listed ↦
          rw listed
            (served-Vets stream (peer c.pid c.uid c.gid) (some (stream, ok c)) (refl, listed))
      | inr unlisted ↦
          rw unlisted
            (done _ (some (stream, ok c)) (refused-Books lossy stream (peer c.pid c.uid c.gid) _))
    ]

    -- What `accept` returns with a stream is what the kernel has just said of it.
    Attributed : Seen → Result (Fd × Caller) IoError → Type 0
    Attributed t (err error) = Unit
    Attributed t (ok (stream, caller)) =
        (c : Result Credentials Errno) × (t ≡ some (stream, c)) × (caller ≡ of_credentials c)

    deadlined-Vets :
        (stream : Fd) (c : Result Credentials Errno) (r : Result (Unit {0}) IoError)
        → Vets Attributed (some (stream, c)) (deadlined stream (of_credentials c) r)
    unfolding accept Attributed
    deadlined-Vets stream c (err error) = tt
    deadlined-Vets stream c (ok u) = (c, refl, refl)

    accepted-Vets :
        (socket : Socket) (seen : Seen) (r : Result Fd IoError)
        → Vets Attributed seen (accepted socket r)
    unfolding accept of_socket Attributed
    accepted-Vets socket seen (err error) = tt
    accepted-Vets socket seen (ok stream) = (tt, λ c. (tt, deadlined-Vets stream c))

    accept-Vets : (socket : Socket) (seen : Seen) → Vets Attributed seen (accept socket)
    unfolding accept
    accept-Vets socket seen = (tt, accepted-Vets socket seen)

    handled-Vets :
        (l : Turned) (r : Result (Fd × Caller) IoError) (seen : Seen)
        → Attributed seen r
        → Vets Done seen (handled lossy gate l r)
    unfolding handled Attributed
    handled-Vets l (err error) seen a =
        Obeys->>= after Allowed Done Done (noted error (is_idle error.kind)) _ seen
          (done _ seen (noted-Books error (is_idle error.kind))) (λ t u d. tt)
    handled-Vets l (ok (stream, caller)) seen (c, e, is) = (
      tt,
      λ started.
          Obeys->>= after Allowed Done Done (answer lossy stream caller gate) _ seen
            (rw (e, is) (answer-Vets stream c)) (λ t u d. (tt, λ finished. tt)),
    )

    turn-Vets :
        (socket : Socket) (l : Turned) (seen : Seen) → Vets Done seen (turn lossy gate socket l)
    unfolding turn
    turn-Vets socket l seen =
        Obeys->>= after Allowed Attributed Done (accept socket) _ seen (accept-Vets socket seen)
          (λ t r a.
            Obeys->>= after Allowed Done Done (handled lossy gate l r) _ t (handled-Vets l r t a)
              (λ u m d. (tt, λ at. tt)))

    turns-Vets :
        (n : ℕ) (socket : Socket) (limit : Option ℕ) (l : Turned) (seen : Seen)
        → Vets Done seen (turns lossy gate n socket limit l)
    unfolding turns
    turns-Vets zero socket limit l seen = tt
    turns-Vets (suc n) socket limit l seen = elim (Bool-cases (goes_on limit l.served)) [
      | inl on ↦ rw on (
          Obeys->>= after Allowed Done Done (turn lossy gate socket l) _ seen
            (turn-Vets socket l seen) (λ t m d. turns-Vets n socket limit m t))
      | inr over ↦ rw over tt
    ]

    pub loop-Vets :
        (n : ℕ) (socket : Socket) (limit : Option ℕ) (l : Turned) (seen : Seen)
        → Vets Done seen (turns lossy (peer_gate (for_uids uids)) n socket limit l)
    unfolding gate
    loop-Vets n socket limit l seen = turns-Vets n socket limit l seen

    -- Any number of turns read a stream only after the kernel has reported a listed uid for its peer,
    -- and nothing about another peer since, whatever the surroundings answer.
    reads_vetted :
        {S : Type 0} (h : Handler S) (socket : Socket) (n : ℕ) (limit : Option ℕ) (l : Turned)
        (s : S)
        → ReadsVetted none
            (run h (turns lossy (peer_gate (for_uids uids)) n socket limit l) s).trace
    reads_vetted h socket n limit l s =
        (run-Follows after Allowed Done h (turns lossy _ n socket limit l) none s
          (loop-Vets n socket limit l none)).0

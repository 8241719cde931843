-- ===== src/Gatekeeper/Serve/Accounts.antt =====
-- The journal of examples/gatekeeper.rs as an account of the calls that its loop serves.
pub mod Loop
use uds_policy.Common.{
  ℕ, zero, suc, ◌+◌, ◌≤◌, ◌<◌, ◌≡◌, refl, Bool, true, false, Bool-cases, inl, inr, Option, none,
  some, Result, ok, err, List, [], ◌∷◌, Text, codes, format, starts_with, if◌then◌else◌, u64_max,
  arith,
}
use uds_policy.System.{
  Byte, Fd, Instant, IoError, Command, Answer, Event, Io, Handler, run, eprintln, ret, exec, ◌>>=◌,
}
use uds_policy.System.Only.{Only, Only->>=}
use uds_policy.System.Observe.{
  observed, Obeys, Obeys->>=, Obeys-mono, Kept, quiet-Obeys, run-Follows,
}
use uds_policy.Call
use uds_policy.Caller.{Caller, peer, of_socket}
use uds_policy.Caller.Names.{name_for_uid}
use uds_policy.Caller.Render
use uds_policy.Authorization.{Authorizer, Denial}
use uds_policy.Audit.{Operation, begin, finish, describe}
use uds_policy.Socket.Config.{Socket}
use uds_policy.Socket.Accept.{accept}
use uds_policy.Gatekeeper.{daemon, change, answer, answered, exchange, said, replied, failure_of}
use uds_policy.Gatekeeper.Serve.{Turned, handled, one_more, turn, turns, goes_on, noted, is_idle}

-- How many operations were announced and how many concluded, and how many connections refused.
pub record Tally : Type 0 where
  pub announced : ℕ
  pub concluded : ℕ
  pub refused : ℕ

-- What a line of the journal adds.
unfoldable pub count_line : Text → Tally → Tally
unfolding starts_with
count_line l t =
    if starts_with l (codes "echod: audit: begin ")
    then record t { announced = t.announced + 1 }
    else if starts_with l (codes "echod: audit: ok ")
    then record t { concluded = t.concluded + 1 }
    else if starts_with l (codes "echod: audit: failed ")
    then record t { concluded = t.concluded + 1 }
    else if starts_with l (codes "echod: refused ")
    then record t { refused = t.refused + 1 }
    else t

abbrev pub counted : (c : Command) → Answer c → Tally → Tally
counted (eprintln l) r t = count_line l t
counted _ r t = t

-- The account of a trace.
abbrev pub tally : List Event → Tally
tally = observed counted (record { announced = 0; concluded = 0; refused = 0 })

abbrev pub Any : Command → Tally → Type 0
Any c t = Unit

abbrev pub Counts : {A : Type 0} → (Tally → A → Type 0) → Tally → Io A → Type 0
Counts = Obeys counted Any

abbrev pub IsMute : Command → Type 0
IsMute (eprintln l) = ⊥
IsMute _ = Unit

counted-mute : (c : Command) (r : Answer c) (t : Tally) → IsMute c → counted c r t ≡ t
counted-mute (eprintln l) r t q = absurd q
counted-mute _ r t q = refl

mute : {A : Type 0} (m : Io A) (t : Tally) → Only IsMute m → Counts (Kept t) t m
mute m t o = quiet-Obeys counted Any IsMute (λ c x q. tt) counted-mute m t o

display-Mute : (caller : Caller) → Only IsMute (Render.display caller)
unfolding Render.display name_for_uid
display-Mute (peer pid uid gid) = ground arith
display-Mute _ = tt

pub accept-Mute : (socket : Socket) → Only IsMute (accept socket)
unfolding accept of_socket
accept-Mute socket = ground arith

-- What follows a program that writes no line.
pub past :
    {A B : Type 0} (Q : Tally → B → Type 0) (m : Io A) (f : A → Io B) (t : Tally)
    → Only IsMute m
    → ((a : A) → Counts Q t (f a))
    → Counts Q t (m >>= f)
past Q m f t o next = Obeys->>= counted Any (Kept t) Q m f t (mute m t o) (λ u a e. rw e (next a))

describe-Mute : (action : Text) (caller : Caller) → Only IsMute (describe change action caller)
unfolding describe
describe-Mute action caller =
    Only->>= IsMute (Render.display caller) _ (display-Mute caller) (λ by. tt)

-- An operation of the example's, announced.
abbrev IsBegun : Tally → Tally → Operation → Type 0
IsBegun t u op =
    (u ≡ record t { announced = t.announced + 1 })
    × (op.service ≡ daemon)
    × ((label : Text) × (op.label ≡ some label))

begin-Counts : (caller : Caller) (t : Tally) → Counts (IsBegun t) t (begin daemon change caller)
unfolding begin Call.gated count_line
begin-Counts caller t = (
  tt,
  λ started.
      past (IsBegun t) (describe change _ caller) _ t (describe-Mute _ caller)
        (λ label. (tt, λ r. (refl, refl, (label, refl)))),
)

finish-Counts :
    (op : Operation) (failure : Option Text) (label : Text) (t : Tally)
    → op.service ≡ daemon
    → op.label ≡ some label
    → Counts (λ u _. u ≡ record t { concluded = t.concluded + 1 }) t (finish op failure)
unfolding finish count_line
finish-Counts op none label t e l = rw (e, l) (tt, λ stopped. (tt, λ r. refl))
finish-Counts op (some reason) label t e l = rw (e, l) (tt, λ stopped. (tt, λ r. refl))

pub noted-Counts :
    (error : IoError) (idle : Bool) (t : Tally) → Counts (Kept t) t (noted error idle)
unfolding handled count_line
noted-Counts error true t = refl
noted-Counts error false t = (tt, λ r. refl)

-- What answering a connection adds: a refusal, or an operation announced and concluded.
abbrev pub IsAnswered : Tally → Tally → Unit {0} → Type 0
IsAnswered t u a =
    (u.announced + u.refused ≡ t.announced + t.refused + 1)
    × (u.concluded + t.announced ≡ u.announced + t.concluded)

module _ (lossy : List Byte → Text) where
  replied-Counts :
      (caller : Caller) (r : Result (Unit {0}) IoError) (t : Tally)
      → Counts (Kept t) t (replied lossy caller r)
  unfolding exchange count_line
  replied-Counts caller (err error) t = refl
  replied-Counts caller (ok u) t =
      past (Kept t) (Render.display caller) _ t (display-Mute caller) (λ by. (tt, λ r. refl))

  said-Counts :
      (stream : Fd) (caller : Caller) (r : Result (List Byte) IoError) (t : Tally)
      → Counts (Kept t) t (said lossy stream caller r)
  unfolding exchange
  said-Counts stream caller (err error) t = refl
  said-Counts stream caller (ok bytes) t = (tt, λ w. replied-Counts caller w t)

  pub answered-Counts :
      (stream : Fd) (caller : Caller) (verdict : Result (Unit {0}) Denial) (t : Tally)
      → Counts (IsAnswered t) t (answered lossy stream caller verdict)
  unfolding answered exchange Call.gated count_line
  answered-Counts stream caller (err denial) t =
      past (IsAnswered t) (Render.display caller) _ t (display-Mute caller)
        (λ by. (tt, λ r. (tt, λ w. (omega arith, omega arith))))
  answered-Counts stream caller (ok u) t =
      Obeys->>= counted Any (IsBegun t) (IsAnswered t) (begin daemon change caller) _ t
        (begin-Counts caller t)
        (λ v op b.
          Obeys->>= counted Any (Kept v) (IsAnswered t) (exchange lossy stream caller) _ v
            (tt, λ r. said-Counts stream caller r v)
            (λ w outcome e.
              Obeys-mono counted Any (λ x _. x ≡ record w { concluded = w.concluded + 1 })
                (IsAnswered t) (finish op (failure_of outcome)) w
                (λ x _ d. rw (d, e, b.0) (omega arith))
                (finish-Counts op (failure_of outcome) b.2.0 w b.1 b.2.1)))

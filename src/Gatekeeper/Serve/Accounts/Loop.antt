-- ===== src/Gatekeeper/Serve/Accounts/Loop.antt =====
-- The loop of examples/gatekeeper.rs against its journal: every call that it serves is accounted for.
use uds_policy.Common.{
  ℕ, zero, suc, ◌+◌, ◌≤◌, ◌<◌, ◌≡◌, refl, Bool-cases, inl, inr, Option, Result, ok, err, List, Text,
  u64_max, arith,
}
use uds_policy.System.{Byte, Fd, IoError, Handler, run}
use uds_policy.System.Observe.{Obeys->>=, Kept, run-Follows}
use uds_policy.Caller.{Caller}
use uds_policy.Authorization.{Authorizer}
use uds_policy.Socket.Config.{Socket}
use uds_policy.Socket.Accept.{accept}
use uds_policy.Gatekeeper.{change, answer, answered}
use uds_policy.Gatekeeper.Serve.{Turned, handled, one_more, turn, turns, goes_on, noted, is_idle}
use uds_policy.Gatekeeper.Serve.Accounts.{
  Tally, counted, tally, Any, Counts, IsAnswered, past, accept-Mute, noted-Counts, answered-Counts,
}

-- Each served call is either refused or an operation, and each operation that was announced is
-- concluded.
abbrev pub IsBalanced : ℕ → Tally → Turned → Type 0
IsBalanced before t l = (l.served ≡ before + t.announced + t.refused) × (t.concluded ≡ t.announced)

module _ (lossy : List Byte → Text) where
  module _ (authorizer : Authorizer) (socket : Socket) (before : ℕ) where
    abbrev IsNext : Turned → Tally → Turned → Type 0
    IsNext l u m = IsBalanced before u m × (m.served ≤ l.served + 1)

    handled-Counts :
        (l : Turned) (r : Result (Fd × Caller) IoError) (t : Tally)
        → IsBalanced before t l
        → l.served < u64_max
        → Counts (IsNext l) t (handled lossy authorizer l r)
    unfolding handled one_more answer
    handled-Counts l (err error) t b fits =
        Obeys->>= counted Any (Kept t) (IsNext l) (noted error (is_idle error.kind)) _ t
          (noted-Counts error (is_idle error.kind) t) (λ u a e. rw e (b, omega arith))
    handled-Counts l (ok (stream, caller)) t b fits = (
      tt,
      λ started.
          Obeys->>= counted Any (IsAnswered t) (IsNext l)
            (answered lossy stream caller (authorizer.authorize change caller)) _ t
            (answered-Counts lossy stream caller (authorizer.authorize change caller) t)
            (λ u a done. (tt, λ finished. ground arith)),
    )

    turn-Counts :
        (l : Turned) (t : Tally)
        → IsBalanced before t l
        → l.served < u64_max
        → Counts (IsNext l) t (turn lossy authorizer socket l)
    unfolding turn
    turn-Counts l t b fits = past (IsNext l) (accept socket) _ t (accept-Mute socket) (λ r.
        Obeys->>= counted Any (IsNext l) (IsNext l) (handled lossy authorizer l r) _ t
          (handled-Counts l r t b fits) (λ u m b'. (tt, λ at. b')))

    turns-Counts :
        (n : ℕ) (limit : Option ℕ) (l : Turned) (t : Tally)
        → IsBalanced before t l
        → l.served + n ≤ u64_max
        → Counts (IsBalanced before) t (turns lossy authorizer n socket limit l)
    unfolding turns
    turns-Counts zero limit l t b fits = b
    turns-Counts (suc n) limit l t b fits = elim (Bool-cases (goes_on limit l.served)) [
      | inl on ↦ rw on (
          Obeys->>= counted Any (IsNext l) (IsBalanced before) (turn lossy authorizer socket l) _ t
            (turn-Counts l t b (omega arith))
            (λ u m b'. turns-Counts n limit m u b'.0 (omega arith)))
      | inr over ↦ rw over b
    ]

  -- Whatever the gate decides and the surroundings answer, after any number of turns that a 64-bit
  -- count can tell the journal accounts for every call that was counted as served: either it was
  -- refused in a line, or it was announced and its outcome recorded, and there are no other lines of
  -- these kinds.
  pub turns_accounted :
      (authorizer : Authorizer) (socket : Socket) {S : Type 0} (h : Handler S) (n : ℕ)
      (limit : Option ℕ) (l : Turned) (s : S)
      → l.served + n ≤ u64_max
      → let o = run h (turns lossy authorizer n socket limit l) s in
        IsBalanced l.served (tally o.trace) o.result
  turns_accounted authorizer socket h n limit l s fits =
      (run-Follows counted Any (IsBalanced l.served) h (turns lossy authorizer n socket limit l) _ s
        (turns-Counts authorizer socket l.served n limit l _ (omega arith, refl) fits)).1

-- ===== src/Authorization/Plain.antt =====
-- A denial stays on one line.
use uds_policy.Common.{
  ℕ, ◌≡◌, ap, subst, ◌||◌, Result, ok, err, [], ◌∷◌, Text, codes, format, decimal, arith, IsOneLine,
  IsOneLine-format, IsOneLine-decimal, Bool-cases, inl, inr,
}
use uds_policy.Call
use uds_policy.Call.{Call}
use uds_policy.Caller.{Caller, peer, unreadable, in_process}
use uds_policy.Caller.Render.Plain.{PlainCaller}
use uds_policy.Authorization.{
  Denial, PeerGate, authorize, contains, unlisted_parts, unidentified_parts, into_result, new,
}
use uds_policy.Audit.Plain.{PlainCall, IsOneLine-call}

reason_of : Result (Unit {0}) Denial → Text
reason_of (ok u) = []
reason_of (err d) = d.reason

module _ (gate : PeerGate) (call : Call) where
  unlisted-IsOneLine :
      (uid gid : ℕ) → PlainCall call → IsOneLine (format (unlisted_parts uid gid call))
  unfolding unlisted_parts
  unlisted-IsOneLine uid gid c =
      IsOneLine-format
        (codes "uid "
          ∷ decimal uid
          ∷ codes " gid "
          ∷ decimal gid
          ∷ codes " may not call "
          ∷ Call.display call
          ∷ [])
        (
          omega arith,
          (
            IsOneLine-decimal uid,
            (omega arith, (IsOneLine-decimal gid, (omega arith, (IsOneLine-call call c, tt)))),
          ),
        )

  unidentified-IsOneLine :
      (why : Text) → IsOneLine why → IsOneLine (format (unidentified_parts why))
  unfolding unidentified_parts
  unidentified-IsOneLine why p =
      IsOneLine-format
        (codes "the caller could not be identified ("
          ∷ why
          ∷ codes "), and this daemon does not serve unidentified callers"
          ∷ [])
        (omega arith, (p, (omega arith, tt)))

  refused_reason : (r : Text) (d : Denial) → into_result (new r) ≡ err d → r ≡ d.reason
  unfolding reason_of
  refused_reason r d e = ap reason_of e

  -- A gate refuses in one line, if the call's words and the reason of an unreadable caller are on
  -- one.
  pub denial-IsOneLine :
      (caller : Caller) (denial : Denial)
      → PlainCall call
      → PlainCaller caller
      → authorize gate call caller ≡ err denial
      → IsOneLine denial.reason
  unfolding authorize
  denial-IsOneLine (peer pid uid gid) denial c p e =
      elim (Bool-cases (contains gate.allowed_uids uid || contains gate.allowed_gids gid)) [
        | inl listed ↦ (let e' = rw listed at e in absurd (cc e'))
        | inr unlisted ↦
            (let e' = rw unlisted at e in
              subst IsOneLine (refused_reason _ denial e') (unlisted-IsOneLine uid gid c))
      ]
  denial-IsOneLine (unreadable why) denial c p e = elim (Bool-cases gate.reject_unreadable_caller) [
    | inl reject ↦
        (let e' = rw reject at e in
          subst IsOneLine (refused_reason _ denial e') (unidentified-IsOneLine why p))
    | inr admit ↦ (let e' = rw admit at e in absurd (cc e'))
  ]
  denial-IsOneLine in_process denial c p e = absurd (cc e)

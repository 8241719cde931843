-- ===== src/Audit/Plain.antt =====
-- No audit line can be split in two by what it quotes.
use uds_policy.Common.{
  ℕ, ◌≤◌, ◌≡◌, refl, subst, Option, none, some, [], ◌∷◌, Text, codes, decimal, arith, length, All,
  IsOneLine, IsOneLine-format, IsOneLine-decimal, IsOneLine-flatten, length-flatten-le,
  flatten-of_line,
}
use uds_policy.System.{Handler, run, now, ret}
use uds_policy.System.Journal.{printed}
use uds_policy.Call
use uds_policy.Call.{Call, Authorization, policy, unprivileged_tag}
use uds_policy.Caller.{Caller}
use uds_policy.Caller.Names.{Cache}
use uds_policy.Caller.Names.Memo.{with_cache}
use uds_policy.Caller.Names.Plain.{PlainCache}
use uds_policy.Caller.Render.Plain.{PlainCaller, IsOneLine-display}
use uds_policy.Audit.{bound, max_failure_chars, outcome_line}
use uds_policy.Audit.Lines.{session, around, label_of, outcome_line-recorded, around-Brackets-at}

-- What reaches the journal of a failure text is one line of at most 256 characters, and such a text
-- is left as it is when it is bounded again.
pub bound_lem :
    (value : Text)
    → IsOneLine (bound value) × (length (bound value) ≤ 256) × (bound (bound value) ≡ bound value)
unfolding bound
bound_lem value = (
  IsOneLine-flatten max_failure_chars value,
  length-flatten-le max_failure_chars value,
  flatten-of_line max_failure_chars _ (IsOneLine-flatten max_failure_chars value)
      (length-flatten-le max_failure_chars value),
)

abbrev pub PlainTag : Authorization → Type 0
PlainTag unprivileged_tag = Unit
PlainTag (policy action) = IsOneLine action

-- The words of a contract are on one line.
abbrev pub PlainCall : Call → Type 0
PlainCall call = IsOneLine call.object × IsOneLine call.method × PlainTag call.authorization

pub IsOneLine-call : (call : Call) → PlainCall call → IsOneLine (Call.display call)
unfolding Call.display
IsOneLine-call call (o, m, a) =
    IsOneLine-format (call.object ∷ codes "." ∷ call.method ∷ []) (o, (omega arith, (m, tt)))

IsOneLine-label :
    (call : Call) (action by : Text)
    → PlainCall call
    → IsOneLine action
    → IsOneLine by
    → IsOneLine (label_of call action by)
IsOneLine-label call action by c a b =
    IsOneLine-format (Call.display call ∷ codes " action=" ∷ action ∷ codes " by=" ∷ by ∷ [])
      (IsOneLine-call call c, (omega arith, (a, (omega arith, (b, tt)))))

IsOneLine-outcome_line :
    (service label : Text) (millis : ℕ) (failure : Option Text)
    → IsOneLine service
    → IsOneLine label
    → IsOneLine (outcome_line service label millis failure)
unfolding outcome_line
IsOneLine-outcome_line service label millis none s l =
    IsOneLine-format
      (service ∷ codes ": audit: ok " ∷ label ∷ codes " (" ∷ decimal millis ∷ codes "ms)" ∷ [])
      (s, (omega arith, (l, (omega arith, (IsOneLine-decimal millis, (omega arith, tt))))))
IsOneLine-outcome_line service label millis (some reason) s l =
    IsOneLine-format
      (service
        ∷ codes ": audit: failed "
        ∷ label
        ∷ codes " ("
        ∷ decimal millis
        ∷ codes "ms): "
        ∷ bound reason
        ∷ [])
      (
        s,
        (
          omega arith,
          (
            l,
            (
              omega arith,
              (
                IsOneLine-decimal millis,
                (omega arith, (IsOneLine-flatten max_failure_chars reason, tt)),
              ),
            ),
          ),
        ),
      )

module _ {S : Type 0} (h : Handler S) (service : Text) (call : Call) (caller : Caller)
    (failure : Option Text) (w : Cache × S) where
  -- Whatever the failure text, the account names in NSS and the clock say, each line that an
  -- operation writes stays one line, as long as the contract's own words, the service's name and
  -- the reason of an unreadable caller do, and the cache was filled by this code.
  pub session-IsOneLine :
      IsOneLine service
      → PlainCall call
      → PlainCaller caller
      → PlainCache w.0
      → All IsOneLine (printed (run (with_cache h) (session service call caller failure) w).trace)
  unfolding session around
  session-IsOneLine s c p q = cases call.authorization refl
    where
      cases :
          (a : Authorization)
          → call.authorization ≡ a
          → All IsOneLine
              (printed (run (with_cache h) (session service call caller failure) w).trace)
      cases unprivileged_tag e =
          rw
            ((around-Brackets-at (with_cache h) service call caller (ret failure) w unprivileged_tag
              e).0)
            tt
      cases (policy action) e =
          let by = IsOneLine-display h caller ((with_cache h) now w).1 q p in
          let label = IsOneLine-label call action _ c (subst PlainTag e c.2) by in
          rw
            ((around-Brackets-at (with_cache h) service call caller (ret failure) w (policy action)
              e).0)
            (
              IsOneLine-format (service ∷ codes ": audit: begin " ∷ _ ∷ [])
                  (s, (omega arith, (label, tt))),
              (
                subst IsOneLine (outcome_line-recorded service _ _ failure)
                    (IsOneLine-outcome_line service _ _ failure s label),
                tt,
              ),
            )

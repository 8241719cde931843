-- ===== src/Caller/Render/Plain.antt =====
-- A rendered caller stays on one line.
use uds_policy.Common.{
  ℕ, ℤ, pos, negsuc, ◌+◌, Option, none, some, [], ◌∷◌, Text, codes, decimal, signed_decimal, arith,
  IsOneLine, IsOneLine-format, IsOneLine-decimal,
}
use uds_policy.System.{Handler, run, run-bind}
use uds_policy.Caller.{Caller, peer, unreadable, in_process}
use uds_policy.Caller.Names.{Cache}
use uds_policy.Caller.Names.Memo.{with_cache}
use uds_policy.Caller.Names.Plain.{PlainName, PlainCache, name_for_uid-PlainName}
use uds_policy.Caller.Render.{display, named, numbers}

IsOneLine-signed : (z : ℤ) → IsOneLine (signed_decimal z)
unfolding signed_decimal
IsOneLine-signed (pos n) = IsOneLine-decimal n
IsOneLine-signed (negsuc n) = ((omega arith, omega arith), IsOneLine-decimal (n + 1))

IsOneLine-numbers : (pid : ℤ) (uid gid : ℕ) → IsOneLine (numbers pid uid gid)
unfolding numbers
IsOneLine-numbers pid uid gid =
    IsOneLine-format
      (codes "uid "
        ∷ decimal uid
        ∷ codes " gid "
        ∷ decimal gid
        ∷ codes " pid "
        ∷ signed_decimal pid
        ∷ [])
      (
        omega arith,
        (
          IsOneLine-decimal uid,
          (omega arith, (IsOneLine-decimal gid, (omega arith, (IsOneLine-signed pid, tt)))),
        ),
      )

IsOneLine-named : (n : Option Text) (t : Text) → PlainName n → IsOneLine t → IsOneLine (named n t)
unfolding named
IsOneLine-named none t p q = q
IsOneLine-named (some n) t p q =
    IsOneLine-format (n ∷ codes "(" ∷ t ∷ codes ")" ∷ []) (p, (omega arith, (q, (omega arith, tt))))

-- Only the reason of an unreadable caller comes from elsewhere.
abbrev pub PlainCaller : Caller → Type 0
PlainCaller (unreadable reason) = IsOneLine reason
PlainCaller _ = Unit

pub IsOneLine-display :
    {S : Type 0} (h : Handler S) (c : Caller) (w : Cache × S)
    → PlainCache w.0
    → PlainCaller c
    → IsOneLine (run (with_cache h) (display c) w).result
unfolding display
IsOneLine-display h (peer pid uid gid) w p q =
    rw run-bind
      (IsOneLine-named _ _ (name_for_uid-PlainName h uid w p) (IsOneLine-numbers pid uid gid))
IsOneLine-display h (unreadable reason) w p q =
    IsOneLine-format (codes "unreadable (" ∷ reason ∷ codes ")" ∷ [])
      (omega arith, (q, (omega arith, tt)))
IsOneLine-display h in_process w p q = omega arith

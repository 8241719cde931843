-- ===== src/Common/Format.antt =====
-- `format!`: a text put together from its parts, and what holds of every part or of some part.
use mathlib.Core.Path.{◌≡◌}
use mathlib.Core.Logic.{◌⊎◌, inl, inr}
use mathlib.Core.List.{List, [], ◌∷◌, ◌++◌, append_assoc}
use uds_policy.Common.Lists.{All, All-append}
use uds_policy.Common.Chars.{Text}
use uds_policy.Common.Lines.{IsPlain, IsOneLine}

abbrev pub format : List Text → Text
format [] = []
format (p ∷ ps) = p ++ format ps

-- `p` stands somewhere in `s`.
abbrev pub Contains : Text → Text → Type 0
Contains p s = (before : Text) × (after : Text) × (s ≡ before ++ (p ++ after))

abbrev pub IsPart : Text → List Text → Type 0
IsPart p [] = ⊥
IsPart p (q ∷ qs) = (p ≡ q) ⊎ IsPart p qs

pub Contains-format : (p : Text) (parts : List Text) → IsPart p parts → Contains p (format parts)
Contains-format p [] h = absurd h
Contains-format p (q ∷ qs) (inl e) = ([], format qs, rw e)
Contains-format p (q ∷ qs) (inr h) =
    let (before, after, e) = Contains-format p qs h in (q ++ before, after, rw e (rw append_assoc))

pub Contains-trans : (p q s : Text) → Contains p q → Contains q s → Contains p s
Contains-trans p q s (b, a, e) (c, d, f) = (c ++ b, a ++ d, rw (f, e) (simp append_assoc))

-- A text is on one line if each of its parts is.
pub IsOneLine-format : (parts : List Text) → All IsOneLine parts → IsOneLine (format parts)
IsOneLine-format [] h = tt
IsOneLine-format (p ∷ ps) h = All-append IsPlain p (format ps) h.0 (IsOneLine-format ps h.1)

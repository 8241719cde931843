-- ===== src/Common/Lines.antt =====
-- Text that stays on one line of the journal, and how a foreign text is bounded and flattened.
use uds_policy.Common.Tests.{◌==◌, if◌then◌else◌}
use uds_policy.Common.Lists.{length, take, length-take-le, length-map, take-of_le, All, All-append}
use uds_policy.Common.Chars.{Text}
use uds_policy.Common.Decimal.{IsDigit, decimal, All-decimal}
use Prim.Native.Nat.{ℕ, ◌≤◌}
use mathlib.Core.Bool.{◌||◌}
use mathlib.Core.Path.{◌≡◌, refl}
use mathlib.Core.Logic.{◌≢◌}
use mathlib.Core.List.{[], ◌∷◌, ◌++◌, map}
use native.Mathlib.Omega.{arith}

abbrev pub line_feed : ℕ
line_feed = 10

abbrev pub carriage_return : ℕ
carriage_return = 13

-- Neither `'\n'` nor `'\r'`.
abbrev pub IsPlain : ℕ → Type 0
IsPlain c = (c ≢ line_feed) × (c ≢ carriage_return)

abbrev pub IsOneLine : Text → Type 0
IsOneLine = All IsPlain

-- one character of `.replace(['\n', '\r'], " ")`
flat : ℕ → ℕ
flat c = if c == line_feed || c == carriage_return then b' ' else c

-- `.chars().take(n).collect::<String>().replace(['\n', '\r'], " ")`
unfoldable pub flatten : ℕ → Text → Text
unfolding flat
flatten n s = map flat (take n s)

IsPlain-flat : (c : ℕ) → IsPlain (flat c)
unfolding flat
IsPlain-flat c = ground arith

IsOneLine-map : (s : Text) → IsOneLine (map flat s)
IsOneLine-map [] = tt
IsOneLine-map (c ∷ s) = (IsPlain-flat c, IsOneLine-map s)

pub IsOneLine-flatten : (n : ℕ) (s : Text) → IsOneLine (flatten n s)
unfolding flatten
IsOneLine-flatten n s = IsOneLine-map (take n s)

pub length-flatten-le : (n : ℕ) (s : Text) → length (flatten n s) ≤ n
unfolding flatten
length-flatten-le n s = omega (arith, length-map flat (take n s), length-take-le n s)

flat-of_plain : (c : ℕ) → IsPlain c → flat c ≡ c
unfolding flat
flat-of_plain c h = ground arith

map-of_plain : (s : Text) → IsOneLine s → map flat s ≡ s
map-of_plain [] h = refl
map-of_plain (c ∷ s) h = rw (flat-of_plain c h.0, map-of_plain s h.1)

-- A short text on one line is left as it is.
pub flatten-of_line : (n : ℕ) (s : Text) → IsOneLine s → length s ≤ n → flatten n s ≡ s
unfolding flatten
flatten-of_line n s h le = rw (take-of_le n s le) (map-of_plain s h)

IsOneLine-of_digits : (s : Text) → All IsDigit s → IsOneLine s
IsOneLine-of_digits [] h = tt
IsOneLine-of_digits (c ∷ s) h = ((omega arith, omega arith), IsOneLine-of_digits s h.1)

pub IsOneLine-decimal : (n : ℕ) → IsOneLine (decimal n)
IsOneLine-decimal n = IsOneLine-of_digits (decimal n) (All-decimal n)

pub IsOneLine-append : (s t : Text) → IsOneLine s → IsOneLine t → IsOneLine (s ++ t)
IsOneLine-append = All-append IsPlain

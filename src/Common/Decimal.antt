-- ===== src/Common/Decimal.antt =====
-- How `std` prints unsigned and signed integers in decimal, and how `str::parse` reads them back.
use Prim.Native.Nat.{ℕ, zero, suc, ◌+◌, ◌-◌, ◌*◌, ◌/◌, ◌%◌, ◌^◌, ◌≤◌, ◌<◌}
use mathlib.Core.Path.{◌≡◌, ◌∙◌, refl, refl, ◌∙◌}
use mathlib.Core.Bool.{◌&&◌}
use mathlib.Core.Option.{Option, none, some}
use mathlib.Core.List.{[], ◌∷◌}
use native.Mathlib.Omega.{arith}
use mathlib.Core.Logic.{inl, inr}
use uds_policy.Common.Tests.{Bool-cases, ltb, leb, ◌==◌, if◌then◌else◌}
use uds_policy.Common.Lists.{All}
use uds_policy.Common.Chars.{Text, codes}

abbrev pub u32_max : ℕ
u32_max = 2 ^ 32 - 1

abbrev pub u64_max : ℕ
u64_max = 2 ^ 64 - 1

-- One digit a round, from the right; `n` has at most `n + 1` digits.
unfoldable pub digits : ℕ → ℕ → Text → Text
digits zero n out = out
digits (suc f) n out =
    let rest = digits f (n / 10) ((b'0' + n % 10) ∷ out) in
    if ltb n 10 then (b'0' + n) ∷ out else rest

-- `Display for u32`, `u64` and `u128`
unfoldable pub decimal : ℕ → Text
unfolding digits
decimal n = digits (n + 1) n []

-- The digits behind the value read so far, by checked arithmetic that fails above `max`.
unfoldable pub scan : ℕ → Text → ℕ → Option ℕ
scan max [] n = some n
scan max (c ∷ s) n =
    let d = c - b'0' in
    let rest = scan max s (n * 10 + d) in
    if leb b'0' c && leb c b'9' && leb (n * 10 + d) max then rest else none

-- `str::parse` at an unsigned type whose greatest value is `max`: a `+` may lead, and at least one
-- digit must follow.
unfoldable pub parse_uint : ℕ → Text → Option ℕ
unfolding scan
parse_uint max [] = none
parse_uint max (c ∷ []) = scan max (c ∷ []) 0
parse_uint max (c ∷ d ∷ s) = if c == b'+' then scan max (d ∷ s) 0 else scan max (c ∷ d ∷ s) 0

abbrev pub IsDigit : ℕ → Type 0
IsDigit c = (b'0' ≤ c) × (c ≤ b'9')

-- Reading the digits of `n` with what follows is reading what follows after `n`.
scan-digits :
    (f max n : ℕ) (out : Text) → n < f → n ≤ max → scan max (digits f n out) 0 ≡ scan max out n
unfolding digits scan
scan-digits zero max n out h le = absurd (omega arith)
scan-digits (suc f) max n out h le =
    ground (arith, scan-digits f max (n / 10) ((b'0' + n % 10) ∷ out))

-- The print is a list of digits before what follows it, and it is not empty.
digits-IsDigit :
    (f n : ℕ) (out : Text)
    → n < f
    → All IsDigit out
    → (c : ℕ) × (s : Text) × (digits f n out ≡ c ∷ s) × IsDigit c × All IsDigit s
unfolding digits
digits-IsDigit zero n out h d = absurd (omega arith)
digits-IsDigit (suc f) n out h d = elim (Bool-cases (ltb n 10)) [
  | inl small ↦ (b'0' + n, out, rw small, ground arith, d)
  | inr large ↦
      rw large (digits-IsDigit f (n / 10) ((b'0' + n % 10) ∷ out) (ground arith) (ground arith, d))
]

pub decimal-IsDigit :
    (n : ℕ) → (c : ℕ) × (s : Text) × (decimal n ≡ c ∷ s) × IsDigit c × All IsDigit s
unfolding decimal
decimal-IsDigit n = digits-IsDigit (n + 1) n [] (omega arith) tt

pub All-decimal : (n : ℕ) → All IsDigit (decimal n)
All-decimal n = let (c, s, e, d, ds) = decimal-IsDigit n in rw e (d, ds)

parse-scan : (max c : ℕ) (s : Text) → IsDigit c → parse_uint max (c ∷ s) ≡ scan max (c ∷ s) 0
unfolding parse_uint
parse-scan max c [] h = refl
parse-scan max c (d ∷ s) h = ground arith

scan-decimal : (max n : ℕ) → n ≤ max → scan max (decimal n) 0 ≡ some n
unfolding decimal scan
scan-decimal max n h = scan-digits (n + 1) max n [] (omega arith) h

-- A number within the type's range is read back from its print.
pub parse-decimal : (max n : ℕ) → n ≤ max → parse_uint max (decimal n) ≡ some n
parse-decimal max n h =
    let (c, s, e, d, ds) = decimal-IsDigit n in
    rw e (parse-scan max c s d ∙ (rw e at (scan-decimal max n h)))

-- What `parse_uint` accepts is within the type's range.
scan-le : (max : ℕ) (s : Text) (n r : ℕ) → n ≤ max → scan max s n ≡ some r → r ≤ max
unfolding scan
scan-le max [] n r le h = ground arith
scan-le max (c ∷ s) n r le h = ground (arith, scan-le max s (n * 10 + (c - b'0')) r)

pub parse_uint-le : (max : ℕ) (s : Text) (r : ℕ) → parse_uint max s ≡ some r → r ≤ max
unfolding parse_uint
parse_uint-le max [] r h = cc
parse_uint-le max (c ∷ []) r h = scan-le max (c ∷ []) 0 r (omega arith) h
parse_uint-le max (c ∷ d ∷ s) r h = elim (Bool-cases (c == b'+')) [
  | inl plus ↦ scan-le max (d ∷ s) 0 r (omega arith) (rw plus at h)
  | inr digit ↦ scan-le max (c ∷ d ∷ s) 0 r (omega arith) (rw digit at h)
]

over_u64 : parse_uint u64_max (codes "18446744073709551616") ≡ none
unfolding parse_uint
over_u64 = refl

with_plus : parse_uint u32_max (codes "+42") ≡ some 42
unfolding parse_uint
with_plus = refl

malformed :
    (parse_uint u64_max (codes "not-a-number") ≡ none) × (parse_uint u64_max (codes "+") ≡ none)
unfolding parse_uint
malformed = (refl, refl)

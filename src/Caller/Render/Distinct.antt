-- ===== src/Caller/Render/Distinct.antt =====
-- That a rendered peer can be told from every other one by its numbers, whatever the account names.
use uds_policy.Common.{
  ℕ, ℤ, pos, negsuc, ◌+◌, ◌≡◌, ◌≢◌, refl, sym, ap, ◌∙◌, Bool, true, false, ◌||◌, Option, none, some,
  List, [], ◌∷◌, ◌++◌, Text, codes, format, decimal, signed_decimal, parse_uint, parse-decimal,
  IsDigit, All-decimal, decimal-IsDigit, All, All-append, append-nil, arith, ◌==◌, if◌then◌else◌,
}
use uds_policy.System.{Handler, run, run-bind}
use uds_policy.Caller.{peer}
use uds_policy.Caller.Names.{name_for_uid}
use uds_policy.Caller.Render.{display, named, numbers}

append_cancel : (p a b : Text) → p ++ a ≡ p ++ b → a ≡ b
append_cancel [] a b e = e
append_cancel (c ∷ p) a b e = append_cancel p a b (ground arith)

decimal_injective : (m n : ℕ) → decimal m ≡ decimal n → m ≡ n
decimal_injective m n e =
    let read = ap (parse_uint (m + n)) e in
    cc (read, parse-decimal (m + n) m (omega arith), parse-decimal (m + n) n (omega arith))

decimal-ne-dash : (m : ℕ) (s : Text) → decimal m ≢ b'-' ∷ s
decimal-ne-dash m s e = let (c, t, shown, d, _) = decimal-IsDigit m in absurd (ground arith)

signed_decimal_injective : (a b : ℤ) → signed_decimal a ≡ signed_decimal b → a ≡ b
unfolding signed_decimal
signed_decimal_injective (pos m) (pos n) e = ap pos (decimal_injective m n e)
signed_decimal_injective (negsuc m) (negsuc n) e =
    let same : m + 1 ≡ n + 1 =
      decimal_injective (m + 1) (n + 1) (append_cancel (codes "-") _ _ e) in
    ap negsuc (omega arith)
signed_decimal_injective (pos m) (negsuc n) e = absurd (decimal-ne-dash m _ e)
signed_decimal_injective (negsuc m) (pos n) e = absurd (decimal-ne-dash n _ (sym e))

-- Digits up to a space are read off the front.
split_at_space :
    (a b r s : Text)
    → All IsDigit a
    → All IsDigit b
    → a ++ (b' ' ∷ r) ≡ b ++ (b' ' ∷ s)
    → (a ≡ b) × (r ≡ s)
split_at_space [] [] r s da db e = ground arith
split_at_space [] (c ∷ b) r s da db e = absurd (ground arith)
split_at_space (c ∷ a) [] r s da db e = absurd (ground arith)
split_at_space (c ∷ a) (d ∷ b) r s da db e = ground (arith, split_at_space a b r s da.1 db.1)

numbers_injective :
    (p q : ℤ) (u v g k : ℕ) → numbers p u g ≡ numbers q v k → (p ≡ q) × (u ≡ v) × (g ≡ k)
unfolding numbers
numbers_injective p q u v g k e =
    let (same_uid, gids) =
      split_at_space (decimal u) (decimal v)
        (codes "gid " ++ (decimal g ++ (codes " pid " ++ (signed_decimal p ++ []))))
        (codes "gid " ++ (decimal k ++ (codes " pid " ++ (signed_decimal q ++ [])))) (All-decimal u)
        (All-decimal v) (append_cancel (codes "uid ") _ _ e) in
    let (same_gid, pids) =
      split_at_space (decimal g) (decimal k) (codes "pid " ++ (signed_decimal p ++ []))
        (codes "pid " ++ (signed_decimal q ++ [])) (All-decimal g) (All-decimal k)
        (append_cancel (codes "gid ") _ _ gids) in
    let same_pid : signed_decimal p ≡ signed_decimal q =
      simp append-nil at (append_cancel (codes "pid ") _ _ pids) in
    (
      signed_decimal_injective p q same_pid,
      decimal_injective u v same_uid,
      decimal_injective g k same_gid,
    )

abbrev IsInside : ℕ → Type 0
IsInside c = (c ≢ b'(') × (c ≢ b')')

IsInside-of_digits : (s : Text) → All IsDigit s → All IsInside s
IsInside-of_digits [] h = tt
IsInside-of_digits (c ∷ s) h = (ground arith, IsInside-of_digits s h.1)

IsInside-signed : (z : ℤ) → All IsInside (signed_decimal z)
unfolding signed_decimal
IsInside-signed (pos n) = IsInside-of_digits _ (All-decimal n)
IsInside-signed (negsuc n) = (ground arith, IsInside-of_digits _ (All-decimal (n + 1)))

All-format : (parts : List Text) → All (All IsInside) parts → All IsInside (format parts)
All-format [] h = tt
All-format (p ∷ ps) h = All-append IsInside p (format ps) h.0 (All-format ps h.1)

numbers-IsInside : (p : ℤ) (u g : ℕ) → All IsInside (numbers p u g)
unfolding numbers
numbers-IsInside p u g =
    All-format
      (codes "uid " ∷ decimal u ∷ codes " gid " ∷ decimal g ∷ codes " pid " ∷ signed_decimal p ∷ [])
      (
        ground arith,
        (
          IsInside-of_digits _ (All-decimal u),
          (
            ground arith,
            (IsInside-of_digits _ (All-decimal g), (ground arith, (IsInside-signed p, tt))),
          ),
        ),
      )

has_bracket : Text → Bool
has_bracket [] = false
has_bracket (c ∷ s) = c == b'(' || has_bracket s

-- What stands behind the last opening bracket, or the whole text if there is none.
behind : Text → Text
unfolding has_bracket
behind [] = []
behind (c ∷ s) = if has_bracket s then behind s else if c == b'(' then s else c ∷ s

behind-of_none : (s : Text) → has_bracket s ≡ false → behind s ≡ s
unfolding behind
behind-of_none [] no_bracket = refl
behind-of_none (c ∷ s) no_bracket = ground arith

-- What stands before the first closing bracket.
before : Text → Text
before [] = []
before (c ∷ s) = if c == b')' then [] else c ∷ before s

-- `n` has no brackets; `r` follows it.
module _ (r : Text) where
  has_bracket-append :
      (n : Text) → All IsInside n → has_bracket r ≡ false → has_bracket (n ++ r) ≡ false
  unfolding has_bracket
  has_bracket-append [] h e = e
  has_bracket-append (c ∷ n) h e = ground (arith, has_bracket-append n h.1 e)

  has_bracket-name : (name : Text) → has_bracket (name ++ (b'(' ∷ r)) ≡ true
  unfolding has_bracket
  has_bracket-name [] = refl
  has_bracket-name (c ∷ name) = ground (arith, has_bracket-name name)

  behind-name : (name : Text) → has_bracket r ≡ false → behind (name ++ (b'(' ∷ r)) ≡ r
  unfolding behind
  behind-name [] no_bracket = ground arith
  behind-name (c ∷ name) no_bracket = ground (arith, has_bracket-name name, behind-name name)

  before-append : (n : Text) → All IsInside n → before (n ++ (b')' ∷ r)) ≡ n
  unfolding before
  before-append [] h = refl
  before-append (c ∷ n) h = ground (arith, before-append n h.1)

has_bracket-IsInside : (n : Text) → All IsInside n → has_bracket n ≡ false
unfolding has_bracket
has_bracket-IsInside [] h = refl
has_bracket-IsInside (c ∷ n) h = ground (arith, has_bracket-IsInside n h.1)

before-IsInside : (n : Text) → All IsInside n → before n ≡ n
unfolding before
before-IsInside [] h = refl
before-IsInside (c ∷ n) h = ground (arith, before-IsInside n h.1)

-- The numbers can be read off a rendered peer whatever its name is.
numbers_of : (name : Option Text) (n : Text) → All IsInside n → before (behind (named name n)) ≡ n
unfolding named has_bracket
numbers_of none n h = rw (behind-of_none n (has_bracket-IsInside n h)) (before-IsInside n h)
numbers_of (some name) n h =
    rw (behind-name (n ++ (b')' ∷ [])) name (has_bracket-append (b')' ∷ []) n h refl))
      (before-append [] n h)

module _ {S T : Type 0} (h : Handler S) (k : Handler T) where
  -- Two peers that are rendered alike, at any two moments and whatever their account names, have
  -- the same pid, uid and gid.
  pub rendered_apart :
      (pid pid' : ℤ) (uid uid' gid gid' : ℕ) (s : S) (t : T)
      → (run h (display (peer pid uid gid)) s).result
        ≡ (run k (display (peer pid' uid' gid')) t).result
      → (pid ≡ pid') × (uid ≡ uid') × (gid ≡ gid')
  unfolding display
  rendered_apart pid pid' uid uid' gid gid' s t e =
      let shown = ap (λ o. o.result) (run-bind h (name_for_uid uid) _ s) in
      let shown' = ap (λ o. o.result) (run-bind k (name_for_uid uid') _ t) in
      let same = ap (λ x. before (behind x)) (sym shown ∙ e ∙ shown') in
      numbers_injective pid pid' uid uid' gid gid' (
        sym (numbers_of _ _ (numbers-IsInside pid uid gid))
        ∙ same
        ∙ numbers_of _ _ (numbers-IsInside pid' uid' gid'))

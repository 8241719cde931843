-- ===== src/Caller/Names/Plain.antt =====
-- A name never carries a line break into the journal, whatever NSS says.
use uds_policy.Common.{
  ℕ, ◌≡◌, refl, Option, none, some, Result, ok, err, Text, IsOneLine, IsOneLine-flatten,
}
use uds_policy.System.{Errno, Handler, run}
use uds_policy.Caller.Names.{
  Cache, get, name_for_uid, remember, cached_or_lookup, sanitize, max_caller_name_chars,
}
use uds_policy.Caller.Names.Memo.{with_cache}

abbrev pub PlainName : Option Text → Type 0
PlainName none = Unit
PlainName (some n) = IsOneLine n

abbrev pub PlainCache : Cache → Type 0
PlainCache c = (u : ℕ) (n : Option Text) → get u c ≡ some n → PlainName n

module _ {S : Type 0} (h : Handler S) (uid : ℕ) where
  remember-PlainName :
      (r : Result (Option Text) Errno) (w : Cache × S)
      → PlainName (run (with_cache h) (remember uid r) w).result
  unfolding remember sanitize
  remember-PlainName (err e) w = tt
  remember-PlainName (ok none) w = tt
  remember-PlainName (ok (some n)) w = IsOneLine-flatten max_caller_name_chars n

  cached-PlainName :
      (r : Option (Option Text)) (w : Cache × S)
      → ((n : Option Text) → r ≡ some n → PlainName n)
      → PlainName (run (with_cache h) (cached_or_lookup uid r) w).result
  unfolding cached_or_lookup
  cached-PlainName (some n) w p = p n refl
  cached-PlainName none (c, s) p = remember-PlainName _ _

  pub name_for_uid-PlainName :
      (w : Cache × S) → PlainCache w.0 → PlainName (run (with_cache h) (name_for_uid uid) w).result
  unfolding name_for_uid
  name_for_uid-PlainName (c, s) p = cached-PlainName (get uid c) (c, s) (p uid)

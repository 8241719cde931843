-- ===== src/Caller/Names/Memo.antt =====
-- One thread: what a second lookup of the same uid does.
use uds_policy.Common.{
  Option-cases, Bool-cases, inl, inr, ℕ, ◌≡◌, refl, Bool, true, false, Option, none, some, err,
  List, [], ◌∷◌, Text, ◌⊎◌, ◌||◌, arith,
}
use uds_policy.System.{
  Command, Answer, Handler, run, Outcome, Event, cache_get, cache_insert, user_from_uid,
}
use uds_policy.Caller.Names.{Cache, get, insert, name_for_uid}

-- The cache answers its own commands; the rest is answered from outside.
abbrev pub with_cache : {S : Type 0} → Handler S → Handler (Cache × S)
with_cache h (cache_get u) (c, s) = (get u c, (c, s))
with_cache h (cache_insert u n) (c, s) = (tt, (insert u n c, s))
with_cache h q (c, s) = let (r, t) = h q s in (r, (c, t))

-- The uids that NSS was asked for.
abbrev pub asked : List Event → List ℕ
asked [] = []
asked (e ∷ t) = elim e.command [ user_from_uid u ↦ u ∷ asked t | _ ↦ asked t ]

abbrev is_failed_lookup : (q : Command) → Answer q → Bool
is_failed_lookup (user_from_uid u) (err e) = true
is_failed_lookup _ _ = false

-- Whether a lookup could not be completed.
abbrev pub lookup_failed : List Event → Bool
lookup_failed [] = false
lookup_failed (e ∷ t) = is_failed_lookup e.command e.answer || lookup_failed t

module _ {S : Type 0} (h : Handler S) (uid : ℕ) where
  abbrev pub resolve : Cache × S → Outcome (Option Text) (Cache × S)
  resolve = run (with_cache h) (name_for_uid uid)

  hit :
      (c : Cache) (s : S) (n : Option Text)
      → get uid c ≡ some n
      → resolve (c, s) ≡ record {
        result = n;
        trace = record { command = cache_get uid; answer = some n } ∷ [];
        state = (c, s);
      }
  unfolding name_for_uid
  hit c s n e = rw e

  -- A cached name is the answer, without a lookup and without a change.
  hit_lem :
      (w : Cache × S) (n : Option Text)
      → get uid w.0 ≡ some n
      → ((resolve w).result ≡ n) × (asked (resolve w).trace ≡ []) × ((resolve w).state ≡ w)
  hit_lem (c, s) n e = rw (hit c s n e) (refl, refl, refl)

  miss :
      (w : Cache × S)
      → get uid w.0 ≡ none
      → ((lookup_failed (resolve w).trace ≡ false)
          × (get uid (resolve w).state.0 ≡ some (resolve w).result))
        ⊎ ((lookup_failed (resolve w).trace ≡ true)
            × ((resolve w).result ≡ none)
            × ((resolve w).state.0 ≡ w.0))
  unfolding name_for_uid get insert
  miss (c, s) e = rw e (ground arith)

  miss_asks : (w : Cache × S) → get uid w.0 ≡ none → asked (resolve w).trace ≡ uid ∷ []
  unfolding name_for_uid
  miss_asks (c, s) e = rw e (ground arith)

  hit_known :
      (w : Cache × S) (n : Option Text)
      → get uid w.0 ≡ some n
      → (lookup_failed (resolve w).trace ≡ false)
        × (get uid (resolve w).state.0 ≡ some (resolve w).result)
  hit_known (c, s) n e = rw (hit c s n e) (refl, e)

  known :
      (w : Cache × S)
      → lookup_failed (resolve w).trace ≡ false
      → get uid (resolve w).state.0 ≡ some (resolve w).result
  known w f = elim (Option-cases (get uid w.0)) [
    | inr (n, e) ↦ (hit_known w n e).1
    | inl e ↦ elim (miss w e) [ inl p ↦ p.1 | inr p ↦ absurd (cc (f, p.0)) ]
  ]

  unknown :
      (w : Cache × S)
      → lookup_failed (resolve w).trace ≡ true
      → ((resolve w).result ≡ none) × ((resolve w).state.0 ≡ w.0) × (get uid w.0 ≡ none)
  unknown w f = elim (Option-cases (get uid w.0)) [
    | inr (n, e) ↦ absurd (cc (f, (hit_known w n e).0))
    | inl e ↦ elim (miss w e) [ inl p ↦ absurd (cc (f, p.0)) | inr p ↦ (p.1, p.2, e) ]
  ]

  -- After a lookup that did not fail, the same question gets the same answer from the cache: NSS is
  -- not asked again, and nothing changes.
  name_for_uid_remembered :
      (w : Cache × S)
      → lookup_failed (resolve w).trace ≡ false
      → ((resolve (resolve w).state).result ≡ (resolve w).result)
        × (asked (resolve (resolve w).state).trace ≡ [])
        × ((resolve (resolve w).state).state ≡ (resolve w).state)
  name_for_uid_remembered w f = hit_lem (resolve w).state (resolve w).result (known w f)

  -- A failed lookup answers `None`, leaves the cache as it was, and the next call asks NSS again.
  name_for_uid_retried :
      (w : Cache × S)
      → lookup_failed (resolve w).trace ≡ true
      → ((resolve w).result ≡ none)
        × ((resolve w).state.0 ≡ w.0)
        × (asked (resolve (resolve w).state).trace ≡ uid ∷ [])
  name_for_uid_retried w f =
      let (r, c, e) = unknown w f in (r, c, miss_asks (resolve w).state (rw c e))

  -- What is asked twice: after a lookup that did not fail, the second answer is the first, it comes
  -- from the cache without asking NSS, and nothing changes. A failed lookup answers `None` and leaves
  -- the cache as it was, and the second one asks NSS again.
  pub name_for_uid_again :
      (w : Cache × S)
      → let first = resolve w in
        let second = resolve first.state in
        ((lookup_failed first.trace ≡ false)
          × (second.result ≡ first.result)
          × (asked second.trace ≡ [])
          × (second.state ≡ first.state))
        ⊎ ((lookup_failed first.trace ≡ true)
            × (first.result ≡ none)
            × (first.state.0 ≡ w.0)
            × (asked second.trace ≡ uid ∷ []))
  name_for_uid_again w = elim (Bool-cases (lookup_failed (resolve w).trace)) [
    | inl failed ↦ (let (r, c, q) = name_for_uid_retried w failed in inr (failed, r, c, q))
    | inr found ↦ (let (r, a, n) = name_for_uid_remembered w found in inl (found, r, a, n))
  ]

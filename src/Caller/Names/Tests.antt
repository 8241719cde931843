-- ===== src/Caller/Names/Tests.antt =====
-- The name cache at concrete inputs.
use uds_policy.Common.{
  ℕ, ◌≡◌, refl, none, some, ok, [], ◌∷◌, Option, Text, codes, flatten, inl, true, false, ◌⊎◌,
}
use native.Mathlib.Decide.{ℕ_discrete}
use uds_policy.System.{Io, ret, cache_get, cache_insert, user_from_uid}
use uds_policy.System.Sample.{sample}
use uds_policy.System.Threads.{Pool, Reach, start, later, advance, update}
use uds_policy.Caller.Names.{Cache, get, insert, name_for_uid, sanitize, cached_or_lookup, remember}
use uds_policy.Caller.Names.Memo.{resolve, asked, lookup_failed, name_for_uid_again}
use uds_policy.Caller.Names.Race.{names_may, IsSound, Answered, racing_lookups_agree}

abbrev Again : ℕ → Type 0
Again uid =
    let first = resolve sample uid ([], 0) in
    let second = resolve sample uid first.state in
    ((lookup_failed first.trace ≡ false)
      × (second.result ≡ first.result)
      × (asked second.trace ≡ [])
      × (second.state ≡ first.state))
    ⊎ ((lookup_failed first.trace ≡ true)
        × (first.result ≡ none)
        × (first.state.0 ≡ [])
        × (asked second.trace ≡ uid ∷ []))

name_for_uid_again_example : Again 77
name_for_uid_again_example = name_for_uid_again sample 77 ([], 0)

-- The lookup of uid 77 is one that fails.
seventy_seven_fails : lookup_failed (resolve sample 77 ([], 0)).trace ≡ true
unfolding name_for_uid get
seventy_seven_fails = refl

abbrev accounts : ℕ → Option Text
accounts uid = some (codes "you")

abbrev NobodyFails : ℕ → Type 0
NobodyFails uid = ⊥

empty_IsSound : IsSound accounts NobodyFails []
unfolding get
empty_IsSound u n e = cc e

-- Every thread asks for uid 7; thread 0 has looked into the empty cache, asked NSS, and stored what
-- it learned.
abbrev learned : Option Text
learned = some (codes "you")

abbrev stored : Cache
stored = (7, learned) ∷ []

abbrev moved : Pool Cache (Option Text) → Cache → Io (Option Text) → Pool Cache (Option Text)
moved p c t = record { shared = c; threads = update p.threads 0 t }

abbrev begun : Pool Cache (Option Text)
begun = record { shared = []; threads = λ i. name_for_uid 7 }

abbrev missed : Pool Cache (Option Text)
missed = moved begun [] (cached_or_lookup 7 none)

abbrev answered : Pool Cache (Option Text)
answered = moved missed [] (remember 7 (ok learned))

abbrev finished : Pool Cache (Option Text)
finished = moved answered stored (ret learned)

one_thread_ran : Reach (names_may accounts NobodyFails) begun finished
unfolding name_for_uid get insert ℕ_discrete sanitize flatten
one_thread_ran =
    later {q = answered}
      (later {q = missed}
        (later {q = begun} start
          (advance 0 (cache_get 7) (cached_or_lookup 7) none [] refl (refl, refl) refl))
        (advance 0 (user_from_uid 7) (remember 7) (ok learned) [] refl (inl refl, refl) refl))
      (advance 0 (cache_insert 7 learned) (λ _. ret learned) tt stored refl refl refl)

racing_lookups_agree_example :
    IsSound accounts NobodyFails stored × Answered accounts NobodyFails 7 learned
unfolding ℕ_discrete
racing_lookups_agree_example =
    racing_lookups_agree accounts NobodyFails [] (λ i. 7) finished 0 learned empty_IsSound
      one_thread_ran refl

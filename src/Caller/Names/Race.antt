-- ===== src/Caller/Names/Race.antt =====
-- Several threads that look names up at once, on one cache: any interleaving of their critical
-- sections and of their NSS calls.
use mathlib.Core.Option
use uds_policy.Common.{
  ℕ, ◌≡◌, refl, sym, ◌∙◌, Option, none, some, Result, ok, err, Text, ◌⊎◌, inl, inr, ◌==◌, ==_iff,
  Bool-cases,
}
use uds_policy.System.{Command, Answer, Errno, Io, ret, cache_get, cache_insert, user_from_uid}
use uds_policy.System.Threads.{Answers, Pool, Reach, Good, Reach-IsGood}
use uds_policy.Caller.Names.{Cache, get, insert, name_for_uid, sanitize, remember, cached_or_lookup}

-- The account database: the owner of each uid, and the uids whose lookup may fail.
module _ (db : ℕ → Option Text) (Failing : ℕ → Type 0) where
  -- The name that the journal shows for a uid.
  abbrev pub shown : ℕ → Option Text
  shown uid = Option.map sanitize (db uid)

  -- The cache answers atomically; NSS answers from the database, or fails where it may.
  abbrev pub names_may : Answers Cache
  names_may (cache_get u) c r t = (r ≡ get u c) × (t ≡ c)
  names_may (cache_insert u n) c r t = t ≡ insert u n c
  names_may (user_from_uid u) c r t =
      ((r ≡ ok (db u)) ⊎ ((e : Errno) × (r ≡ err e) × Failing u)) × (t ≡ c)
  names_may _ c r t = t ≡ c

  -- Everything that the cache remembers is what the database says.
  abbrev pub IsSound : Cache → Type 0
  IsSound c = (u : ℕ) (n : Option Text) → get u c ≡ some n → n ≡ shown u

  abbrev Fine : Command → Type 0
  Fine (cache_insert u n) = n ≡ shown u
  Fine _ = Unit

  abbrev Fits : (c : Command) → Answer c → Type 0
  Fits (cache_get u) r = (n : Option Text) → r ≡ some n → n ≡ shown u
  Fits (user_from_uid u) r = (r ≡ ok (db u)) ⊎ ((e : Errno) × (r ≡ err e) × Failing u)
  Fits _ r = Unit

  insert-IsSound :
      (u : ℕ) (n : Option Text) (c : Cache) → n ≡ shown u → IsSound c → IsSound (insert u n c)
  unfolding insert get
  insert-IsSound u n c e s v m p = elim (Bool-cases (u == v)) [
    | inl same ↦ cc (rw same at p, (==_iff u v).0 same, e)
    | inr other ↦ s v m (rw other at p)
  ]

  keeps :
      (q : Command) (c : Cache) (r : Answer q) (t : Cache)
      → names_may q c r t
      → Fine q
      → IsSound c
      → IsSound t × Fits q r
  keeps (cache_get u) c r t m f s = (rw m.1 s, λ n e. s u n (sym m.0 ∙ e))
  keeps (cache_insert u n) c r t m f s = (rw m (insert-IsSound u n c f s), tt)
  keeps (user_from_uid u) c r t m f s = (rw m.1 s, m.0)
  keeps _ c r t m f s = (rw m s, tt)

  -- What a finished lookup of `uid` may have returned.
  abbrev pub Answered : ℕ → Option Text → Type 0
  Answered uid r = (r ≡ shown uid) ⊎ ((r ≡ none) × Failing uid)

  abbrev GoodFor : ℕ → Io (Option Text) → Type 0
  GoodFor uid = Good names_may IsSound Fine Fits (Answered uid)

  remember-Good :
      (uid : ℕ) (r : Result (Option Text) Errno)
      → Fits (user_from_uid uid) r
      → GoodFor uid (remember uid r)
  unfolding remember
  remember-Good uid (ok user) (inl e) =
      let known : Option.map sanitize user ≡ shown uid = cc e in (known, λ _ _. inl known)
  remember-Good uid (ok user) (inr (x, e, f)) = absurd (cc e)
  remember-Good uid (err x) (inl e) = absurd (cc e)
  remember-Good uid (err x) (inr (y, e, f)) = inr (refl, f)

  cached_or_lookup-Good :
      (uid : ℕ) (r : Option (Option Text))
      → Fits (cache_get uid) r
      → GoodFor uid (cached_or_lookup uid r)
  unfolding cached_or_lookup
  cached_or_lookup-Good uid (some n) f = inl (f n refl)
  cached_or_lookup-Good uid none f = (tt, remember-Good uid)

  name_for_uid-Good : (uid : ℕ) → GoodFor uid (name_for_uid uid)
  unfolding name_for_uid
  name_for_uid-Good uid = (tt, cached_or_lookup-Good uid)

  -- Any number of threads, each looking up a uid of its own, starting from a sound cache and
  -- interleaved in any way: the cache stays sound, and a thread that has returned has the name
  -- that the database gives, or `None` for a uid whose lookup may fail.
  pub racing_lookups_agree :
      (c : Cache) (uids : ℕ → ℕ) (q : Pool Cache (Option Text)) (i : ℕ) (r : Option Text)
      → IsSound c
      → Reach names_may (record { shared = c; threads = λ i. name_for_uid (uids i) }) q
      → q.threads i ≡ ret r
      → IsSound q.shared × Answered (uids i) r
  racing_lookups_agree c uids q i r s reach e =
      let g =
        Reach-IsGood names_may IsSound Fine Fits keeps (λ i. Answered (uids i)) reach
          (record { shared = s; threads = λ i. name_for_uid-Good (uids i) }) in
      (g.shared, rw e at (g.threads i))

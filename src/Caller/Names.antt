-- ===== src/Caller/Names.antt =====
-- `name_for_uid` of src/caller.rs, and the cache that it remembers names in.
pub mod Memo
pub mod Race
pub mod Plain
mod Tests
use uds_policy.Common.{
  ℕ, Bool, Option, none, some, Result, ok, err, List, [], ◌∷◌, Text, flatten, ◌==◌, if◌then◌else◌,
}
use mathlib.Core.Option
use uds_policy.System.{
  Errno, Io, ret, ask, ◌>>=◌, ◌>>◌, Handler, cache_get, cache_insert, user_from_uid,
}

-- `MAX_CALLER_NAME_CHARS`
abbrev pub max_caller_name_chars : ℕ
max_caller_name_chars = 64

unfoldable pub sanitize : Text → Text
sanitize name = flatten max_caller_name_chars name

-- `looked_up.and_then(…)`: the outer `None` is a lookup that failed and is not remembered, the
-- inner one is a uid that no account owns, and is.
remember : ℕ → Result (Option Text) Errno → Io (Option Text)
remember uid (err error) = ret none
remember uid (ok user) =
    let resolved : Option Text = Option.map sanitize user in
    do ask (cache_insert uid resolved); ret resolved

-- the early return of the first critical section
cached_or_lookup : ℕ → Option (Option Text) → Io (Option Text)
unfolding remember
cached_or_lookup uid (some cached) = ret cached
cached_or_lookup uid none = do looked_up ← ask (user_from_uid uid); remember uid looked_up

unfoldable pub name_for_uid : ℕ → Io (Option Text)
unfolding cached_or_lookup
name_for_uid uid = do cached ← ask (cache_get uid); cached_or_lookup uid cached

-- The `HashMap<u32, Option<String>>` behind the mutex. A poisoned lock is entered like any other.
abbrev pub Cache : Type 0
Cache = List (ℕ × Option Text)

unfoldable pub get : ℕ → Cache → Option (Option Text)
get uid [] = none
get uid ((u, n) ∷ c) = if u == uid then some n else get uid c

unfoldable pub insert : ℕ → Option Text → Cache → Cache
insert uid name c = (uid, name) ∷ c

-- ===== src/Gatekeeper/SelfTest/Halves.antt =====
-- `self_test` of examples/gatekeeper.rs around its checks: the directory, the daemon and its client on
-- two threads, and what their ends make of it.
use uds_policy.Common.{
  ℕ, zero, suc, ◌==◌, ◌≡◌, ◌<◌, ◌^◌, refl, true, Option, none, some, Result, ok, err, map_err, List,
  [], ◌∷◌, ◌++◌, Text, codes, format, decimal, contains_text, if◌then◌else◌,
}
use uds_policy.System.{
  FilePath, Byte, IoError, Handler, Io, ret, ask, run, run-bind, ◌>>=◌, temp_dir, process_id,
  create_dir_all, remove_dir_all,
}
use uds_policy.Socket.Config.{BindError}
use uds_policy.Gatekeeper.{daemon}
use uds_policy.Gatekeeper.Serve.{Turned, serve, own}
use uds_policy.Gatekeeper.SelfTest.{judged, judged-answered}
use uds_policy.Gatekeeper.SelfTest.Client.{client}

-- What a `?` or a `return` makes the error of `self_test`.
pub data Failed : Type 0 where
  io : IoError → Failed
  unbound : BindError → Failed
  said_why : Text → Failed

-- whether `Path::join` puts a separator: only an empty path and one that ends with it have none
needs_separator : FilePath → Text
needs_separator [] = []
needs_separator (c ∷ []) = if c == b'/' then [] else b'/' ∷ []
needs_separator (c ∷ d ∷ path) = needs_separator (d ∷ path)

-- `Path::join` with a relative path
unfoldable pub join : FilePath → Text → FilePath
unfolding needs_separator
join dir name = dir ++ needs_separator dir ++ name

-- The directory, the socket's path in it, and that path as a text.
pub record Place : Type 0 where
  pub dir : FilePath
  pub socket_path : FilePath
  pub path_string : Text

-- `to_str` is `Path::to_str`, which has no text for a path that is not UTF-8.
module _ (to_str : FilePath → Option Text) where
  -- after `create_dir_all(&dir)`
  located : FilePath → Result (Unit {0}) IoError → Result Place Failed
  unfolding join
  located dir (err error) = err (io error)
  located dir (ok u) =
      let socket_path = join dir (codes "gatekeeper.sock") in
      elim (to_str socket_path) [
        | none ↦ err (said_why (codes "non-utf8 temporary directory"))
        | some path_string ↦
            ok (record { dir = dir; socket_path = socket_path; path_string = path_string })
      ]

  unfoldable pub prepared : Io (Result Place Failed)
  unfolding located
  prepared = do
    base ← ask temp_dir
    pid ← ask process_id
    let dir = join base (format (codes "uds-policy-self-test-" ∷ decimal pid ∷ []))
    created ← ask (create_dir_all dir)
    ret (located dir created)

-- How one of the two threads ends, and what stands for a thread that there is not.
pub data Half : Type 0 where
  served : Result Turned BindError → Half
  read : Option (Result Text IoError) → Half
  idle : Half

-- The threads after the `spawn`: the daemon that is to serve one call, and the client.
unfoldable pub halves : (List Byte → Text) → ℕ → ℕ → Place → ℕ → Io Half
halves lossy turns rounds place zero =
    serve lossy turns place.path_string (some 1) >>= (λ r. ret (served r))
halves lossy turns rounds place (suc zero) = client rounds place.socket_path >>= (λ r. ret (read r))
halves lossy turns rounds place (suc (suc i)) = ret idle

module _ (debug trim : Text → Text) where
  -- after `remove_dir_all(&dir)`
  unfoldable pub removed : Text → Result (Unit {0}) IoError → Io (Result Text Failed)
  removed reply (err error) = ret (err (io error))
  removed reply (ok u) = do r ← judged debug trim reply; ret (map_err said_why r)

  -- What follows `serve(…)?`, with the reply that `join` yields; the client does not panic.
  unfoldable pub ended : FilePath → Result Text IoError → Io (Result Text Failed)
  unfolding removed
  ended dir (err error) = ret (err (io error))
  ended dir (ok reply) = do r ← ask (remove_dir_all dir); removed reply r

module _ (debug trim : Text → Text) {S : Type 0} (h : Handler S) where
  removed_lem :
      (reply : Text) (r : Result (Unit {0}) IoError) (s : S) (verdict : Result Text Text)
      → r ≡ ok tt
      → (run h (judged debug trim reply) s).result ≡ verdict
      → (run h (removed debug trim reply r) s).result ≡ map_err said_why verdict
  unfolding removed
  removed_lem reply r s verdict e v = rw (e, run-bind h (judged debug trim reply) _ s, v) refl

  -- If the daemon served, its client read the reply and the directory could be removed, the self-test
  -- passes, as long as the process's own uid does not change.
  ended-passes :
      (dir : FilePath) (reply : Text) (s : S) (uid : ℕ)
      → (h (remove_dir_all dir) s).0 ≡ ok tt
      → uid < 2 ^ 32
      → let t = (h (remove_dir_all dir) s).1 in
        (run h own t).result ≡ uid
        → (run h own (run h own t).state).result ≡ uid
        → contains_text reply (codes "said: hello") ≡ true
        → (run h (ended debug trim dir (ok reply)) s).result
          ≡ ok (format (daemon ∷ codes ": self-test ok: " ∷ trim reply ∷ []))
  unfolding ended
  ended-passes dir reply s uid r u e e' c =
      let t = (h (remove_dir_all dir) s).1 in
      removed_lem reply _ t _ r (judged-answered h debug trim reply t uid u e e' c)

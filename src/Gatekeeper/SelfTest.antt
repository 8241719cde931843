-- ===== src/Gatekeeper/SelfTest.antt =====
-- `main` of examples/gatekeeper.rs, which tells the self-test from the daemon, and what `self_test`
-- makes of the reply that its client read.
pub mod Client
pub mod Halves
pub mod Wire
pub mod Reply
pub mod Whole
mod Tests
use uds_policy.Common.{
  ℕ, pos, ◌+◌, ◌%◌, ◌^◌, ◌<◌, ◌≡◌, refl, true, false, Option, none, some, Result, ok, err, is_ok,
  [], ◌∷◌, Text, codes, format, text_eq, contains_text, arith, if◌then◌else◌, ◌==◌,
}
use uds_policy.System.{FilePath, Handler, Io, ret, run, run-bind, ◌>>=◌}
use uds_policy.System.Sample.{sample}
use uds_policy.Call
use uds_policy.Caller
use uds_policy.Caller.{of_socket, Caller, peer, unreadable}
use uds_policy.Authorization.{PeerGate, authorize, for_uids, contains}
use uds_policy.Gatekeeper.{daemon, change}
use uds_policy.Gatekeeper.Serve.{own}

-- What `main` goes on with.
pub data Mode : Type 0 where
  self_testing : Mode
  serving_on : FilePath → Mode

-- `main`, by the first argument
pub mode : Option Text → Mode
unfolding text_eq
mode none = serving_on (codes "/tmp/uds-policy-gatekeeper.sock")
mode (some first) = if text_eq first (codes "--self-test") then self_testing else serving_on first

-- `u32::wrapping_add(1)`
abbrev next_uid : ℕ → ℕ
next_uid uid = (uid + 1) % 2 ^ 32

-- `self_test` from the client's reply on; `debug` is `{:?}` of a text, `trim` is `str::trim`, and the
-- text of an `ok` is the line for stdout.
module _ (debug trim : Text → Text) where
  stranger_judged : PeerGate → Text → ℕ → Result Text Text
  unfolding authorize for_uids
  stranger_judged gate reply uid =
      if is_ok (authorize gate change (peer (pos 1) (next_uid uid) 0))
      then err (codes "the gate admitted an unlisted uid")
      else ok (format (daemon ∷ codes ": self-test ok: " ∷ trim reply ∷ []))

  gate_judged : Text → PeerGate → Io (Result Text Text)
  unfolding stranger_judged
  gate_judged reply gate =
      if is_ok (authorize gate change (unreadable (codes "Socket operation on non-socket")))
      then ret (err (codes "the gate admitted a caller the kernel would not report"))
      else (do uid ← own; ret (stranger_judged gate reply uid))

  pub judged : Text → Io (Result Text Text)
  unfolding gate_judged contains_text
  judged reply =
      if contains_text reply (codes "said: hello")
      then (do uid ← own; gate_judged reply (for_uids (uid ∷ [])))
      else ret (err (format (codes "the daemon did not answer: " ∷ debug reply ∷ [])))

next_uid-moves : (uid : ℕ) → uid < 2 ^ 32 → (uid == next_uid uid) ≡ false
next_uid-moves uid u = ground arith

-- The gate refuses the caller that the kernel would not report and the uid after the process's own,
-- so the self-test fails on it only if the two readings of that uid differ.
module _ {S : Type 0} (h : Handler S) (debug trim : Text → Text) where
  pub judged-answered :
      (reply : Text) (s : S) (uid : ℕ)
      → uid < 2 ^ 32
      → (run h own s).result ≡ uid
      → (run h own (run h own s).state).result ≡ uid
      → contains_text reply (codes "said: hello") ≡ true
      → (run h (judged debug trim reply) s).result
        ≡ ok (format (daemon ∷ codes ": self-test ok: " ∷ trim reply ∷ []))
  unfolding judged gate_judged stranger_judged authorize for_uids contains
  judged-answered reply s uid u e e' c =
      rw (c, run-bind h own _ s, run-bind h own _ (run h own s).state, e', e, next_uid-moves uid u)
        refl

-- The reply that the daemon writes for the client's request passes; another one does not.
abbrev line : Text
line = format (Call.display change ∷ codes " said: " ∷ codes "hello" ∷ [])

abbrev shown : Text → Text
shown t = t

replies_judged :
    ((run sample (judged shown shown line) 0).result
      ≡ ok (format (daemon ∷ codes ": self-test ok: " ∷ line ∷ [])))
    × ((run sample (judged shown shown (codes "refused: no")) 0).result
        ≡ err (codes "the daemon did not answer: refused: no"))
unfolding judged own of_socket Caller.uid Call.display Call.gated contains Caller.of_credentials
replies_judged = (refl, refl)

modes :
    (mode none ≡ serving_on (codes "/tmp/uds-policy-gatekeeper.sock"))
    × (mode (some (codes "--self-test")) ≡ self_testing)
    × (mode (some (codes "/run/echod.sock")) ≡ serving_on (codes "/run/echod.sock"))
unfolding mode
modes = (refl, refl, refl)

-- ===== src/Gatekeeper/SelfTest/Wire/Interleaved.antt =====
-- What the client of `self_test` reads while the daemon of examples/gatekeeper.rs answers it, however
-- their commands interleave.
use uds_policy.Common.{ℕ, zero, suc, ◌≡◌, refl, inl, inr, Result, ok, err, List, ◌++◌, Text, codes}
use uds_policy.System.{Byte, Fd, IoError, ret}
use uds_policy.System.Threads.{Pool, Reach}
use uds_policy.System.Threads.Guarantee.{Secure, Secure->>=, Reach-IsSecure}
use uds_policy.Caller.{Caller}
use uds_policy.Authorization.{Authorizer, Denial}
use uds_policy.Gatekeeper.{answer, answered, change}
use uds_policy.Gatekeeper.SelfTest.Client.{spoken}
use uds_policy.Gatekeeper.SelfTest.Reply.{reply_line}
use uds_policy.Gatekeeper.SelfTest.Wire.Shared.{
  Wired, IsPrefix, wire_may, End, done, heard, talk, silent, Later, views,
}
use uds_policy.Gatekeeper.SelfTest.Wire.Asking.{HasRead, client_lem}
use uds_policy.Gatekeeper.SelfTest.Wire.Answering.{answered_lem}

module _ (lossy : List Byte → Text) (c d : Fd) (caller : Caller) (authorizer : Authorizer) where
  abbrev verdict : Result (Unit {0}) Denial
  verdict = authorizer.authorize change caller

  abbrev Reached : Result (Unit {0}) Denial → Type 0
  Reached v = v ≡ verdict

  -- Both threads, on a connection on which nothing was sent.
  abbrev pub connected : Pool Wired End
  connected = record { shared = silent; threads = talk lossy c d caller authorizer }

  abbrev EndsWell : ℕ → End → Wired → Type 0
  EndsWell i done t = Unit
  EndsWell i (heard r) t = HasRead lossy Reached c d r t

  EndsWell-Later :
      (i : ℕ) (e : End) (s t : Wired) → Later lossy Reached i s t → EndsWell i e s → EndsWell i e t
  EndsWell-Later i done s t l w = tt
  EndsWell-Later i (heard (ok reply)) s t l w = w
  EndsWell-Later i (heard (err error)) s t l w = tt

  heard-EndsWell :
      (r : Result Text IoError) (t : Wired) → HasRead lossy Reached c d r t → EndsWell 1 (heard r) t
  heard-EndsWell r t w = w

  talk-Secure :
      (i : ℕ)
      → Secure
          (wire_may c d)
          (views lossy Reached)
          i
          (EndsWell i)
          silent
          (talk lossy c d caller authorizer i)
  unfolding answer
  talk-Secure zero =
      Secure->>= (wire_may c d) (views lossy Reached) 0 (λ u t. Unit {0}) (EndsWell 0)
        (answered lossy d caller verdict) _ silent
        (answered_lem lossy Reached c d caller verdict silent refl refl) λ u t k. tt
  talk-Secure (suc zero) =
      Secure->>= (wire_may c d) (views lossy Reached) 1 (HasRead lossy Reached c d) (EndsWell 1)
        (spoken c) _ silent (client_lem lossy Reached c d silent refl) heard-EndsWell
  talk-Secure (suc (suc i)) = tt

  only :
      (reply : Text)
      → HasRead lossy Reached c d (ok reply) silent
      → IsPrefix reply (reply_line (lossy (codes "hello")) verdict ++ codes "\n")
  only reply (inl nothing) =
      (reply_line (lossy (codes "hello")) verdict ++ codes "\n", rw nothing refl)
  only reply (inr (v, same, p)) = rw same at p

  -- However the commands of the client and of the daemon that answers it interleave, what the client
  -- has read when it ends well is the beginning of one line: what the daemon says of the whole
  -- request if the gate lets it through, and otherwise the gate's reason.
  pub hello_interleaved :
      (q : Pool Wired End) (reply : Text)
      → Reach (wire_may c d) connected q
      → q.threads 1 ≡ ret (heard (ok reply))
      → IsPrefix reply
          (reply_line (lossy (codes "hello")) (authorizer.authorize change caller) ++ codes "\n")
  hello_interleaved q reply reach e =
      let good =
        Reach-IsSecure (wire_may c d) (views lossy Reached) EndsWell EndsWell-Later reach
          (record { shared = inl refl; threads = talk-Secure }) in
      let last : Secure (wire_may c d) (views lossy Reached) 1 (EndsWell 1) q.shared
          (ret (heard (ok reply))) =
        rw e at (good.threads 1) in
      only reply last

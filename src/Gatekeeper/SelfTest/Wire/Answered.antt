-- ===== src/Gatekeeper/SelfTest/Wire/Answered.antt =====
-- `self_test` of examples/gatekeeper.rs as a whole, on a kernel that connects its two threads: what
-- its client has read when the test passes.
use uds_policy.Common.{
  ℕ, zero, suc, ◌≡◌, ◌∙◌, ◌+◌, refl, true, inl, inr, Option, none, some, Result, ok, err, List, [],
  ◌∷◌, ◌++◌, Text, codes, contains_text,
}
use uds_policy.System.{FilePath, Byte, Fd, IoError, Io, ret, exec, try_then, from_secs}
use uds_policy.System.Only.{Only}
use uds_policy.System.Always.{Yields}
use uds_policy.System.Threads.{Pool, Reach}
use uds_policy.System.Threads.Guarantee.{Secure, Secure->>=, Secure-quiet, Reach-IsSecure}
use uds_policy.Caller.{Caller}
use uds_policy.Authorization.{authorize, for_uids}
use uds_policy.Gatekeeper.{change}
use uds_policy.Gatekeeper.Serve.{serve}
use uds_policy.Gatekeeper.SelfTest.{mode, self_testing}
use uds_policy.Gatekeeper.SelfTest.Client.{client, waited, requested, resumed, spoken}
use uds_policy.Gatekeeper.SelfTest.Halves.{Place, Half, served, read, idle, halves, prepared}
use uds_policy.Gatekeeper.SelfTest.Reply.{reply_line}
use uds_policy.Gatekeeper.SelfTest.Whole.{spawned, Returns}
use uds_policy.Gatekeeper.SelfTest.Whole.Verdict.{says_hello, passing}
use uds_policy.Gatekeeper.SelfTest.Whole.Sound.{main_succeeds}
use uds_policy.Gatekeeper.SelfTest.Wire.Shared.{
  Wired, IsPrefix, IsAnswer, Connects, wire_may, Later, views, silent, Holds-refl,
}
use uds_policy.Gatekeeper.SelfTest.Wire.Steps.{IsOffWire, off_same, client_step}
use uds_policy.Gatekeeper.SelfTest.Wire.Asking.{HasRead, client_lem}
use uds_policy.Gatekeeper.SelfTest.Wire.Served.{Reached, serve-Secure}
use uds_policy.Gatekeeper.SelfTest.Wire.Off.{waited-OffWire, prepared-OffWire}

-- A program off the connection leaves it as it is.
Yields-same :
    {A : Type 0} (c d : Fd) (m : Io A) (s t : Wired) (a : A)
    → Only IsOffWire m
    → Yields (wire_may c d) m s a t
    → t ≡ s
Yields-same c d (ret b) s t a o y = y.1
Yields-same c d (exec k f) s t a o (r, u, m, y) =
    Yields-same c d (f r) u t a (o.1 r) y ∙ off_same c d k s r u o.0 m

module _ (lossy : List Byte → Text) (c d : Fd) where
  abbrev Client : {A : Type 0} → (A → Wired → Type 0) → Wired → Io A → Type 0
  Client = Secure (wire_may c d) (views lossy Reached) 1

  abbrev MayHaveRead : Option (Result Text IoError) → Wired → Type 0
  MayHaveRead none t = Unit
  MayHaveRead (some r) t = HasRead lossy Reached c d r t

  connected-Secure :
      (r : Result Fd IoError) (t : Wired)
      → Connects c r
      → t.asked ≡ []
      → Client (HasRead lossy Reached c d) t (try_then spoken r)
  connected-Secure (err error) t e unasked = tt
  connected-Secure (ok stream) t e unasked = rw e (client_lem lossy Reached c d t unasked)

  requested-Secure :
      (path : FilePath) (s : Wired)
      → s.asked ≡ []
      → Client (HasRead lossy Reached c d) s (requested path)
  unfolding requested
  requested-Secure path s unasked = λ s1 r1 t1 l1 v1 m1. rw (m1.0) (
    client_step lossy Reached c d s1 s1 refl (Holds-refl lossy Reached s1) v1,
    connected-Secure r1 s1 m1.1 (l1.0 ∙ unasked),
  )

  tried-Secure :
      (path : FilePath) (r : Result (Unit {0}) IoError) (s : Wired)
      → s.asked ≡ []
      → Client (HasRead lossy Reached c d) s (try_then (λ u. requested path) r)
  tried-Secure path (ok u) s unasked = requested-Secure path s unasked
  tried-Secure path (err error) s unasked = tt

  resumed-Secure :
      (path : FilePath) (r : Option (Result (Unit {0}) IoError)) (s : Wired)
      → s.asked ≡ []
      → Client MayHaveRead s (resumed path r)
  unfolding resumed
  resumed-Secure path none s unasked = tt
  resumed-Secure path (some r) s unasked =
      Secure->>= (wire_may c d) (views lossy Reached) 1 (HasRead lossy Reached c d) MayHaveRead
        (try_then (λ u. requested path) r) _ s (tried-Secure path r s unasked) λ reply t h. h

  client-Secure :
      (rounds : ℕ) (path : FilePath) (s : Wired)
      → s.asked ≡ []
      → Client MayHaveRead s (client rounds path)
  unfolding client
  client-Secure rounds path s unasked = λ s1 start t1 l1 v1 m1. rw m1 (
    client_step lossy Reached c d s1 s1 refl (Holds-refl lossy Reached s1) v1,
    Secure->>= (wire_may c d) (views lossy Reached) 1 (λ r t. t.asked ≡ []) MayHaveRead
        (waited rounds path (start + from_secs 20)) _ s1
        (Secure-quiet (wire_may c d) (views lossy Reached) 1 (λ t. t.asked ≡ []) IsOffWire
          (λ s t l e. l.0 ∙ e) (off_same c d) _ s1 (waited-OffWire rounds path _) (l1.0 ∙ unasked))
        (resumed-Secure path),
  )

  abbrev EndsWell : ℕ → Half → Wired → Type 0
  EndsWell i (read r) t = MayHaveRead r t
  EndsWell i (served r) t = Unit
  EndsWell i idle t = Unit

  EndsWell-Later :
      (i : ℕ) (e : Half) (s t : Wired) → Later lossy Reached i s t → EndsWell i e s → EndsWell i e t
  EndsWell-Later i (read none) s t l w = tt
  EndsWell-Later i (read (some (ok reply))) s t l w = w
  EndsWell-Later i (read (some (err error))) s t l w = tt
  EndsWell-Later i (served r) s t l w = tt
  EndsWell-Later i idle s t l w = tt

  halves-Secure :
      (turns rounds : ℕ) (place : Place) (i : ℕ)
      → Secure
          (wire_may c d)
          (views lossy Reached)
          i
          (EndsWell i)
          silent
          (halves lossy turns rounds place i)
  unfolding halves
  halves-Secure turns rounds place zero =
      Secure->>= (wire_may c d) (views lossy Reached) 0 (λ r t. Unit {0}) (EndsWell 0)
        (serve lossy turns place.path_string (some 1)) _ silent
        (serve-Secure lossy c d turns place.path_string silent refl) λ r t k. tt
  halves-Secure turns rounds place (suc zero) =
      Secure->>= (wire_may c d) (views lossy Reached) 1 MayHaveRead (EndsWell 1)
        (client rounds place.socket_path) _ silent
        (client-Secure rounds place.socket_path silent refl) λ r t k. k
  halves-Secure turns rounds place (suc (suc i)) = tt

  heard_lem :
      (turns rounds : ℕ) (place : Place) (q : Pool Wired Half) (reply : Text)
      → Reach (wire_may c d) (spawned lossy turns rounds place silent) q
      → q.threads 1 ≡ ret (read (some (ok reply)))
      → HasRead lossy Reached c d (ok reply) silent
  heard_lem turns rounds place q reply reach e =
      let good =
        Reach-IsSecure (wire_may c d) (views lossy Reached) EndsWell EndsWell-Later reach
          (record { shared = inl refl; threads = halves-Secure turns rounds place }) in
      let last : Secure (wire_may c d) (views lossy Reached) 1 (EndsWell 1) q.shared
          (ret (read (some (ok reply)))) =
        rw e at (good.threads 1) in
      last

  -- A reply that says hello is not empty.
  answered_lem :
      (reply : Text)
      → HasRead lossy Reached c d (ok reply) silent
      → says_hello reply ≡ true
      → IsAnswer lossy Reached (codes "hello") reply
  unfolding contains_text
  answered_lem reply (inl nothing) hello = absurd (cc (rw nothing at hello))
  answered_lem reply (inr answer) hello = answer

  -- What `main` has printed when its self-test passes, and for whom the daemon's reply was.
  pub record Verified (trim : Text → Text) (text : Text) : Type 0 where
    pub reply : Text
    pub text_lem : text ≡ passing trim reply
    pub hello : says_hello reply ≡ true
    pub uid : ℕ
    pub caller : Caller
    pub reply_lem : IsPrefix reply (
        reply_line (lossy (codes "hello")) (authorize (for_uids (uid ∷ [])) change caller)
        ++ codes "\n")

  answered_by :
      (trim : Text → Text) (text reply : Text)
      → text ≡ passing trim reply
      → says_hello reply ≡ true
      → IsAnswer lossy Reached (codes "hello") reply
      → Verified trim text
  answered_by trim text reply e hello (v, (uid, caller, same), p) = record {
    reply = reply;
    text_lem = e;
    hello = hello;
    uid = uid;
    caller = caller;
    reply_lem = rw same at p;
  }

  -- On a kernel that connects the two threads, with one descriptor at each end, and on which a read
  -- to the end returns once the client has closed its half: however the commands of the threads
  -- interleave and whatever they are answered otherwise, `main` returns without an error only from
  -- the self-test, for a reply that says hello and is the beginning of the one line with which a
  -- gate for one uid answers the whole request of some caller, or refuses it.
  pub main_answered :
      (debug trim : Text → Text) (to_str : FilePath → Option Text) (turns rounds : ℕ)
      (first : Option Text) (t : Wired) (text : Text)
      → Returns lossy debug trim to_str turns rounds (wire_may c d) first silent (ok text) t
      → (mode first ≡ self_testing) × Verified trim text
  main_answered debug trim to_str turns rounds first t text returned =
      let (tested, p) =
        main_succeeds lossy debug trim to_str turns rounds (wire_may c d) first silent t text
          returned in
      let same =
        Yields-same c d (prepared to_str) silent p.begun _ (prepared-OffWire to_str) p.located in
      let reached : Reach (wire_may c d) (spawned lossy turns rounds p.place silent) p.pool =
        rw same at p.reached in
      (
        tested,
        answered_by trim text p.reply p.text_lem p.hello (
            answered_lem p.reply (heard_lem turns rounds p.place p.pool p.reply reached p.reply_lem)
              p.hello),
      )

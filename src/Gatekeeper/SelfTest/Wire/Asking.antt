-- ===== src/Gatekeeper/SelfTest/Wire/Asking.antt =====
-- The client of a self-test, on a connection that the daemon may write to between its commands.
use uds_policy.Common.{
  ◌≡◌, ◌∙◌, refl, true, inl, inr, ◌⊎◌, Result, ok, err, List, [], ◌++◌, Text, codes,
}
use uds_policy.System.{
  Byte, Fd, IoError, Io, ask, try_then, ◌>>=◌, write_all, shutdown_write, read_to_string,
}
use uds_policy.System.Threads.Guarantee.{Secure, Secure->>=, Guaranteed}
use uds_policy.Authorization.{Denial}
use uds_policy.Gatekeeper.SelfTest.Client.{greeted, spoken}
use uds_policy.Gatekeeper.SelfTest.Wire.Shared.{
  Wired, IsAnswer, Sent, Shut, Read, wire_may, WellTold, views, Holds-refl,
}
use uds_policy.Gatekeeper.SelfTest.Wire.Steps.{at_end, client_step}

module _ (lossy : List Byte → Text) (Possible : Result (Unit {0}) Denial → Type 0) (c d : Fd) where
  abbrev Client : {A : Type 0} → (A → Wired → Type 0) → Wired → Io A → Type 0
  Client = Secure (wire_may c d) (views lossy Possible) 1

  -- What the client knows behind its write, and behind its half-close.
  abbrev AfterSend : Result (Unit {0}) IoError → Wired → Type 0
  AfterSend (ok u) t = t.asked ≡ codes "hello"
  AfterSend (err error) t = Unit

  abbrev Greeted : Result (Unit {0}) IoError → Wired → Type 0
  Greeted (ok u) t = (t.asked ≡ codes "hello") × (t.shut ≡ true)
  Greeted (err error) t = Unit

  abbrev pub HasRead : Result Text IoError → Wired → Type 0
  HasRead (ok reply) t = (reply ≡ []) ⊎ IsAnswer lossy Possible (codes "hello") reply
  HasRead (err error) t = Unit

  shut_lem :
      (s t : Wired) (r : Result (Unit {0}) IoError)
      → Shut s r t
      → s.asked ≡ codes "hello"
      → WellTold lossy Possible s
      → Guaranteed (wire_may c d) (views lossy Possible) 1 s t × Greeted r t
  shut_lem s t (ok u) m e v = rw m (
    client_step lossy Possible c d s (record s { shut = true }) refl (inr (refl, refl)) v,
    (e, refl),
  )
  shut_lem s t (err error) m e v =
      rw m (client_step lossy Possible c d s s refl (Holds-refl lossy Possible s) v, tt)

  sent_lem :
      (s t : Wired) (r : Result (Unit {0}) IoError)
      → Sent (codes "hello") s r t
      → s.asked ≡ []
      → WellTold lossy Possible s
      → Guaranteed (wire_may c d) (views lossy Possible) 1 s t × AfterSend r t
  sent_lem s t (ok u) (unshut, m) e v = rw m (
    client_step lossy Possible c d s (record s { asked = s.asked ++ codes "hello" }) refl
        (inl unshut) v,
    rw e refl,
  )
  sent_lem s t (err error) (m, h) e v = (client_step lossy Possible c d s t m h v, tt)

  told_lem :
      (s : Wired)
      → s.asked ≡ codes "hello"
      → WellTold lossy Possible s
      → (s.told ≡ []) ⊎ IsAnswer lossy Possible (codes "hello") s.told
  told_lem s e (inl nothing) = inl nothing
  told_lem s e (inr (v, may, settled, p)) = inr (v, may, rw e at p)

  read_lem :
      (s : Wired) (r : Result Text IoError)
      → Read s r
      → s.asked ≡ codes "hello"
      → WellTold lossy Possible s
      → HasRead r s
  read_lem s (ok text) m e v = rw m (told_lem s e v)
  read_lem s (err error) m e v = tt

  reading :
      (r : Result (Unit {0}) IoError) (t : Wired)
      → Greeted r t
      → Client HasRead t (try_then (λ u. ask (read_to_string c)) r)
  reading (err error) t g = tt
  reading (ok u) t g = λ s r t' l v m.
      let (same, read) = at_end c m in
      rw same (
        client_step lossy Possible c d s s refl (Holds-refl lossy Possible s) v,
        read_lem s r read (l.0 ∙ g.0) v,
      )

  shutting :
      (r : Result (Unit {0}) IoError) (t : Wired)
      → AfterSend r t
      → Client Greeted t (try_then (λ u. ask (shutdown_write c)) r)
  shutting (err error) t g = tt
  shutting (ok u) t g = λ s r t' l v m. shut_lem s t' r (at_end c m) (l.0 ∙ g) v

  sending :
      (r : Result (Unit {0}) IoError) (t : Wired)
      → t.asked ≡ []
      → Client Greeted t (
          try_then
            (λ u. ask (write_all c (codes "hello")) >>= try_then (λ u. ask (shutdown_write c)))
            r)
  sending (err error) t g = tt
  sending (ok u) t g = λ s r t' l v m.
      let (kept, after) = sent_lem s t' r (at_end c m) (l.0 ∙ g) v in (kept, shutting r t' after)

  pub client_lem : (s : Wired) → s.asked ≡ [] → Client HasRead s (spoken c)
  unfolding spoken greeted
  client_lem s e =
      Secure->>= (wire_may c d) (views lossy Possible) 1 Greeted HasRead (greeted c) _ s
        (λ s' r t l v m. rw m (
          client_step lossy Possible c d s' s' refl (Holds-refl lossy Possible s') v,
          sending r s' (l.0 ∙ e),
        ))
        reading

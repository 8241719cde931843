-- ===== src/Gatekeeper/Serve/Looped.antt =====
-- The accept loop of `serve` of examples/gatekeeper.rs, apart from what follows it.
use mathlib.Core.Path.{fun_ext}
use uds_policy.Common.{
  ℕ, zero, suc, ◌≡◌, refl, ap, Bool-cases, inl, inr, Option, Result, ok, List, Text, if◌then◌else◌,
}
use uds_policy.System.{Byte, Io, ret, exec, ◌>>=◌}
use uds_policy.Authorization.{Authorizer}
use uds_policy.Socket.Config.{Socket, BindError}
use uds_policy.Gatekeeper.Serve.{Turned, turn, turns, looped, left, goes_on}

-- What follows the turns.
unfoldable pub closed : Socket → Option ℕ → Turned → Io (Result Turned BindError)
closed socket limit l = if goes_on limit l.served then ret (ok l) else left socket l

regrouped :
    {A B C : Type 0} (m : Io A) (f : A → Io B) (g : B → Io C) (k : A → Io C)
    → ((a : A) → k a ≡ f a >>= g)
    → m >>= k ≡ (m >>= f) >>= g
regrouped (ret a) f g k same = same a
regrouped (exec c m) f g k same = ap (exec c) (fun_ext (λ r. regrouped (m r) f g k same))

module _ (lossy : List Byte → Text) (authorizer : Authorizer) (socket : Socket)
    (limit : Option ℕ) where
  pub looped-turns :
      (n : ℕ) (l : Turned)
      → looped lossy authorizer n socket limit l
        ≡ turns lossy authorizer n socket limit l >>= closed socket limit
  unfolding looped turns closed
  looped-turns zero l = refl
  looped-turns (suc n) l = elim (Bool-cases (goes_on limit l.served)) [
    | inl on ↦ rw on (regrouped (turn lossy authorizer socket l) _ _ _ (looped-turns n))
    | inr over ↦ rw over (rw over refl)
  ]

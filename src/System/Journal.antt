-- ===== src/System/Journal.antt =====
-- What a run wrote on stderr: the texts of its `eprintln!`s, in order.
use uds_policy.Common.{◌≡◌, refl, ap, List, [], ◌∷◌, ◌++◌, Text, arith}
use uds_policy.System.{Event, Handler, Io, run, run-bind, Outcome, ◌>>=◌, eprintln}

abbrev pub printed : List Event → List Text
printed [] = []
printed (e ∷ t) = elim e.command [ eprintln l ↦ l ∷ printed t | _ ↦ printed t ]

pub printed-append : (t u : List Event) → printed (t ++ u) ≡ printed t ++ printed u
printed-append [] u = refl
printed-append (e ∷ t) u = ground (arith, printed-append t u)

module _ {S : Type 0} (h : Handler S) {A B : Type 0} where
  pub printed-bind :
      (m : Io A) (f : A → Io B) (s : S)
      → printed (run h (m >>= f) s).trace
        ≡ printed (run h m s).trace
          ++ printed (run h (f (run h m s).result) (run h m s).state).trace
  printed-bind m f s =
      let e = ap (λ (o : Outcome B S). printed o.trace) (run-bind h m f s) in
      rw e (printed-append (run h m s).trace _)

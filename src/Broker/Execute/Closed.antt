-- ===== src/Broker/Execute/Closed.antt =====
-- The rules for properties of the ledger that a call keeps.

use hermes_keel.Base.Result.{Result, ok, err}
use hermes_keel.Broker.Ledger.Chain.{Ledger}
use hermes_keel.Broker.Execute.World.{
  Host, World, Exec, Step, pure, lift, call, try_call, tracked, continue, ◌>>=◌,
}

module _ {h : Host} {A : Type 0} where
  pub record Stable (P : Ledger → Type 0) (m : Exec h A) : Type 0 where
    pub at : (w : World h) → P w.ledger → P (m w).1.ledger

module _ {h : Host} {A : Type 0} {P : Ledger → Type 0} where
  pub Stable-pure : (a : A) → Stable P (pure {h = h} a)
  unfolding pure
  Stable-pure a = record { at = λ w p. p }

  pub Stable-lift : (r : Result A) → Stable P (lift {h = h} r)
  unfolding lift
  Stable-lift r = record { at = λ w p. p }

  pub Stable-call : (f : h.State → A × h.State) → Stable P (call {h = h} f)
  unfolding call
  Stable-call f = record { at = λ w p. p }

  pub Stable-try_call : (f : h.State → Result A × h.State) → Stable P (try_call {h = h} f)
  unfolding try_call
  Stable-try_call f = record { at = λ w p. p }

  pub Stable-read : (f : World h → Result A) → Stable P (λ (w : World h). (f w, w))
  Stable-read f = record { at = λ w p. p }

  pub Stable-tracked : (s : Step) (m : Exec h A) → Stable P m → Stable P (tracked s m)
  unfolding tracked
  Stable-tracked s m k = record { at = λ w p. k.at w p }

module _ {h : Host} {A B : Type 0} {P : Ledger → Type 0} where
  Stable-continue :
      (r : Result A) (f : A → Exec h B) (w : World h)
      → ((a : A) → Stable P (f a))
      → P w.ledger
      → P (continue r f w).1.ledger
  Stable-continue (ok a) f w k p = (k a).at w p
  Stable-continue (err e) f w k p = p

  pub Stable-bind :
      (m : Exec h A) (f : A → Exec h B)
      → Stable P m
      → ((a : A) → Stable P (f a))
      → Stable P (m >>= f)
  unfolding ◌>>=◌
  Stable-bind m f km kf = record {
    at = λ w p. let (r, w') = m w in Stable-continue r f w' kf (km.at w p);
  }

pub ruleset stable_rules =
    (Stable-pure, Stable-lift, Stable-call, Stable-try_call, Stable-tracked, Stable-bind)

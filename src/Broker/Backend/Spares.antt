-- ===== src/Broker/Backend/Spares.antt =====
-- The calls of the backend that leave the drop-in alone.
use hermes_keel.Base.{ℕ, String, ◌≡◌, refl, ◌∙◌, Bool, true, false, List, if◌then◌else◌}
use hermes_keel.Base.Result.{Result, ok, err}
use hermes_keel.Json.Codec.{Codec}
use hermes_keel.Broker.Backend.Machine.{Machine, World, Act, pure, lift, call, continue, ◌>>=◌}
use hermes_keel.Broker.Backend.Operations.{capture, run, rerun}

-- A call that leaves the drop-in alone.
pub record Spares {m : Machine} {A : Type 0} (f : Act m A) : Type 0 where
  pub at : (w : World m) → (f w).1.dropin ≡ w.dropin

module _ {m : Machine} where
  pub Spares-call : {A : Type 0} (f : m.State → Result A × m.State) → Spares (call {m = m} f)
  unfolding call
  Spares-call f = record { at = λ w. refl }

  pub Spares-lift : {A : Type 0} (r : Result A) → Spares (lift {m = m} r)
  unfolding lift
  Spares-lift r = record { at = λ w. refl }

  pub Spares-pure : {A : Type 0} (a : A) → Spares (pure {m = m} a)
  unfolding pure
  Spares-pure a = record { at = λ w. refl }

  pub Spares-if :
      {A : Type 0} {f g : Act m A} (b : Bool) → Spares f → Spares g → Spares (if b then f else g)
  Spares-if true sf sg = sf
  Spares-if false sf sg = sg

  pub Spares-continue :
      {A B : Type 0} (r : Result A) (k : A → Act m B) (w : World m)
      → ((a : A) → Spares (k a))
      → (continue r k w).1.dropin ≡ w.dropin
  Spares-continue (ok a) k w s = (s a).at w
  Spares-continue (err e) k w s = refl

  pub Spares-bind :
      {A B : Type 0} (f : Act m A) (k : A → Act m B)
      → Spares f
      → ((a : A) → Spares (k a))
      → Spares (f >>= k)
  unfolding ◌>>=◌
  Spares-bind f k sf sk = record { at = λ w. Spares-continue (f w).0 k (f w).1 sk ∙ sf.at w }

module _ (c : Codec) (decode : List ℕ → String) {m : Machine} where
  pub capture-Spares : Spares (capture c decode {m = m})
  unfolding capture
  capture-Spares = record { at = λ w. refl }

  pub rerun-Spares :
      (argv : List String) (label : String) → Spares (rerun c decode {m = m} argv label)
  unfolding rerun run
  rerun-Spares argv label =
      Spares-bind _ _ (record { at = λ w. refl })
        (λ cp. Spares-if _ (Spares-pure _) (Spares-lift _))

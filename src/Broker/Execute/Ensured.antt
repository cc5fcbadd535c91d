-- ===== src/Broker/Execute/Ensured.antt =====
-- What holds of the ledger after a call that returned.

use hermes_keel.Base.{ℕ, String, ◌≡◌, refl, ap, ◌∙◌, true, List, [], ◌∷◌, arith, eq_iff}
use hermes_keel.Base.Int.{ℤ}
use hermes_keel.Base.Result.{Result, ok, err}
use hermes_keel.Json.{Value, text, dict, Fields, fields, put, merge}
use hermes_keel.Json.Equality.{eq}
use hermes_keel.Json.Codec.{Codec, IsLawful}
use hermes_keel.Broker.Ledger.Chain.{Ledger, digest}
use hermes_keel.Broker.Ledger.Append.{append_chain}
use hermes_keel.Broker.Execute.World.{Host, World, Exec, pure, tracked, continue, ◌>>=◌}
use hermes_keel.Broker.Execute.Approval.{spends}
use hermes_keel.Broker.Execute.Steps.{Job, event, append_body, append_phase}
use hermes_keel.Broker.Execute.Run.{consume}
use hermes_keel.Broker.Execute.Order.{continued_ok}
use hermes_keel.Broker.Execute.Yields.{Yields, make_phase-HasPhase}
use hermes_keel.Broker.Execute.Spent.{IsSpent, append_chain-spends}

-- What holds of the ledger whenever the call returns.
pub record Ensures {h : Host} {A : Type 0} (P : Ledger → Type 0) (m : Exec h A) : Type 0 where
  pub at : (w : World h) (a : A) → (m w).0 ≡ ok a → P (m w).1.ledger

module _ {h : Host} {A B : Type 0} {P : Ledger → Type 0} where
  Ensures-continue :
      (Q : A → Type 0) (r : Result A) (f : A → Exec h B) (w : World h) (b : B)
      → ((a : A) → r ≡ ok a → Ensures P (f a))
      → (continue r f w).0 ≡ ok b
      → P (continue r f w).1.ledger
  Ensures-continue Q (ok a) f w b k e = (k a refl).at w b e
  Ensures-continue Q (err x) f w b k e = cc

  -- the last part ensures it, with what the first part yields
  Ensures-last :
      (Q : A → Type 0) (m : Exec h A) (f : A → Exec h B)
      → Yields Q m
      → ((a : A) → Q a → Ensures P (f a))
      → Ensures P (m >>= f)
  unfolding ◌>>=◌
  Ensures-last Q m f km kf = record {
    at = λ w b e. Ensures-continue Q (m w).0 f (m w).1 b (λ a r. kf a (km.at w a r)) e;
  }

module _ {h : Host} {A : Type 0} {P : Ledger → Type 0} where
  -- what follows does not append
  Ensures-pure : {B : Type 0} (m : Exec h A) (b : B) → Ensures P m → Ensures P (m >>= (λ _. pure b))
  unfolding ◌>>=◌ pure
  Ensures-pure m b k = record {
    at = λ w a e.
        let (r, returned) = continued_ok (m w).0 (λ _. pure b) (m w).1 a e in
        unmoved (m w).0 (m w).1 (k.at w r returned);
  }
    where
      unmoved : (r : Result A) (w : World h) → P w.ledger → P (continue r (λ _. pure b) w).1.ledger
      unmoved (ok a) w p = p
      unmoved (err e) w p = p

Yields-any : {h : Host} {A : Type 0} (m : Exec h A) → Yields (λ _. Unit) m
Yields-any m = record { at = λ w a e. tt }

module _ (c : Codec) (law : IsLawful c) (key : List ℕ) (j : Job) where
  consumed_spends :
      (at : ℤ) (hash : String)
      → spends (digest c j.request) (
          dict (
            merge
              (put "phase" (text "consumed") (event c [] j "operation-phase" at))
              (fields (("approval_sha256", text hash) ∷ []))))
        ≡ ok true
  unfolding spends event eq
  consumed_spends at hash = ground (arith, eq_iff (digest c j.request) (digest c j.request))

  append_body-spends :
      {h : Host} (body : Fields)
      → spends (digest c j.request) (dict body) ≡ ok true
      → Ensures (IsSpent c (digest c j.request)) (append_body c key j {h = h} body)
  unfolding append_body
  append_body-spends {h} body hit = record {
    at = λ w rec e.
        append_chain-spends c law (digest c j.request) h.euid (h.outcome w.state).0 w.ledger _ key
          body rec
          (ap (λ r. (r, (append_chain c h.euid (h.outcome w.state).0 w.ledger key body).1)) e) hit;
  }

  consumed_phase :
      {h : Host} (hash : String)
      → Ensures
          (IsSpent c (digest c j.request))
          (append_phase c key j {h = h} "consumed" (fields (("approval_sha256", text hash) ∷ [])))
  unfolding append_phase tracked
  consumed_phase {h} hash = record {
    at = λ w a e.
        (Ensures-last _ _ _
            (make_phase-HasPhase c key j {h = h} "consumed"
              (fields (("approval_sha256", text hash) ∷ [])) refl)
            (λ body (at, made).
              append_body-spends body
                (ap (λ b. spends (digest c j.request) (dict b)) made ∙ consumed_spends at hash))).at
          w a e;
  }

  pub consume-Ensures :
      {h : Host} (deadline : ℕ) (identity : Fields) (approval : Value)
      → Ensures
          (IsSpent c (digest c j.request))
          (consume c key j {h = h} deadline identity approval)
  unfolding consume
  consume-Ensures deadline identity approval = Ensures-last _ _ _ (Yields-any _) (λ pre _.
      Ensures-last _ _ _ (Yields-any _) (λ _ _.
        Ensures-last _ _ _ (Yields-any _)
          (λ _ _. Ensures-pure _ _ (consumed_phase (digest c approval)))))

-- ===== src/Broker/Execute/Yields.antt =====
-- What a call returns, if it returns.
use hermes_keel.Base.{ℕ, String, true, List, [], ◌∷◌, ◌≡◌, refl, sym, contains_text}
use mathlib.Core.Path.{subst}
use hermes_keel.Base.Int.{ℤ}
use hermes_keel.Base.Result.{ok_injective, Result, ok, err}
use hermes_keel.Json.{text, bool, dict, Fields, fields, end, put, merge}
use hermes_keel.Json.Codec.{Codec}
use hermes_keel.Broker.Config.{phases}
use hermes_keel.Broker.Execute.World.{Host, World, Exec, pure, lift, continue, ◌>>=◌}
use hermes_keel.Broker.Execute.Steps.{Job, event, phase, make_phase}
use hermes_keel.Broker.Execute.Run.{phase_name, check_health, mutate_and_check}

pub record Yields {h : Host} {A : Type 0} (Q : A → Type 0) (m : Exec h A) : Type 0 where
  pub at : (w : World h) (a : A) → (m w).0 ≡ ok a → Q a

module _ {h : Host} {A B : Type 0} where
  Yields-continue :
      (Q : B → Type 0) (r : Result A) (f : A → Exec h B) (w : World h) (b : B)
      → ((a : A) → r ≡ ok a → Yields Q (f a))
      → (continue r f w).0 ≡ ok b
      → Q b
  Yields-continue Q (ok a) f w b k e = (k a refl).at w b e
  Yields-continue Q (err x) f w b k e = cc

  -- the rest of the call may use what the first part yields
  pub Yields-bind :
      (Q : B → Type 0) (P : A → Type 0) (m : Exec h A) (f : A → Exec h B)
      → Yields P m
      → ((a : A) → P a → Yields Q (f a))
      → Yields Q (m >>= f)
  unfolding ◌>>=◌
  Yields-bind Q P m f km kf = record {
    at = λ w b e. Yields-continue Q (m w).0 f (m w).1 b (λ a p. kf a (km.at w a p)) e;
  }

  -- what the first part returns does not matter
  pub Yields-last :
      (Q : B → Type 0) (m : Exec h A) (f : A → Exec h B)
      → ((a : A) → Yields Q (f a))
      → Yields Q (m >>= f)
  Yields-last Q m f kf = Yields-bind Q (λ _. Unit) m f (record { at = λ w a e. tt }) (λ a _. kf a)

pub Yields-pure : {h : Host} {A : Type 0} (Q : A → Type 0) (a : A) → Q a → Yields Q (pure {h = h} a)
unfolding pure
Yields-pure Q a q = record { at = λ w b e. subst Q (ok_injective a b e) q }

-- The members of a phase are those of the event, with the phase and the evidence.
abbrev pub HasPhase : Codec → Job → String → Fields → Fields → Type 0
HasPhase c j name evidence r =
    (at : ℤ) × (r ≡ merge (put "phase" (text name) (event c [] j "operation-phase" at)) evidence)

phase_name_committed :
    (c : Codec) (j : Job) (r health : Fields)
    → HasPhase c j "committed" end r
    → phase_name (merge r (fields (("ok", bool true) ∷ ("health", dict health) ∷ []))) ≡ "committed"
unfolding phase_name event
phase_name_committed c j r health (at, e) = rw e refl

module _ (c : Codec) (key : List ℕ) (j : Job) {h : Host} where
  Yields-phase :
      (name : String) (at : ℤ) (evidence : Fields)
      → contains_text name phases ≡ true
      → Yields (HasPhase c j name evidence) (lift {h = h} (phase c key j name at evidence))
  unfolding lift phase
  Yields-phase name at evidence known = record {
    at = λ w r e. (at, ok_injective _ _ (sym (rw (known) at e)));
  }

  pub make_phase-HasPhase :
      (name : String) (evidence : Fields)
      → contains_text name phases ≡ true
      → Yields (HasPhase c j name evidence) (make_phase c key j {h = h} name evidence)
  unfolding make_phase
  make_phase-HasPhase name evidence known =
      Yields-last _ _ _ (λ at. Yields-phase name at evidence known)

  check_health-committed :
      (deadline : ℕ)
      → Yields (λ r. phase_name r ≡ "committed") (check_health c key j {h = h} deadline)
  unfolding check_health
  check_health-committed deadline = Yields-last _ _ _ (λ _. Yields-last _ _ _ (λ health.
      Yields-last _ _ _ (λ _. Yields-last _ _ _ (λ _. Yields-last _ _ _ (λ _.
        Yields-bind _ _ _ _ (make_phase-HasPhase "committed" end refl)
          (λ r has. Yields-pure _ _ (phase_name_committed c j r health has)))))))

  pub mutate_and_check-committed :
      (deadline : ℕ)
      → Yields (λ r. phase_name r ≡ "committed") (mutate_and_check c key j {h = h} deadline)
  unfolding mutate_and_check
  mutate_and_check-committed deadline = Yields-last _ _ _ (λ _. check_health-committed deadline)

pub Yields-weaken :
    {h : Host} {A : Type 0} (P Q : A → Type 0) (m : Exec h A)
    → Yields P m
    → ((a : A) → P a → Q a)
    → Yields Q m
Yields-weaken P Q m k f = record { at = λ w a e. f a (k.at w a e) }

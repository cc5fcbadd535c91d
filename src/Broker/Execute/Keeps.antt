-- ===== src/Broker/Execute/Keeps.antt =====
-- Properties of the trace that a call keeps, one rule for each way to build a call.
use hermes_keel.Base.{ℕ, String, List, ◌∷◌}
use hermes_keel.Base.Result.{Result, ok, err}
use hermes_keel.Json.{Fields}
use hermes_keel.Json.Codec.{Codec}
use hermes_keel.Broker.Execute.World.{
  Host, World, Exec, Step, Event, done, failed, append, validated, fenced, mark, pure, lift, call,
  try_call, tracked, continue, ◌>>=◌,
}
use hermes_keel.Broker.Execute.Steps.{
  Job, append_body, make_phase, append_phase, append_result, check_fence, validate_fence,
  take_fence, open_board,
}

mark-either :
    {A : Type 0} (P : List Event → Type 0) (s : Step) (r : Result A) (t : List Event)
    → P (done s ∷ t)
    → P (failed s ∷ t)
    → P (mark s r ∷ t)
mark-either P s (ok a) t p q = p
mark-either P s (err e) t p q = q

module _ {h : Host} {A : Type 0} where
  pub record Keeps (P : List Event → Type 0) (m : Exec h A) : Type 0 where
    pub at : (w : World h) → P w.trace → P (m w).1.trace

-- The events of a step may be put in front of any trace.
abbrev pub Allows : (List Event → Type 0) → Step → Type 0
Allows P s = (t : List Event) → P t → P (done s ∷ t) × P (failed s ∷ t)

module _ {h : Host} {A : Type 0} {P : List Event → Type 0} where
  pub Keeps-pure : (a : A) → Keeps P (pure {h = h} a)
  unfolding pure
  Keeps-pure a = record { at = λ w p. p }

  pub Keeps-lift : (r : Result A) → Keeps P (lift {h = h} r)
  unfolding lift
  Keeps-lift r = record { at = λ w p. p }

  pub Keeps-call : (f : h.State → A × h.State) → Keeps P (call {h = h} f)
  unfolding call
  Keeps-call f = record { at = λ w p. p }

  pub Keeps-try_call : (f : h.State → Result A × h.State) → Keeps P (try_call {h = h} f)
  unfolding try_call
  Keeps-try_call f = record { at = λ w p. p }

  pub Keeps-tracked : (s : Step) (m : Exec h A) → Allows P s → Keeps P m → Keeps P (tracked s m)
  unfolding tracked
  Keeps-tracked s m keep k = record {
    at = λ w p.
        let (r, w') = m w in
        let both = keep w'.trace (k.at w p) in mark-either P s r w'.trace both.0 both.1;
  }

module _ {h : Host} {A B : Type 0} {P : List Event → Type 0} where
  pub Keeps-continue :
      (r : Result A) (f : A → Exec h B) (w : World h)
      → ((a : A) → Keeps P (f a))
      → P w.trace
      → P (continue r f w).1.trace
  Keeps-continue (ok a) f w k p = (k a).at w p
  Keeps-continue (err e) f w k p = p

  pub Keeps-bind :
      (m : Exec h A) (f : A → Exec h B) → Keeps P m → ((a : A) → Keeps P (f a)) → Keeps P (m >>= f)
  unfolding ◌>>=◌
  Keeps-bind m f km kf = record {
    at = λ w p. let (r, w') = m w in Keeps-continue r f w' kf (km.at w p);
  }

pub ruleset keeps_rules =
    (Keeps-pure, Keeps-lift, Keeps-call, Keeps-try_call, Keeps-tracked, Keeps-bind)

module _ (c : Codec) (key : List ℕ) (j : Job) {h : Host} {P : List Event → Type 0} where
  append_body-Keeps : (body : Fields) → Keeps P (append_body c key j {h = h} body)
  unfolding append_body
  append_body-Keeps body = record { at = λ w p. p }

  pub make_phase-Keeps :
      (name : String) (evidence : Fields) → Keeps P (make_phase c key j {h = h} name evidence)
  unfolding make_phase
  make_phase-Keeps name evidence = search keeps_rules

  pub append_result-Keeps :
      (name : String) (body : Fields)
      → Allows P (append name)
      → Keeps P (append_result c key j {h = h} name body)
  unfolding append_result
  append_result-Keeps name body allow = search (keeps_rules, append_body-Keeps)

  pub append_phase-Keeps :
      (name : String) (evidence : Fields)
      → Allows P (append name)
      → Keeps P (append_phase c key j {h = h} name evidence)
  unfolding append_phase
  append_phase-Keeps name evidence allow = search (keeps_rules, append_body-Keeps, make_phase-Keeps)

  check_fence-Keeps : (deadline : ℕ) → Keeps P (check_fence c key j {h = h} deadline)
  unfolding check_fence
  check_fence-Keeps deadline = search keeps_rules depth 8

  pub validate_fence-Keeps :
      (deadline : ℕ) → Allows P validated → Keeps P (validate_fence c key j {h = h} deadline)
  unfolding validate_fence
  validate_fence-Keeps deadline allow = search (keeps_rules, check_fence-Keeps)

  open_board-Keeps : Keeps P (open_board c key j {h = h})
  unfolding open_board
  open_board-Keeps = search keeps_rules

  pub take_fence-Keeps : Allows P fenced → Keeps P (take_fence c key j {h = h})
  unfolding take_fence
  take_fence-Keeps allow = search (keeps_rules, open_board-Keeps) depth 7

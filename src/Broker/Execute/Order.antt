-- ===== src/Broker/Execute/Order.antt =====
-- The order of a run: what stands before a mutation.
use hermes_keel.Base.{ℕ, String, List, [], ◌∷◌, ◌≡◌, refl, ap, sym, ◌∙◌}
use hermes_keel.Base.Int.{ℤ}
use hermes_keel.Base.Result.{Result, ok, err}
use hermes_keel.Json.{Value, Fields}
use hermes_keel.Json.Codec.{Codec}
use hermes_keel.Broker.Execute.World.{
  Host, World, Exec, Step, Event, done, append, fenced, validated, mark, pure, lift, call, try_call,
  tracked, continue, ◌>>=◌,
}
use hermes_keel.Broker.Execute.Steps.{
  Job, append_body, make_phase, append_phase, check_fence, validate_fence, take_fence, open_board,
}
use hermes_keel.Broker.Execute.Run.{admit, consume, start}

-- Events of the first list on top of those of the second.
abbrev pub over : List Event → List Event → List Event
over [] t = t
over (e ∷ es) t = e ∷ over es t

over_assoc : (es fs t : List Event) → over (over es fs) t ≡ over es (over fs t)
over_assoc [] fs t = refl
over_assoc (e ∷ es) fs t = ap (λ r. e ∷ r) (over_assoc es fs t)

-- If the call returns, it has put exactly these events on the trace.
pub record Emits {h : Host} {A : Type 0} (m : Exec h A) (es : List Event) : Type 0 where
  pub at : (w : World h) (a : A) → (m w).0 ≡ ok a → (m w).1.trace ≡ over es w.trace

pub mark_ok : {A : Type 0} (s : Step) (r : Result A) (a : A) → r ≡ ok a → mark s r ≡ done s
mark_ok s (ok b) a e = refl
mark_ok s (err x) a e = cc

over-nil : (es : List Event) → over es [] ≡ es
over-nil [] = refl
over-nil (e ∷ es) = ap (λ r. e ∷ r) (over-nil es)

module _ {h : Host} {A : Type 0} where
  Emits-pure : (a : A) → Emits (pure {h = h} a) []
  unfolding pure
  Emits-pure a = record { at = λ w b e. refl }

  Emits-lift : (r : Result A) → Emits (lift {h = h} r) []
  unfolding lift
  Emits-lift r = record { at = λ w b e. refl }

  Emits-call : (f : h.State → A × h.State) → Emits (call {h = h} f) []
  unfolding call
  Emits-call f = record { at = λ w b e. refl }

  Emits-try_call : (f : h.State → Result A × h.State) → Emits (try_call {h = h} f) []
  unfolding try_call
  Emits-try_call f = record { at = λ w b e. refl }

  Emits-tracked : (s : Step) (m : Exec h A) → Emits m [] → Emits (tracked s m) (done s ∷ [])
  unfolding tracked
  Emits-tracked s m k = record { at = λ w a e. cc (mark_ok s (m w).0 a e, k.at w a e) }

module _ {h : Host} {A B : Type 0} where
  Emits-continue :
      (r : Result A) (f : A → Exec h B) (w : World h) (fs : List Event) (b : B)
      → ((a : A) → Emits (f a) fs)
      → (continue r f w).0 ≡ ok b
      → (continue r f w).1.trace ≡ over fs w.trace
  Emits-continue (ok a) f w fs b k e = (k a).at w b e
  Emits-continue (err x) f w fs b k e = cc

  pub continued_ok :
      (r : Result A) (f : A → Exec h B) (w : World h) (b : B)
      → (continue r f w).0 ≡ ok b
      → (a : A) × (r ≡ ok a)
  continued_ok (ok a) f w b e = (a, refl)
  continued_ok (err x) f w b e = cc

  Emits-bind :
      (m : Exec h A) (f : A → Exec h B) (es fs : List Event)
      → Emits m es
      → ((a : A) → Emits (f a) fs)
      → Emits (m >>= f) (over fs es)
  unfolding ◌>>=◌
  Emits-bind m f es fs km kf = record {
    at = λ w b e.
        let (a, returned) = continued_ok (m w).0 f (m w).1 b e in
        Emits-continue (m w).0 f (m w).1 fs b kf e
        ∙ ap (over fs) (km.at w a returned)
        ∙ sym (over_assoc fs es w.trace);
  }

  -- a call that emits nothing, and one that does
  Emits-after :
      (m : Exec h A) (f : A → Exec h B) (fs : List Event)
      → Emits m []
      → ((a : A) → Emits (f a) fs)
      → Emits (m >>= f) fs
  Emits-after m f fs km kf = rw (over-nil fs) at (Emits-bind m f [] fs km kf)

ruleset silent_rules = (Emits-pure, Emits-lift, Emits-call, Emits-try_call, Emits-after)

module _ (c : Codec) (key : List ℕ) (j : Job) {h : Host} where
  append_body-Emits : (body : Fields) → Emits (append_body c key j {h = h} body) []
  unfolding append_body
  append_body-Emits body = record { at = λ w a e. refl }

  make_phase-Emits :
      (name : String) (evidence : Fields) → Emits (make_phase c key j {h = h} name evidence) []
  unfolding make_phase
  make_phase-Emits name evidence = search silent_rules

  append_phase-Emits :
      (name : String) (evidence : Fields)
      → Emits (append_phase c key j {h = h} name evidence) (done (append name) ∷ [])
  unfolding append_phase
  append_phase-Emits name evidence =
      Emits-tracked (append name) _ (search (silent_rules, make_phase-Emits, append_body-Emits))

  check_fence-Emits : (deadline : ℕ) → Emits (check_fence c key j {h = h} deadline) []
  unfolding check_fence
  check_fence-Emits deadline = search silent_rules depth 8

  validate_fence-Emits :
      (deadline : ℕ) → Emits (validate_fence c key j {h = h} deadline) (done validated ∷ [])
  unfolding validate_fence
  validate_fence-Emits deadline = Emits-tracked validated _ (check_fence-Emits deadline)

  open_board-Emits : Emits (open_board c key j {h = h}) []
  unfolding open_board
  open_board-Emits = search silent_rules

  pub take_fence-Emits : Emits (take_fence c key j {h = h}) (done fenced ∷ [])
  unfolding take_fence
  take_fence-Emits =
      Emits-bind _ _ (done fenced ∷ []) [] (Emits-tracked fenced _ open_board-Emits)
        (λ _. search silent_rules)

  pub start-Emits :
      (deadline : ℕ)
      → Emits
          (start c key j {h = h} deadline)
          (done validated ∷ done (append "mutation_started") ∷ done validated ∷ [])
  unfolding start
  start-Emits deadline =
      Emits-bind _ _ (done validated ∷ []) (done validated ∷ done (append "mutation_started") ∷ [])
        (validate_fence-Emits deadline)
        (λ _.
          Emits-bind _ _ (done (append "mutation_started") ∷ []) (done validated ∷ [])
            (append_phase-Emits _ _) (λ _. validate_fence-Emits deadline))

  pub consume-Emits :
      (deadline : ℕ) (identity : Fields) (approval : Value)
      → Emits
          (consume c key j {h = h} deadline identity approval)
          (done (append "consumed") ∷ done validated ∷ done (append "prepared") ∷ [])
  unfolding consume
  consume-Emits deadline identity approval = Emits-after _ _ _ (Emits-lift _) (λ pre.
      Emits-bind _ _ (done (append "prepared") ∷ [])
        (done (append "consumed") ∷ done validated ∷ []) (append_phase-Emits _ _)
        (λ _.
          Emits-bind _ _ (done validated ∷ []) (done (append "consumed") ∷ [])
            (validate_fence-Emits deadline)
            (λ _.
              Emits-bind _ _ (done (append "consumed") ∷ []) [] (append_phase-Emits _ _)
                (λ _. Emits-pure _))))

  pub admit-Emits : (now : ℤ) → Emits (admit c key j {h = h} now) []
  unfolding admit
  admit-Emits now = search silent_rules depth 20

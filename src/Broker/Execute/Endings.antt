-- ===== src/Broker/Execute/Endings.antt =====
-- What settles a mutation, and how the guarded part of a run ends.
use hermes_keel.Base.{ℕ, Bool, true, false, ◌||◌, List, ◌∷◌, ◌≡◌, refl, ◌⊎◌, inl, inr, arith}
use hermes_keel.Base.{any, str_eq}
use hermes_keel.Base.Result.{Error, Result, ok, err}
use hermes_keel.Json.{Fields}
use hermes_keel.Json.Codec.{Codec}
use hermes_keel.Broker.Execute.World.{
  Host, World, Step, Event, done, failed, append, prechecked, mutated, rolled_back, mark, try_call,
  tracked, continue, ◌>>=◌,
}
use hermes_keel.Broker.Execute.Steps.{Job, append_phase}
use hermes_keel.Broker.Execute.Run.{
  Ending, final, to_append, start, mutate_and_check, recover, undo, call_rollback, settled, pending,
  after_mutation, after_start, guarded, after_consume, release, phase_name,
}
use hermes_keel.Broker.Execute.Keeps.{Allows}
use hermes_keel.Broker.Execute.Guard.{is_mutation}
use hermes_keel.Broker.Execute.Yields.{mutate_and_check-committed}
use hermes_keel.Broker.Execute.Quiet.{
  IsQuiet, recover-Keeps, start-Keeps, rollback_result-Keeps, settled-Keeps, pending-Keeps,
}

-- What settles a mutation: the attempt to record it as committed, the attempt to roll it back, or
-- the failure to record that the rollback starts.
abbrev pub settles : Event → Bool
settles (done (append name)) = str_eq name "committed"
settles (failed (append name)) = str_eq name "committed" || str_eq name "rollback_started"
settles (done rolled_back) = true
settles (failed rolled_back) = true
settles _ = false

abbrev pub Calm : List Event → Type 0
Calm t = any is_mutation t ≡ false

abbrev pub Settled : List Event → Type 0
Settled t = any settles t ≡ true

pub allow-Calm : (s : Step) → IsQuiet s → Allows Calm s
allow-Calm mutated q t p = absurd q
allow-Calm prechecked q t p = (p, p)
allow-Calm _ q t p = (p, p)

pub allow-Settled : (s : Step) → Allows Settled s
allow-Settled s t p = (ground arith, ground arith)

-- A run settles when it ends without a mutation, or when the mutation is settled.
abbrev pub Settles : List Event → Type 0
Settles t = Calm t ⊎ Settled t

pub settles_committed :
    {A : Type 0} (r : Result A) (t : List Event) → Settled (mark (append "committed") r ∷ t)
settles_committed (ok a) t = refl
settles_committed (err e) t = refl

settles_rolled_back :
    {A : Type 0} (r : Result A) (t : List Event) → Settled (mark rolled_back r ∷ t)
settles_rolled_back (ok a) t = refl
settles_rolled_back (err e) t = refl

-- How the guarded part may end: settled, or with a result of the phase `committed` to append.
abbrev pub Ends : {h : Host} → Result Ending × World h → Type 0
Ends (ok (to_append r), w) = (phase_name r ≡ "committed") ⊎ Settles w.trace
Ends (_, w) = Settles w.trace

pub Settles-Ends : {h : Host} (x : Result Ending × World h) → Settles x.1.trace → Ends x
Settles-Ends (ok (to_append r), w) s = inr s
Settles-Ends (ok (final r), w) s = s
Settles-Ends (err e, w) s = s

module _ (c : Codec) (key : List ℕ) (j : Job) {h : Host} where
  call_rollback-Settled : (e : Error) (w : World h) → Settled (call_rollback c key j e w).1.trace
  unfolding call_rollback tracked try_call
  call_rollback-Settled e w =
      let (r, s) = h.rollback j.request w.state in
      (rollback_result-Keeps c key j (λ s _. allow-Settled s) e r).at _
        (settles_rolled_back r w.trace)

  undo_continued :
      (r : Result Fields) (e : Error) (w : World h) (t : List Event)
      → w.trace ≡ mark (append "rollback_started") r ∷ t
      → Settled (continue r (λ _. call_rollback c key j e) w).1.trace
  undo_continued (ok a) e w t at = call_rollback-Settled e w
  undo_continued (err x) e w t at = rw at refl

  undo-Settled : (e : Error) (w : World h) → Settled (undo c key j e w).1.trace
  unfolding undo ◌>>=◌ append_phase
  undo-Settled e w = undo_continued _ e _ _ refl

  after_mutation-Ends :
      (x : Result Fields × World h)
      → ((r : Fields) → x.0 ≡ ok r → phase_name r ≡ "committed")
      → Ends (after_mutation c key j x)
  unfolding after_mutation
  after_mutation-Ends (ok r, w) committed = inl (committed r refl)
  after_mutation-Ends (err e, w) committed = Settles-Ends (pending c key j (undo c key j e w)) (
      inr (
        pending-Keeps c key j {P = Settled} (λ s _. allow-Settled s) (undo c key j e w)
          (undo-Settled e w)))

  after_start-Ends :
      (deadline : ℕ) (x : Result (Unit {0}) × World h)
      → Calm x.1.trace
      → Ends (after_start c key j deadline x)
  unfolding after_start
  after_start-Ends deadline (ok _, w) calm =
      after_mutation-Ends (mutate_and_check c key j deadline w)
        (λ r e. (mutate_and_check-committed c key j deadline).at w r e)
  after_start-Ends deadline (err e, w) calm = Settles-Ends (settled c key j (recover c key j e w)) (
      inl (
        settled-Keeps c key j allow-Calm (recover c key j e w)
          ((recover-Keeps c key j allow-Calm e).at w calm)))

  release-Ends : (x : Result Ending × World h) → Ends x → Ends (release x)
  unfolding release
  release-Ends (ok (to_append r), w) (inl e) = inl e
  release-Ends (ok (to_append r), w) (inr s) = inr s
  release-Ends (ok (final r), w) s = s
  release-Ends (err e, w) s = s

  pub after_consume-Ends :
      (deadline : ℕ) (x : Result (Unit {0}) × World h)
      → Calm x.1.trace
      → Ends (after_consume c key j deadline x)
  unfolding after_consume guarded
  after_consume-Ends deadline (ok _, w) calm =
      release-Ends (after_start c key j deadline (start c key j deadline w)) (
        after_start-Ends deadline (start c key j deadline w)
          ((start-Keeps c key j allow-Calm deadline).at w calm))
  after_consume-Ends deadline (err e, w) calm = release-Ends (err e, w) (inl calm)

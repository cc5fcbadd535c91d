-- ===== src/Broker/Execute/Quiet.antt =====
-- What every part of a run but the mutation keeps.
use hermes_keel.Base.{ℕ, List}
use hermes_keel.Base.Int.{ℤ}
use hermes_keel.Base.Result.{Error, Result, ok, err}
use hermes_keel.Json.{Value, null, Fields}
use hermes_keel.Json.Codec.{Codec}
use hermes_keel.Broker.Execute.World.{
  Host, World, Step, Event, append, mutated, rolled_back, released, try_call,
}
use hermes_keel.Broker.Execute.Steps.{Job, append_result}
use hermes_keel.Broker.Execute.Run.{
  Ending, final, to_append, admit, consume, start, check_health, recover, undo, call_rollback,
  rollback_result, settled, pending, after_result, persistence_failed, close, release,
  reject_preflight, phase_name,
}
use hermes_keel.Broker.Execute.Keeps.{
  Keeps, Allows, keeps_rules, make_phase-Keeps, append_phase-Keeps, append_result-Keeps,
  validate_fence-Keeps, take_fence-Keeps, Keeps-bind, Keeps-tracked, Keeps-try_call,
}

-- Every step but the mutation.
abbrev pub IsQuiet : Step → Type 0
IsQuiet mutated = ⊥
IsQuiet _ = Unit

quiet : Unit {0}
quiet = tt

ruleset quiet_rules = (
  keeps_rules, make_phase-Keeps, append_phase-Keeps, append_result-Keeps, validate_fence-Keeps,
  take_fence-Keeps, quiet,
)

module _ (c : Codec) (key : List ℕ) (j : Job) {h : Host} {P : List Event → Type 0}
    (allow : (s : Step) → IsQuiet s → Allows P s) where
  pub check_health-Keeps : (deadline : ℕ) → Keeps P (check_health c key j {h = h} deadline)
  unfolding check_health
  check_health-Keeps deadline = search (quiet_rules, allow) depth 20

  pub recover-Keeps : (e : Error) → Keeps P (recover c key j {h = h} e)
  unfolding recover
  recover-Keeps e = search (quiet_rules, allow) depth 8

  pub reject_preflight-Keeps : (e : Error) → Keeps P (reject_preflight c key j {h = h} e)
  unfolding reject_preflight
  reject_preflight-Keeps e = search (quiet_rules, allow) depth 8

  pub admit-Keeps : (now : ℤ) → Keeps P (admit c key j {h = h} now)
  unfolding admit
  admit-Keeps now = search (quiet_rules, allow) depth 20

  pub consume-Keeps :
      (deadline : ℕ) (identity : Fields) (approval : Value)
      → Keeps P (consume c key j {h = h} deadline identity approval)
  unfolding consume
  consume-Keeps deadline identity approval = search (quiet_rules, allow) depth 12

  pub start-Keeps : (deadline : ℕ) → Keeps P (start c key j {h = h} deadline)
  unfolding start
  start-Keeps deadline = search (quiet_rules, allow) depth 12

  pub rollback_result-Keeps :
      (e : Error) (r : Result Value) → Keeps P (rollback_result c key j {h = h} e r)
  unfolding rollback_result
  rollback_result-Keeps e (err x) = search (quiet_rules, allow)
  rollback_result-Keeps e (ok null) = search (quiet_rules, allow)
  rollback_result-Keeps e (ok _) = search (quiet_rules, allow)

  pub call_rollback-Keeps :
      (e : Error) (w : World h) → P w.trace → P (call_rollback c key j e w).1.trace
  unfolding call_rollback
  call_rollback-Keeps e w g = (rollback_result-Keeps e _).at _ (
      (Keeps-tracked rolled_back (try_call (h.rollback j.request)) (allow rolled_back tt)
          (Keeps-try_call _)).at
        w g)

  pub settled-Keeps : (x : Result Fields × World h) → P x.1.trace → P (settled c key j x).1.trace
  unfolding settled
  settled-Keeps (ok r, w) g = g
  settled-Keeps (err e, w) g = g

  pub pending-Keeps : (x : Result Fields × World h) → P x.1.trace → P (pending c key j x).1.trace
  unfolding pending
  pending-Keeps (ok r, w) g = g
  pending-Keeps (err e, w) g = g

  pub undo-Keeps : (e : Error) → Keeps P (undo c key j {h = h} e)
  unfolding undo
  undo-Keeps e =
      Keeps-bind _ _
        (append_phase-Keeps c key j "rollback_started" _ (allow (append "rollback_started") tt))
        (λ _. record { at = call_rollback-Keeps e })

  persistence_failed-Keeps : (e : Error) → Keeps P (persistence_failed c key j {h = h} e)
  unfolding persistence_failed
  persistence_failed-Keeps e = search (quiet_rules, allow) depth 8

  pub after_result-Keeps :
      (result : Fields) (x : Result Fields × World h)
      → P x.1.trace
      → P (after_result c key j result x).1.trace
  unfolding after_result
  after_result-Keeps result (ok _, w) p = p
  after_result-Keeps result (err e, w) p = (persistence_failed-Keeps e).at w p

  pub close-Keeps : (ending : Ending) → Keeps P (close c key j {h = h} ending)
  unfolding close
  close-Keeps (final r) = record { at = λ w p. p }
  close-Keeps (to_append r) = record {
    at = λ w p.
        after_result-Keeps r (append_result c key j (phase_name r) r w) (
          (append_result-Keeps c key j (phase_name r) r (allow (append (phase_name r)) tt)).at w p);
  }

  pub release-Keeps : {A : Type 0} (x : Result A × World h) → P x.1.trace → P (release x).1.trace
  unfolding release
  release-Keeps (r, w) p = (allow released tt w.trace p).0

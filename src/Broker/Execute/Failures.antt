-- ===== src/Broker/Execute/Failures.antt =====
-- The results of the handlers.
use hermes_keel.Base.{ℕ, String, ◌≡◌, refl, false, List}
use hermes_keel.Base.Result.{Error, Result, ok, err}
use hermes_keel.Json.{Value, null, bool, Fields}
use hermes_keel.Json.Codec.{Codec}
use hermes_keel.Broker.Ledger.Chain.{get_value}
use hermes_keel.Broker.Execute.World.{Host}
use hermes_keel.Broker.Execute.Steps.{Job, event}
use hermes_keel.Broker.Execute.Run.{
  not_ok, recover, undo, call_rollback, rollback_result, persistence_failed, reject_preflight,
}
use hermes_keel.Broker.Execute.Yields.{
  Yields, HasPhase, Yields-bind, Yields-last, Yields-pure, Yields-weaken, make_phase-HasPhase,
}

abbrev pub IsFailure : Fields → Type 0
IsFailure r = get_value "ok" r ≡ bool false

module _ (c : Codec) (j : Job) (h : Host) where
  not_ok-IsFailure :
      (name : String) (e : Error) (r : Fields) → HasPhase c j name (not_ok h e) r → IsFailure r
  unfolding not_ok event
  not_ok-IsFailure name e r (at, same) = rw same refl

module _ (c : Codec) (key : List ℕ) (j : Job) {h : Host} where
  pub recover-IsFailure : (e : Error) → Yields IsFailure (recover c key j {h = h} e)
  unfolding recover
  recover-IsFailure e =
      Yields-bind _ _ _ _ (make_phase-HasPhase c key j "recovery_required" (not_ok h e) refl)
        (λ r has.
          Yields-last _ _ _
            (λ _. Yields-pure _ _ (not_ok-IsFailure c j h "recovery_required" e r has)))

  pub reject_preflight-IsFailure :
      (e : Error) → Yields IsFailure (reject_preflight c key j {h = h} e)
  unfolding reject_preflight
  reject_preflight-IsFailure e =
      Yields-bind _ _ _ _ (make_phase-HasPhase c key j "preflight_rejected" (not_ok h e) refl)
        (λ r has.
          Yields-last _ _ _
            (λ _. Yields-pure _ _ (not_ok-IsFailure c j h "preflight_rejected" e r has)))

  pub persistence_failed-IsFailure :
      (e : Error) → Yields IsFailure (persistence_failed c key j {h = h} e)
  unfolding persistence_failed event
  persistence_failed-IsFailure e =
      Yields-bind _ _ _ _ (make_phase-HasPhase c key j "recovery_required" _ refl)
        (λ r has. Yields-last _ _ _ (λ _. Yields-pure _ _ (rw (has.1) refl)))

  rollback_result-IsFailure :
      (e : Error) (r : Result Value) → Yields IsFailure (rollback_result c key j {h = h} e r)
  unfolding rollback_result not_ok event
  rollback_result-IsFailure e (ok null) =
      Yields-weaken _ _ _ (make_phase-HasPhase c key j "rollback_verified" _ refl)
        (λ r has. rw (has.1) refl)
  rollback_result-IsFailure e (ok v) =
      Yields-weaken _ _ _ (make_phase-HasPhase c key j "rollback_verified" _ refl)
        (λ r has. rw (has.1) refl)
  rollback_result-IsFailure e (err x) =
      Yields-weaken _ _ _ (make_phase-HasPhase c key j "recovery_required" _ refl)
        (λ r has. rw (has.1) refl)

  pub undo-IsFailure : (e : Error) → Yields IsFailure (undo c key j {h = h} e)
  unfolding undo call_rollback
  undo-IsFailure e =
      Yields-last _ _ _ (λ _. record { at = λ w r e'. (rollback_result-IsFailure e _).at _ r e' })

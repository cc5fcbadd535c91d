-- ===== src/Broker/Execute/Run.antt =====
-- `execute`: approval, replay check, preflight, fence, mutation, health, and rollback.
use hermes_keel.Base.{
  ℕ, zero, String, Bool, true, false, not, Option, none, some, List, [], ◌∷◌, ◌==◌, count,
}
use hermes_keel.Base.Int.{ℤ, pos}
use hermes_keel.Base.Result
use hermes_keel.Base.Result.{Error, Result, ok, err, rejected, raised, type_error, reject_if}
use hermes_keel.Json.{
  Value, null, bool, num, float, text, arr, dict, nil, Fields, end, fields, merge,
}
use hermes_keel.Json.Access.{item}
use hermes_keel.Json.Codec.{Codec}
use hermes_keel.Broker.Request.{validate_request}
use hermes_keel.Broker.Ledger.File.{File, records}
use hermes_keel.Broker.Ledger.Chain.{digest, verify_chain, get_value}
use hermes_keel.Broker.Execute.World.{
  Host, World, Exec, prechecked, mutated, measured, rolled_back, released, done, pure, lift, call,
  try_call, tracked, ◌>>=◌, ◌>>◌,
}
use hermes_keel.Broker.Execute.Approval.{find_approval, is_spent}
use hermes_keel.Broker.Execute.Steps.{
  Job, append_phase, append_result, make_phase, validate_fence, take_fence,
}

-- `bool(v)`
abbrev truthy : Value → Bool
truthy null = false
truthy (bool b) = b
truthy (num (pos zero)) = false
truthy (float (pos zero) k) = false
truthy (text s) = not (count s == 0)
truthy (arr nil) = false
truthy (dict end) = false
truthy _ = true

abbrev pub file_records : Codec → ℕ → Option File → Result (List Value)
file_records c euid none = ok []
file_records c euid (some f) = records c euid f

-- `{"type": type(exc).__name__, "message": str(exc)}`
unfoldable pub error_value : Host → Error → Value
error_value h e = dict (fields (("type", text (h.name e)) ∷ ("message", text (h.message e)) ∷ []))

-- How the guarded part ends: with a result that is returned as it is, or with one to append.
pub data Ending : Type 0 where
  final to_append : Fields → Ending

-- `fence_db.rollback()` and `fence_db.close()`, whatever came before
unfoldable pub release : {h : Host} {A : Type 0} → Result A × World h → Result A × World h
release (r, w) = (r, record w { trace = done released ∷ w.trace })

unfoldable pub phase_name : Fields → String
phase_name r = elim (get_value "phase" r) [ text s ↦ s | _ ↦ "" ]

unfoldable pub not_ok : Host → Error → Fields
unfolding error_value
not_ok h e = fields (("ok", bool false) ∷ ("error", error_value h e) ∷ [])

unfoldable pub expect_text : Value → Result String
expect_text (text s) = ok s
expect_text _ = err (raised type_error)

unfoldable pub expect_int : Value → Result ℤ
expect_int (num n) = ok n
expect_int _ = err (raised type_error)

-- The members of a validated request that the run uses, at their types.
unfoldable pub job_of : Value → Result Job
unfolding expect_text expect_int
job_of req = Result.◌>>=◌ (item "requester_task" req) λ task. Result.◌>>=◌ (expect_text task) λ t.
    Result.◌>>=◌ (item "requester_run" req) λ run. Result.◌>>=◌ (expect_int run) λ r.
      Result.◌>>=◌ (item "nonce" req) λ nonce. Result.◌>>=◌ (expect_text nonce) λ n.
        Result.◌>>=◌ (item "operation_id" req)
          λ id. ok (record { request = req; task = t; run = r; nonce = n; operation_id = id })

module _ (c : Codec) (key : List ℕ) (j : Job) where
  module _ {h : Host} where
    -- From the lock up to the preflight; gives the one approval.
    unfoldable pub admit : ℤ → Exec h Value
    admit now = do
      try_call h.lock
      approvals ← call h.approvals
      found ← lift (file_records c h.euid approvals)
      approval ← lift (find_approval c key (digest c j.request) found now)
      prior ← λ w. (verify_chain c h.euid w.ledger key, w)
      spent ← lift (is_spent (digest c j.request) prior)
      lift (reject_if spent "replay")
      pure approval

    -- `prepared` and `consumed`
    unfoldable pub consume : ℕ → Fields → Value → Exec h (Unit {0})
    consume deadline identity approval = do
      pre ← lift (ok (elim j.request [ dict fs ↦ get_value "expected_pre_state" fs | _ ↦ null ]))
      append_phase c key j "prepared" (
          fields (
            ("pre_state_sha256", text (digest c pre))
            ∷ ("board_connection_identity", dict identity)
            ∷ []))
      validate_fence c key j deadline
      append_phase c key j "consumed" (fields (("approval_sha256", text (digest c approval)) ∷ []))
      pure tt

    -- up to `mutation_started = True`
    unfoldable pub start : ℕ → Exec h (Unit {0})
    start deadline = do
      validate_fence c key j deadline
      append_phase c key j "mutation_started" end
      validate_fence c key j deadline

    -- what follows `backend.mutate`, to the result `committed`
    unfoldable pub check_health : ℕ → Exec h Fields
    check_health deadline = do
      validate_fence c key j deadline
      health ← tracked measured (try_call (h.health j.request))
      lift (reject_if (not (truthy (get_value "ok" health))) "health-failed")
      append_phase c key j "health_passed" (fields (("health", dict health) ∷ []))
      validate_fence c key j deadline
      result ← make_phase c key j "committed" end
      pure (merge result (fields (("ok", bool true) ∷ ("health", dict health) ∷ [])))

    unfoldable pub mutate_and_check : ℕ → Exec h Fields
    unfolding check_health
    mutate_and_check deadline =
        tracked mutated (try_call (h.mutate j.request)) >> check_health deadline

    -- the handler when nothing was mutated: its result is final
    unfoldable pub recover : Error → Exec h Fields
    unfolding not_ok
    recover e = do
      result ← make_phase c key j "recovery_required" (not_ok h e)
      append_result c key j "recovery_required" result
      pure result

    -- `rollback_evidence` or `rollback_error`, after the call of the backend's `rollback`
    unfoldable pub rollback_result : Error → Result Value → Exec h Fields
    unfolding not_ok error_value
    rollback_result e (ok null) =
        make_phase c key j "rollback_verified"
          (merge (not_ok h e) (fields (("rollback_ok", bool true) ∷ [])))
    rollback_result e (ok evidence) = make_phase c key j "rollback_verified" (
        merge (not_ok h e)
          (fields (("rollback_ok", bool true) ∷ ("rollback_evidence", evidence) ∷ [])))
    rollback_result e (err e') = make_phase c key j "recovery_required" (
        merge (not_ok h e)
          (fields (("rollback_ok", bool false) ∷ ("rollback_error", error_value h e') ∷ [])))

    unfoldable pub call_rollback : Error → Exec h Fields
    unfolding rollback_result
    call_rollback e w =
        let (r, w') = tracked rolled_back (try_call (h.rollback j.request)) w in
        rollback_result e r w'

    -- the handler once the mutation has started: its result is still to be appended
    unfoldable pub undo : Error → Exec h Fields
    unfolding call_rollback
    undo e = append_phase c key j "rollback_started" end >> call_rollback e

    unfoldable pub settled : Result Fields × World h → Result Ending × World h
    settled (ok r, w) = (ok (final r), w)
    settled (err e, w) = (err e, w)

    unfoldable pub pending : Result Fields × World h → Result Ending × World h
    pending (ok r, w) = (ok (to_append r), w)
    pending (err e, w) = (err e, w)

    unfoldable pub after_mutation : Result Fields × World h → Result Ending × World h
    unfolding pending undo
    after_mutation (ok r, w) = (ok (to_append r), w)
    after_mutation (err e, w) = pending (undo e w)

    unfoldable pub after_start : ℕ → Result (Unit {0}) × World h → Result Ending × World h
    unfolding settled recover after_mutation mutate_and_check
    after_start deadline (ok _, w) = after_mutation (mutate_and_check deadline w)
    after_start deadline (err e, w) = settled (recover e w)

    -- the second `try` with its handler and its `finally`
    unfoldable pub guarded : ℕ → Exec h Ending
    unfolding after_start start release
    guarded deadline w = release (after_start deadline (start deadline w))

    -- the first `try`, which releases the fence only if it raises
    unfoldable pub after_consume : ℕ → Result (Unit {0}) × World h → Result Ending × World h
    unfolding guarded release
    after_consume deadline (ok _, w) = guarded deadline w
    after_consume deadline (err e, w) = release (err e, w)

    -- the result could not be appended
    unfoldable pub persistence_failed : Error → Exec h Fields
    persistence_failed e = do
      recovery ← make_phase c key j "recovery_required" (
          fields (
            ("ok", bool false)
            ∷ (
              "error",
              dict (
                  fields (
                    ("type", text (h.name e))
                    ∷ ("message", text "terminal-evidence-persistence-failed")
                    ∷ [])),
            )
            ∷ []))
      append_result c key j "recovery_required" recovery
      pure recovery

    unfoldable pub after_result : Fields → Result Fields × World h → Result Fields × World h
    unfolding persistence_failed
    after_result result (ok _, w) = (ok result, w)
    after_result result (err e, w) = persistence_failed e w

    unfoldable pub close : Ending → Exec h Fields
    unfolding after_result phase_name
    close (final r) w = (ok r, w)
    close (to_append r) w = after_result r (append_result c key j (phase_name r) r w)

    -- the preflight raised
    unfoldable pub reject_preflight : Error → Exec h Fields
    unfolding not_ok
    reject_preflight e = do
      result ← make_phase c key j "preflight_rejected" (not_ok h e)
      append_result c key j "preflight_rejected" result
      pure result

    -- under the fence
    unfoldable pub fenced_tail : Value → Fields → ℕ → Exec h Fields
    unfolding consume after_consume close
    fenced_tail approval identity deadline =
        (λ w. after_consume deadline (consume deadline identity approval w)) >>= close

    -- from the fence on
    unfoldable pub run_fenced : Value → Exec h Fields
    unfolding take_fence fenced_tail
    run_fenced approval =
        take_fence c key j >>= λ (identity, deadline). fenced_tail approval identity deadline

    unfoldable pub after_preflight : Value → Result (Unit {0}) × World h → Result Fields × World h
    unfolding run_fenced reject_preflight
    after_preflight approval (ok _, w) = run_fenced approval w
    after_preflight approval (err e, w) = reject_preflight e w

    unfoldable pub preflight : Value → Exec h Fields
    unfolding after_preflight
    preflight approval w =
        after_preflight approval (tracked prechecked (try_call (h.check_pre j.request)) w)

    -- what follows `validate_request`
    unfoldable pub execute_job : ℤ → Exec h Fields
    unfolding admit preflight
    execute_job now = admit now >>= preflight

module _ (c : Codec) (key : List ℕ) {h : Host} where
  unfoldable pub execute : Value → ℤ → Exec h Fields
  unfolding job_of execute_job
  execute req now = do
    lift (validate_request c req now)
    j ← lift (job_of req)
    execute_job c key j now

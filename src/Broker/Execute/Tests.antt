-- ===== src/Broker/Execute/Tests.antt =====
-- Runs of `execute` on a small host, and the theorems at them.
use hermes_keel.Base.{ℕ, zero, suc, ◌+◌, ◌≡◌, refl, true, false, some, [], ◌∷◌}
use hermes_keel.Base.Int.{pos}
use hermes_keel.Base.Result.{Result, ok, err, rejected, raised, os_error}
use hermes_keel.Json.{end, Value, null, bool, text, Fields, fields}
use hermes_keel.Broker.Authority.{open_bound_board}
use hermes_keel.Broker.Authority.Tests.{running_board, board_file}
use hermes_keel.Broker.Request.{validate_request, sealed_package, fixture_pre_state, request}
use hermes_keel.Broker.Ledger.File.{records}
use hermes_keel.Broker.Execute.Approval.{find_approval, is_spent}
use hermes_keel.Broker.Execute.Steps.{append_phase, append_result, validate_fence}
use hermes_keel.Broker.Ledger.Chain.{verify_chain}
use hermes_keel.Broker.Ledger.Append.{Outcome, append_chain}
use hermes_keel.Broker.Ledger.Tests.{written, cut_short, toy, file_of, new_ledger, one_record}
use hermes_keel.Broker.Execute.World.{
  ◌>>=◌, Host, World, done, failed, append, validated, mutated, measured, rolled_back, released,
}
use hermes_keel.Broker.Execute.Run.{execute}
use hermes_keel.Broker.Execute.Guard.{IsGuarded, before_mutation, execute-IsGuarded}
use hermes_keel.Broker.Execute.Settle.{execute-Settles}
use hermes_keel.Broker.Execute.Endings.{Settles}
use hermes_keel.Broker.Execute.Honest.{IsHonest, execute-IsHonest}

-- The state counts the writes to the ledger; the write numbered `broken` fails.
abbrev outcome_at : ℕ → ℕ → Outcome
outcome_at zero zero = cut_short
outcome_at zero (suc n) = written
outcome_at (suc b) zero = written
outcome_at (suc b) (suc n) = outcome_at b n

abbrev pub small_host : ℕ → Result (Unit {0}) → Result (Unit {0}) → Result Fields → Host
small_host broken pre mutate health = record {
  State = ℕ;
  euid = 0;
  time = λ s. (pos 100, s);
  monotonic = λ s. (5, s);
  lock = λ s. (ok tt, s);
  approvals = λ s. (some (file_of (7 ∷ 10 ∷ [])), s);
  board = λ s. (board_file, s);
  rows = λ s. (running_board, s);
  outcome = λ s. (outcome_at broken s, s + 1);
  check_pre = λ _ s. (pre, s);
  mutate = λ _ s. (mutate, s);
  health = λ _ s. (health, s);
  rollback = λ _ s. (ok null, s);
  name = λ _. "E";
  message = λ _. "m";
}

abbrev healthy : Result Fields
healthy = ok (fields (("ok", bool true) ∷ []))

abbrev good_host : Host
good_host = small_host 99 (ok tt) (ok tt) healthy

abbrev pub small_request : Value
small_request =
    request toy "t_1" (pos 7) "abcdefghijklmnopqrstuvwxyz012345" (pos 100) (pos 1800)
      fixture_pre_state
      (sealed_package (text "/fixture/package")
        (text "2222222222222222222222222222222222222222222222222222222222222222"))

abbrev start_world : (h : Host) → h.State → World h
start_world h s = record { state = s; ledger = new_ledger; trace = [] }

good_request : validate_request toy small_request (pos 100) ≡ ok tt
unfolding validate_request request fixture_pre_state
good_request = refl

abbrev run_on : (h : Host) → h.State → Result Fields × World h
run_on h s = execute toy [] {h = h} small_request (pos 100) (start_world h s)

-- the mutation raises; the health is bad; the mutation raises and `rollback_started` is not written
abbrev failing_host : Host
failing_host = small_host 99 (ok tt) (err (raised os_error)) healthy

abbrev sick_host : Host
sick_host = small_host 99 (ok tt) (ok tt) (ok (fields (("ok", bool false) ∷ [])))

abbrev unsaved_host : Host
unsaved_host = small_host 3 (ok tt) (err (raised os_error)) healthy

runs :
    ((run_on good_host 0).1.trace
      ≡ done (append "committed")
        ∷ done released
        ∷ done validated
        ∷ done (append "health_passed")
        ∷ done measured
        ∷ done validated
        ∷ done mutated
        ∷ before_mutation)
    × ((run_on failing_host 0).1.trace
        ≡ done (append "rollback_verified")
          ∷ done released
          ∷ done rolled_back
          ∷ done (append "rollback_started")
          ∷ failed mutated
          ∷ before_mutation)
    × ((run_on sick_host 0).1.trace
        ≡ done (append "rollback_verified")
          ∷ done released
          ∷ done rolled_back
          ∷ done (append "rollback_started")
          ∷ done measured
          ∷ done validated
          ∷ done mutated
          ∷ before_mutation)
    × ((run_on unsaved_host 0).0 ≡ err (raised os_error))
    × ((run_on unsaved_host 0).1.trace
        ≡ done released ∷ failed (append "rollback_started") ∷ failed mutated ∷ before_mutation)
unfolding execute validate_request request ◌>>=◌ fixture_pre_state records find_approval
    verify_chain is_spent open_bound_board append_phase append_chain validate_fence append_result
runs = (refl, refl, refl, refl, refl)

execute-IsGuarded_example : IsGuarded (run_on good_host 0).1.trace
execute-IsGuarded_example =
    execute-IsGuarded toy [] {h = good_host} small_request (pos 100) (start_world good_host 0) refl

execute-Settles_example : Settles (run_on sick_host 0).1.trace
execute-Settles_example =
    execute-Settles toy [] {h = sick_host} small_request (pos 100) (start_world sick_host 0) refl

abbrev used_world : World good_host
used_world = record { state = 0; ledger = one_record; trace = [] }

-- The ledger holds the request as consumed.
replay_refused :
    execute toy [] {h = good_host} small_request (pos 100) used_world
    ≡ (err (rejected "replay"), record used_world { state = 0 })
unfolding execute ◌>>=◌ validate_request request fixture_pre_state records find_approval
    verify_chain is_spent
replay_refused = refl

abbrev result_of : Result Fields → Fields
result_of (ok r) = r
result_of (err e) = end

execute-IsHonest_example : IsHonest (result_of (run_on good_host 0).0) (run_on good_host 0).1.trace
unfolding execute validate_request request ◌>>=◌ fixture_pre_state records find_approval
    verify_chain is_spent open_bound_board append_phase append_chain validate_fence append_result
execute-IsHonest_example =
    execute-IsHonest toy [] {h = good_host} small_request (pos 100) (start_world good_host 0)
      (result_of (run_on good_host 0).0) refl

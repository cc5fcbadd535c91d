-- ===== src/Broker/Execute/Honest.antt =====
-- What a result that says `ok` follows.
use hermes_keel.Base.{ℕ, ◌≡◌, refl, sym, ap, ◌∙◌, ◌⊎◌, inl, inr, false, List, ◌∷◌}
use hermes_keel.Base.Int.{ℤ}
use hermes_keel.Base.Result.{Result, ok, err, ok_injective}
use hermes_keel.Json.{Value, bool, Fields}
use hermes_keel.Json.Codec.{Codec}
use hermes_keel.Broker.Request.{validate_request}
use hermes_keel.Broker.Ledger.Chain.{get_value}
use hermes_keel.Broker.Execute.World.{
  Host, World, Exec, Event, done, append, lift, tracked, continue, ◌>>=◌,
}
use hermes_keel.Broker.Execute.Steps.{Job, append_body, append_result, take_fence}
use hermes_keel.Broker.Execute.Run.{
  Ending, final, to_append, admit, consume, start, mutate_and_check, recover, undo, settled,
  pending, after_mutation, after_start, guarded, after_consume, after_result, close, release,
  reject_preflight, run_fenced, fenced_tail, after_preflight, preflight, execute_job, execute,
  job_of, phase_name,
}
use hermes_keel.Broker.Execute.Order.{mark_ok}
use hermes_keel.Broker.Execute.Yields.{Yields, mutate_and_check-committed}
use hermes_keel.Broker.Execute.Failures.{
  IsFailure, recover-IsFailure, reject_preflight-IsFailure, persistence_failed-IsFailure,
  undo-IsFailure,
}

-- A result that reports a failure, or a trace on which `committed` is the last event.
abbrev pub IsHonest : Fields → List Event → Type 0
IsHonest r trace =
    (get_value "ok" r ≡ bool false) ⊎ ((t : List Event) × (trace ≡ done (append "committed") ∷ t))

-- the same of a call's outcome, if it returns
abbrev Honest : {h : Host} → Result Fields × World h → Type 0
Honest x = (r : Fields) → x.0 ≡ ok r → IsHonest r x.1.trace

-- How the guarded part may end.
abbrev EndsWell : {h : Host} → Result Ending × World h → Type 0
EndsWell (ok (final r), w) = IsFailure r
EndsWell (ok (to_append r), w) = IsFailure r ⊎ (phase_name r ≡ "committed")
EndsWell (err e, w) = Unit

failure-Honest : {h : Host} (m : Exec h Fields) (w : World h) → Yields IsFailure m → Honest (m w)
failure-Honest m w k r e = inl (k.at w r e)

continue_lem :
    {h : Host} {A : Type 0} (r : Result A) (f : A → Exec h Fields) (w : World h)
    → ((a : A) (w : World h) → Honest (f a w))
    → Honest (continue r f w)
continue_lem (ok a) f w k = k a w
continue_lem (err e) f w k = λ r' e'. cc

module _ (c : Codec) (key : List ℕ) (j : Job) {h : Host} where
  pending_lem :
      (x : Result Fields × World h)
      → ((r : Fields) → x.0 ≡ ok r → IsFailure r)
      → EndsWell (pending c key j x)
  unfolding pending
  pending_lem (ok r, w) k = inl (k r refl)
  pending_lem (err e, w) k = tt

  settled_lem :
      (x : Result Fields × World h)
      → ((r : Fields) → x.0 ≡ ok r → IsFailure r)
      → EndsWell (settled c key j x)
  unfolding settled
  settled_lem (ok r, w) k = k r refl
  settled_lem (err e, w) k = tt

  after_mutation_lem :
      (x : Result Fields × World h)
      → ((r : Fields) → x.0 ≡ ok r → phase_name r ≡ "committed")
      → EndsWell (after_mutation c key j x)
  unfolding after_mutation
  after_mutation_lem (ok r, w) committed = inr (committed r refl)
  after_mutation_lem (err e, w) committed =
      pending_lem (undo c key j e w) (λ r e'. (undo-IsFailure c key j e).at w r e')

  after_start_lem :
      (deadline : ℕ) (x : Result (Unit {0}) × World h) → EndsWell (after_start c key j deadline x)
  unfolding after_start
  after_start_lem deadline (ok _, w) =
      after_mutation_lem (mutate_and_check c key j deadline w)
        (λ r e. (mutate_and_check-committed c key j deadline).at w r e)
  after_start_lem deadline (err e, w) =
      settled_lem (recover c key j e w) (λ r e'. (recover-IsFailure c key j e).at w r e')

  release_lem : (x : Result Ending × World h) → EndsWell x → EndsWell (release x)
  unfolding release
  release_lem (ok (final r), w) k = k
  release_lem (ok (to_append r), w) k = k
  release_lem (err e, w) k = tt

  after_consume_lem :
      (deadline : ℕ) (x : Result (Unit {0}) × World h) → EndsWell (after_consume c key j deadline x)
  unfolding after_consume guarded
  after_consume_lem deadline (ok _, w) =
      release_lem (after_start c key j deadline (start c key j deadline w))
        (after_start_lem deadline (start c key j deadline w))
  after_consume_lem deadline (err e, w) = release_lem (err e, w) tt

  after_result_lem :
      (r : Fields) (x : Result Fields × World h)
      → IsFailure r
        ⊎ ((a : Fields)
            → x.0 ≡ ok a
            → (t : List Event) × (x.1.trace ≡ done (append "committed") ∷ t))
      → Honest (after_result c key j r x)
  unfolding after_result
  after_result_lem r (ok a, w) (inl failure) r' e =
      inl (ap (get_value "ok") (sym (ok_injective r r' e)) ∙ failure)
  after_result_lem r (ok a, w) (inr committed) r' e = inr (committed a refl)
  after_result_lem r (err x, w) k r' e = inl ((persistence_failed-IsFailure c key j x).at w r' e)

  appended_lem :
      (r : Fields) (w : World h) (a : Fields)
      → phase_name r ≡ "committed"
      → (append_result c key j (phase_name r) r w).0 ≡ ok a
      → (t : List Event) × ((append_result c key j (phase_name r) r w).1.trace
          ≡ done (append "committed") ∷ t)
  unfolding append_result tracked
  appended_lem r w a committed e =
      let (result, w') = append_body c key j r w in
      (w'.trace, ap (λ s. s ∷ w'.trace) (rw committed (mark_ok (append "committed") result a e)))

  close_lem :
      (r : Result Ending) (w : World h) → EndsWell (r, w) → Honest (continue r (close c key j) w)
  unfolding close
  close_lem (ok (final r)) w failure =
      λ r' e. inl (ap (get_value "ok") (sym (ok_injective r r' e)) ∙ failure)
  close_lem (ok (to_append r)) w (inl failure) =
      after_result_lem r (append_result c key j (phase_name r) r w) (inl failure)
  close_lem (ok (to_append r)) w (inr committed) =
      after_result_lem r (append_result c key j (phase_name r) r w)
        (inr (λ a e. appended_lem r w a committed e))
  close_lem (err x) w k = λ r' e. cc

  fenced_tail_lem :
      (approval : Value) (identity : Fields) (deadline : ℕ) (w : World h)
      → Honest (fenced_tail c key j approval identity deadline w)
  unfolding fenced_tail ◌>>=◌
  fenced_tail_lem approval identity deadline w =
      let consumed = consume c key j deadline identity approval w in
      close_lem (after_consume c key j deadline consumed).0
        (after_consume c key j deadline consumed).1 (after_consume_lem deadline consumed)

  run_fenced_lem : (approval : Value) (w : World h) → Honest (run_fenced c key j approval w)
  unfolding run_fenced ◌>>=◌
  run_fenced_lem approval w =
      continue_lem (take_fence c key j w).0
        (λ (identity, deadline). fenced_tail c key j approval identity deadline)
        (take_fence c key j w).1
        (λ (identity, deadline) w'. fenced_tail_lem approval identity deadline w')

  after_preflight_lem :
      (approval : Value) (x : Result (Unit {0}) × World h)
      → Honest (after_preflight c key j approval x)
  unfolding after_preflight
  after_preflight_lem approval (ok _, w) = run_fenced_lem approval w
  after_preflight_lem approval (err e, w) =
      failure-Honest (reject_preflight c key j e) w (reject_preflight-IsFailure c key j e)

  execute_job_lem : (now : ℤ) (w : World h) → Honest (execute_job c key j now w)
  unfolding execute_job preflight ◌>>=◌
  execute_job_lem now w =
      continue_lem (admit c key j now w).0 (preflight c key j) (admit c key j now w).1
        (λ approval w'. after_preflight_lem approval _)

-- In every run, with any host: a result that `execute` returns either has `ok` false, or it was
-- returned directly after `committed` had been appended to the ledger without an exception.
pub execute-IsHonest :
    (c : Codec) (key : List ℕ) {h : Host} (req : Value) (now : ℤ) (w : World h) (r : Fields)
    → (execute c key req now w).0 ≡ ok r
    → IsHonest r (execute c key req now w).1.trace
unfolding execute ◌>>=◌ lift
execute-IsHonest c key {h} req now w =
    continue_lem (validate_request c req now) _ w
      (λ _ w1. continue_lem (job_of req) _ w1 (λ j w2. execute_job_lem c key j now w2))

-- ===== src/Broker/Execute/Settle.antt =====
-- The attempts that follow a mutation in a run.
use hermes_keel.Base.{ℕ, List, [], ◌≡◌, refl, inl, inr}
use hermes_keel.Base.Int.{ℤ}
use hermes_keel.Base.Result.{Result, ok, err, Result-cases}
use hermes_keel.Json.{Value, Fields}
use hermes_keel.Json.Codec.{Codec}
use hermes_keel.Broker.Request.{validate_request}
use hermes_keel.Broker.Execute.World.{
  Host, World, append, prechecked, fenced, lift, try_call, tracked, continue, ◌>>=◌,
}
use hermes_keel.Broker.Execute.Steps.{Job, append_body, append_result, take_fence}
use hermes_keel.Broker.Execute.Run.{
  Ending, final, to_append, admit, consume, after_consume, after_result, close, run_fenced,
  fenced_tail, after_preflight, preflight, execute_job, execute, job_of, phase_name,
}
use hermes_keel.Broker.Execute.Keeps.{
  append_result-Keeps, take_fence-Keeps, Keeps-tracked, Keeps-try_call,
}
use hermes_keel.Broker.Execute.Quiet.{
  reject_preflight-Keeps, admit-Keeps, consume-Keeps, after_result-Keeps,
}
use hermes_keel.Broker.Execute.Endings.{
  Settles, Calm, Settled, Ends, allow-Calm, allow-Settled, settles_committed, after_consume-Ends,
}

module _ (c : Codec) (key : List ℕ) (j : Job) {h : Host} where
  after_result-Settles :
      (r : Fields) (x : Result Fields × World h)
      → Settles x.1.trace
      → Settles (after_result c key j r x).1.trace
  after_result-Settles r x (inl calm) = inl (after_result-Keeps c key j allow-Calm r x calm)
  after_result-Settles r x (inr s) =
      inr (after_result-Keeps c key j {P = Settled} (λ s _. allow-Settled s) r x s)

  settles_result :
      (r : Fields) (w : World h)
      → phase_name r ≡ "committed"
      → Settled (append_result c key j (phase_name r) r w).1.trace
  unfolding append_result tracked
  settles_result r w e =
      let (result, w') = append_body c key j r w in rw e (settles_committed result w'.trace)

  close-Settles :
      (r : Result Ending) (w : World h)
      → Ends (r, w)
      → Settles (continue r (close c key j) w).1.trace
  unfolding close
  close-Settles (ok (to_append r)) w (inl committed) =
      after_result-Settles r (append_result c key j (phase_name r) r w)
        (inr (settles_result r w committed))
  close-Settles (ok (to_append r)) w (inr (inl calm)) =
      after_result-Settles r (append_result c key j (phase_name r) r w) (
        inl (
          (append_result-Keeps c key j (phase_name r) r (allow-Calm (append (phase_name r)) tt)).at
            w calm))
  close-Settles (ok (to_append r)) w (inr (inr s)) =
      after_result-Settles r (append_result c key j (phase_name r) r w) (
        inr (
          (append_result-Keeps c key j {P = Settled} (phase_name r) r
              (allow-Settled (append (phase_name r)))).at
            w s))
  close-Settles (ok (final r)) w s = s
  close-Settles (err e) w s = s

  fenced_tail-Settles :
      (approval : Value) (identity : Fields) (deadline : ℕ) (w : World h)
      → Calm w.trace
      → Settles (fenced_tail c key j approval identity deadline w).1.trace
  unfolding fenced_tail ◌>>=◌
  fenced_tail-Settles approval identity deadline w calm =
      let consumed = consume c key j deadline identity approval w in
      close-Settles (after_consume c key j deadline consumed).0
        (after_consume c key j deadline consumed).1
        (after_consume-Ends c key j deadline consumed
          ((consume-Keeps c key j allow-Calm deadline identity approval).at w calm))

  run_fenced-Settles :
      (approval : Value) (w : World h)
      → Calm w.trace
      → Settles (run_fenced c key j approval w).1.trace
  unfolding run_fenced ◌>>=◌
  run_fenced-Settles approval w calm =
      fence_taken (take_fence c key j w).0 (take_fence c key j w).1
        ((take_fence-Keeps c key j (allow-Calm fenced tt)).at w calm)
    where
      fence_taken :
          (r : Result (Fields × ℕ)) (w' : World h)
          → Calm w'.trace
          → Settles
              (continue r
                (λ (identity, deadline). fenced_tail c key j approval identity deadline)
                w').1.trace
      fence_taken (ok (identity, deadline)) w' calm =
          fenced_tail-Settles approval identity deadline w' calm
      fence_taken (err e) w' calm = inl calm

  after_preflight-Settles :
      (approval : Value) (x : Result (Unit {0}) × World h)
      → Calm x.1.trace
      → Settles (after_preflight c key j approval x).1.trace
  unfolding after_preflight
  after_preflight-Settles approval (ok _, w) calm = run_fenced-Settles approval w calm
  after_preflight-Settles approval (err e, w) calm =
      inl ((reject_preflight-Keeps c key j allow-Calm e).at w calm)

  preflight-Settles :
      (approval : Value) (w : World h)
      → Calm w.trace
      → Settles (preflight c key j approval w).1.trace
  unfolding preflight
  preflight-Settles approval w calm =
      after_preflight-Settles approval (tracked prechecked (try_call (h.check_pre j.request)) w) (
        (Keeps-tracked prechecked (try_call (h.check_pre j.request)) (allow-Calm prechecked tt)
            (Keeps-try_call _)).at
          w calm)

  execute_job-Settles :
      (now : ℤ) (w : World h) → Calm w.trace → Settles (execute_job c key j now w).1.trace
  unfolding execute_job ◌>>=◌
  execute_job-Settles now w calm =
      admitted (admit c key j now w).0 (admit c key j now w).1
        ((admit-Keeps c key j allow-Calm now).at w calm)
    where
      admitted :
          (r : Result Value) (w' : World h)
          → Calm w'.trace
          → Settles (continue r (preflight c key j) w').1.trace
      admitted (ok approval) w' calm = preflight-Settles approval w' calm
      admitted (err e) w' calm = inl calm

-- In every run, with any host and however it ends: if the backend was asked to mutate, then the run
-- tried to append `committed` to the ledger, or asked the backend to roll back, or failed to append
-- `rollback_started`.
pub execute-Settles :
    (c : Codec) (key : List ℕ) {h : Host} (req : Value) (now : ℤ) (w : World h)
    → w.trace ≡ []
    → Settles (execute c key req now w).1.trace
unfolding execute ◌>>=◌ lift
execute-Settles c key {h} req now w fresh = elim (Result-cases (validate_request c req now)) [
  | inl (e, refused) ↦ rw (refused) (inl (rw fresh refl))
  | inr (_, accepted) ↦ elim (Result-cases (job_of req)) [
    | inl (e, refused) ↦ rw (accepted, refused) (inl (rw fresh refl))
    | inr (j, found) ↦ rw (accepted, found) (execute_job-Settles c key j now w (rw fresh refl))
  ]
]

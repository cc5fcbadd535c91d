-- ===== src/Broker/Execute/Stable.antt =====
-- Properties of the ledger that appends keep, over a run.
use hermes_keel.Base.{ℕ, String, List}
use hermes_keel.Base.Int.{ℤ}
use hermes_keel.Base.Result.{Error, Result, ok, err}
use hermes_keel.Json.{Value, null, Fields}
use hermes_keel.Json.Codec.{Codec}
use hermes_keel.Broker.Ledger.Chain.{Ledger}
use hermes_keel.Broker.Ledger.Append.{Outcome, append_chain}
use hermes_keel.Broker.Execute.World.{Host, World, Exec, try_call, tracked}
use hermes_keel.Broker.Execute.Steps.{
  Job, append_body, make_phase, append_phase, append_result, check_fence, validate_fence,
  take_fence, open_board,
}
use hermes_keel.Broker.Execute.Run.{
  Ending, final, to_append, admit, consume, start, check_health, mutate_and_check, recover, undo,
  call_rollback, rollback_result, settled, pending, after_mutation, after_start, guarded,
  after_consume, after_result, persistence_failed, close, release, reject_preflight, run_fenced,
  fenced_tail, after_preflight, preflight, execute_job, execute, phase_name,
}
use hermes_keel.Broker.Execute.Closed.{
  Stable-pure, Stable-lift, Stable-try_call, Stable-read, Stable-tracked, Stable-bind, Stable,
  stable_rules,
}

module _ (c : Codec) (key : List ℕ) (j : Job) {h : Host} {P : Ledger → Type 0}
    (closed : (euid : ℕ) (outcome : Outcome) (l : Ledger) (key : List ℕ) (body : Fields)
      → P l
      → P (append_chain c euid outcome l key body).1) where
  append_body-Stable : (body : Fields) → Stable P (append_body c key j {h = h} body)
  unfolding append_body
  append_body-Stable body = record {
    at = λ w p. closed h.euid (h.outcome w.state).0 w.ledger key body p;
  }

  make_phase-Stable :
      (name : String) (evidence : Fields) → Stable P (make_phase c key j {h = h} name evidence)
  unfolding make_phase
  make_phase-Stable name evidence = search stable_rules

  append_result-Stable :
      (name : String) (body : Fields) → Stable P (append_result c key j {h = h} name body)
  unfolding append_result
  append_result-Stable name body = search (stable_rules, append_body-Stable)

  append_phase-Stable :
      (name : String) (evidence : Fields) → Stable P (append_phase c key j {h = h} name evidence)
  unfolding append_phase
  append_phase-Stable name evidence = search (stable_rules, append_body-Stable, make_phase-Stable)

  check_fence-Stable : (deadline : ℕ) → Stable P (check_fence c key j {h = h} deadline)
  unfolding check_fence
  check_fence-Stable deadline = search stable_rules depth 8

  validate_fence-Stable : (deadline : ℕ) → Stable P (validate_fence c key j {h = h} deadline)
  unfolding validate_fence
  validate_fence-Stable deadline = search (stable_rules, check_fence-Stable)

  open_board-Stable : Stable P (open_board c key j {h = h})
  unfolding open_board
  open_board-Stable = search stable_rules

  pub take_fence-Stable : Stable P (take_fence c key j {h = h})
  unfolding take_fence
  take_fence-Stable = search (stable_rules, open_board-Stable) depth 7

  pub admit-Stable : (now : ℤ) → Stable P (admit c key j {h = h} now)
  unfolding admit
  admit-Stable now = search (stable_rules, Stable-read) depth 20

  pub consume-Stable :
      (deadline : ℕ) (identity : Fields) (approval : Value)
      → Stable P (consume c key j {h = h} deadline identity approval)
  unfolding consume
  consume-Stable deadline identity approval =
      search (stable_rules, append_phase-Stable, validate_fence-Stable) depth 12

  start-Stable : (deadline : ℕ) → Stable P (start c key j {h = h} deadline)
  unfolding start
  start-Stable deadline = search (stable_rules, append_phase-Stable, validate_fence-Stable) depth 12

  check_health-Stable : (deadline : ℕ) → Stable P (check_health c key j {h = h} deadline)
  unfolding check_health
  check_health-Stable deadline = Stable-bind _ _ (validate_fence-Stable deadline) (λ _.
      Stable-bind _ _ (Stable-tracked _ _ (Stable-try_call _)) (λ health.
        Stable-bind _ _ (Stable-lift _) (λ _. Stable-bind _ _ (append_phase-Stable _ _) (λ _.
          Stable-bind _ _ (validate_fence-Stable deadline)
            (λ _. Stable-bind _ _ (make_phase-Stable _ _) (λ _. Stable-pure _))))))

  mutate_and_check-Stable : (deadline : ℕ) → Stable P (mutate_and_check c key j {h = h} deadline)
  unfolding mutate_and_check
  mutate_and_check-Stable deadline = search (stable_rules, check_health-Stable)

  recover-Stable : (e : Error) → Stable P (recover c key j {h = h} e)
  unfolding recover
  recover-Stable e = search (stable_rules, make_phase-Stable, append_result-Stable) depth 8

  pub reject_preflight-Stable : (e : Error) → Stable P (reject_preflight c key j {h = h} e)
  unfolding reject_preflight
  reject_preflight-Stable e = search (stable_rules, make_phase-Stable, append_result-Stable) depth 8

  persistence_failed-Stable : (e : Error) → Stable P (persistence_failed c key j {h = h} e)
  unfolding persistence_failed
  persistence_failed-Stable e =
      search (stable_rules, make_phase-Stable, append_result-Stable) depth 8

  rollback_result-Stable :
      (e : Error) (r : Result Value) → Stable P (rollback_result c key j {h = h} e r)
  unfolding rollback_result
  rollback_result-Stable e (err x) = make_phase-Stable _ _
  rollback_result-Stable e (ok null) = make_phase-Stable _ _
  rollback_result-Stable e (ok _) = make_phase-Stable _ _

  call_rollback-Stable : (e : Error) → Stable P (call_rollback c key j {h = h} e)
  unfolding call_rollback tracked try_call
  call_rollback-Stable e = record { at = λ w p. (rollback_result-Stable e _).at _ p }

  undo-Stable : (e : Error) → Stable P (undo c key j {h = h} e)
  unfolding undo
  undo-Stable e = search (stable_rules, append_phase-Stable, call_rollback-Stable)

  settled-Stable : (m : Exec h Fields) → Stable P m → Stable P (λ w. settled c key j (m w))
  unfolding settled
  settled-Stable m k = record { at = λ w p. of_result (m w) (k.at w p) }
    where
      of_result : (x : Result Fields × World h) → P x.1.ledger → P (settled c key j x).1.ledger
      of_result (ok r, w) p = p
      of_result (err e, w) p = p

  pending-Stable : (m : Exec h Fields) → Stable P m → Stable P (λ w. pending c key j (m w))
  unfolding pending
  pending-Stable m k = record { at = λ w p. of_result (m w) (k.at w p) }
    where
      of_result : (x : Result Fields × World h) → P x.1.ledger → P (pending c key j x).1.ledger
      of_result (ok r, w) p = p
      of_result (err e, w) p = p

  after_mutation-Stable :
      (x : Result Fields × World h) → P x.1.ledger → P (after_mutation c key j x).1.ledger
  unfolding after_mutation
  after_mutation-Stable (ok r, w) p = p
  after_mutation-Stable (err e, w) p = (pending-Stable (undo c key j e) (undo-Stable e)).at w p

  after_start-Stable :
      (deadline : ℕ) (x : Result (Unit {0}) × World h)
      → P x.1.ledger
      → P (after_start c key j deadline x).1.ledger
  unfolding after_start
  after_start-Stable deadline (ok _, w) p =
      after_mutation-Stable (mutate_and_check c key j deadline w)
        ((mutate_and_check-Stable deadline).at w p)
  after_start-Stable deadline (err e, w) p =
      (settled-Stable (recover c key j e) (recover-Stable e)).at w p

  pub guarded-Stable : (deadline : ℕ) → Stable P (guarded c key j {h = h} deadline)
  unfolding guarded release
  guarded-Stable deadline = record {
    at = λ w p.
        after_start-Stable deadline (start c key j deadline w) ((start-Stable deadline).at w p);
  }

  after_consume-Stable :
      (deadline : ℕ) (x : Result (Unit {0}) × World h)
      → P x.1.ledger
      → P (after_consume c key j deadline x).1.ledger
  unfolding after_consume release
  after_consume-Stable deadline (ok _, w) p = (guarded-Stable deadline).at w p
  after_consume-Stable deadline (err e, w) p = p

  after_result-Stable :
      (result : Fields) (x : Result Fields × World h)
      → P x.1.ledger
      → P (after_result c key j result x).1.ledger
  unfolding after_result
  after_result-Stable result (ok _, w) p = p
  after_result-Stable result (err e, w) p = (persistence_failed-Stable e).at w p

  pub close-Stable : (ending : Ending) → Stable P (close c key j {h = h} ending)
  unfolding close
  close-Stable (final r) = record { at = λ w p. p }
  close-Stable (to_append r) = record {
    at = λ w p.
        after_result-Stable r (append_result c key j (phase_name r) r w)
          ((append_result-Stable (phase_name r) r).at w p);
  }

  fenced_tail-Stable :
      (approval : Value) (identity : Fields) (deadline : ℕ)
      → Stable P (fenced_tail c key j {h = h} approval identity deadline)
  unfolding fenced_tail
  fenced_tail-Stable approval identity deadline =
      Stable-bind _ _
        (record {
          at = λ w p.
              after_consume-Stable deadline (consume c key j deadline identity approval w)
                ((consume-Stable deadline identity approval).at w p);
        })
        close-Stable

  run_fenced-Stable : (approval : Value) → Stable P (run_fenced c key j {h = h} approval)
  unfolding run_fenced
  run_fenced-Stable approval =
      Stable-bind _ _ take_fence-Stable
        (λ (identity, deadline). fenced_tail-Stable approval identity deadline)

  after_preflight-Stable :
      (approval : Value) (x : Result (Unit {0}) × World h)
      → P x.1.ledger
      → P (after_preflight c key j approval x).1.ledger
  unfolding after_preflight
  after_preflight-Stable approval (ok _, w) p = (run_fenced-Stable approval).at w p
  after_preflight-Stable approval (err e, w) p = (reject_preflight-Stable e).at w p

  execute_job-Stable : (now : ℤ) → Stable P (execute_job c key j {h = h} now)
  unfolding execute_job preflight tracked try_call
  execute_job-Stable now =
      Stable-bind _ _ (admit-Stable now)
        (λ approval. record { at = λ w p. after_preflight-Stable approval _ p })

module _ (c : Codec) (key : List ℕ) {h : Host} {P : Ledger → Type 0}
    (closed : (euid : ℕ) (outcome : Outcome) (l : Ledger) (key : List ℕ) (body : Fields)
      → P l
      → P (append_chain c euid outcome l key body).1) where
  pub execute-Stable : (req : Value) (now : ℤ) → Stable P (execute c key {h = h} req now)
  unfolding execute
  execute-Stable req now =
      Stable-bind _ _ (Stable-lift _)
        (λ _. Stable-bind _ _ (Stable-lift _) (λ j. execute_job-Stable c key j closed now))

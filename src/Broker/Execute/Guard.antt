-- ===== src/Broker/Execute/Guard.antt =====
-- The events before an attempt to mutate.
use hermes_keel.Base.{ℕ, Bool, true, false, List, [], ◌∷◌, ◌≡◌, refl, ap, ◌∙◌, inl, inr}
use hermes_keel.Base.Int.{ℤ}
use hermes_keel.Base.Result.{Result, ok, err, Result-cases}
use hermes_keel.Json.{Value, Fields}
use hermes_keel.Json.Codec.{Codec}
use hermes_keel.Broker.Request.{validate_request}
use hermes_keel.Broker.Execute.World.{
  Host, World, Step, Event, done, failed, append, prechecked, fenced, validated, mutated, mark,
  lift, try_call, tracked, continue, ◌>>=◌,
}
use hermes_keel.Broker.Execute.Steps.{Job, take_fence}
use hermes_keel.Broker.Execute.Run.{
  Ending, admit, consume, start, check_health, mutate_and_check, recover, undo, after_mutation,
  after_start, guarded, after_consume, close, run_fenced, fenced_tail, after_preflight, preflight,
  execute_job, execute, job_of,
}
use hermes_keel.Broker.Execute.Keeps.{Allows, take_fence-Keeps, Keeps-continue}
use hermes_keel.Broker.Execute.Quiet.{
  IsQuiet, check_health-Keeps, recover-Keeps, reject_preflight-Keeps, admit-Keeps, consume-Keeps,
  start-Keeps, undo-Keeps, close-Keeps, release-Keeps, settled-Keeps, pending-Keeps,
}
use hermes_keel.Broker.Execute.Order.{
  over, mark_ok, admit-Emits, take_fence-Emits, consume-Emits, start-Emits,
}

abbrev pub is_mutation : Event → Bool
is_mutation (done mutated) = true
is_mutation (failed mutated) = true
is_mutation _ = false

-- The whole trace before a mutation, the last event first: the preflight passed, the board was
-- opened under its lock, and each record was appended between two checks of the fence.
abbrev pub before_mutation : List Event
before_mutation =
    done validated
    ∷ done (append "mutation_started")
    ∷ done validated
    ∷ done (append "consumed")
    ∷ done validated
    ∷ done (append "prepared")
    ∷ done fenced
    ∷ done prechecked
    ∷ []

abbrev start_events : List Event
start_events = done validated ∷ done (append "mutation_started") ∷ done validated ∷ []

abbrev consume_events : List Event
consume_events = done (append "consumed") ∷ done validated ∷ done (append "prepared") ∷ []

-- An attempt to mutate, also one that raised, needs exactly that trace before it.
abbrev pub FollowsGuard : Event → List Event → Type 0
FollowsGuard (done mutated) t = t ≡ before_mutation
FollowsGuard (failed mutated) t = t ≡ before_mutation
FollowsGuard _ t = Unit

-- Every attempt to mutate comes directly after exactly that trace.
abbrev pub IsGuarded : List Event → Type 0
IsGuarded [] = Unit
IsGuarded (e ∷ t) = FollowsGuard e t × IsGuarded t

allow : (s : Step) → IsQuiet s → Allows IsGuarded s
allow mutated e t g = absurd e
allow prechecked e t g = ((tt, g), (tt, g))
allow _ e t g = ((tt, g), (tt, g))

before_mutation-IsGuarded : IsGuarded before_mutation
before_mutation-IsGuarded = (tt, (tt, (tt, (tt, (tt, (tt, (tt, (tt, tt))))))))

prechecked-IsGuarded : {A : Type 0} (r : Result A) → IsGuarded (mark prechecked r ∷ [])
prechecked-IsGuarded (ok a) = (tt, tt)
prechecked-IsGuarded (err e) = (tt, tt)

mutation-IsGuarded :
    {A : Type 0} (r : Result A) (t : List Event)
    → t ≡ before_mutation
    → IsGuarded (mark mutated r ∷ t)
mutation-IsGuarded (ok a) t e = (e, rw e before_mutation-IsGuarded)
mutation-IsGuarded (err x) t e = (e, rw e before_mutation-IsGuarded)

module _ (c : Codec) (key : List ℕ) (j : Job) {h : Host} where
  after_mutation-IsGuarded :
      (x : Result Fields × World h)
      → IsGuarded x.1.trace
      → IsGuarded (after_mutation c key j x).1.trace
  unfolding after_mutation
  after_mutation-IsGuarded (ok r, w) g = g
  after_mutation-IsGuarded (err e, w) g =
      pending-Keeps c key j allow (undo c key j e w) ((undo-Keeps c key j allow e).at w g)

  mutate_and_check-IsGuarded :
      (deadline : ℕ) (w : World h)
      → w.trace ≡ before_mutation
      → IsGuarded (mutate_and_check c key j deadline w).1.trace
  unfolding mutate_and_check ◌>>=◌
  mutate_and_check-IsGuarded deadline w at_guard =
      let (r, s) = h.mutate j.request w.state in
      Keeps-continue r (λ _. check_health c key j deadline) _
        (λ _. check_health-Keeps c key j allow deadline) (mutation-IsGuarded r w.trace at_guard)

  after_start-IsGuarded :
      (deadline : ℕ) (x : Result (Unit {0}) × World h)
      → IsGuarded x.1.trace
      → (x.0 ≡ ok tt → x.1.trace ≡ before_mutation)
      → IsGuarded (after_start c key j deadline x).1.trace
  unfolding after_start
  after_start-IsGuarded deadline (ok _, w) g at_guard =
      after_mutation-IsGuarded (mutate_and_check c key j deadline w)
        (mutate_and_check-IsGuarded deadline w (at_guard refl))
  after_start-IsGuarded deadline (err e, w) g at_guard =
      settled-Keeps c key j allow (recover c key j e w) ((recover-Keeps c key j allow e).at w g)

  guarded-IsGuarded :
      (deadline : ℕ) (w : World h)
      → IsGuarded w.trace
      → over start_events w.trace ≡ before_mutation
      → IsGuarded (guarded c key j deadline w).1.trace
  unfolding guarded
  guarded-IsGuarded deadline w g at_guard =
      release-Keeps c key j allow (after_start c key j deadline (start c key j deadline w)) (
        after_start-IsGuarded deadline (start c key j deadline w)
          ((start-Keeps c key j allow deadline).at w g)
          (λ e. (start-Emits c key j deadline).at w tt e ∙ at_guard))

  after_consume-IsGuarded :
      (deadline : ℕ) (x : Result (Unit {0}) × World h)
      → IsGuarded x.1.trace
      → (x.0 ≡ ok tt → over start_events x.1.trace ≡ before_mutation)
      → IsGuarded (after_consume c key j deadline x).1.trace
  unfolding after_consume
  after_consume-IsGuarded deadline (ok _, w) g at_guard =
      guarded-IsGuarded deadline w g (at_guard refl)
  after_consume-IsGuarded deadline (err e, w) g at_guard =
      release-Keeps c key j allow {A = Ending} (err e, w) g

  run_tail-IsGuarded :
      (approval : Value) (identity : Fields) (deadline : ℕ) (w : World h)
      → w.trace ≡ done fenced ∷ done prechecked ∷ []
      → IsGuarded (fenced_tail c key j approval identity deadline w).1.trace
  unfolding fenced_tail ◌>>=◌
  run_tail-IsGuarded approval identity deadline w fresh =
      let consumed = consume c key j deadline identity approval w in
      let g : IsGuarded w.trace = rw fresh (tt, (tt, tt)) in
      Keeps-continue (after_consume c key j deadline consumed).0 (close c key j)
        (after_consume c key j deadline consumed).1 (close-Keeps c key j allow)
        (after_consume-IsGuarded deadline consumed
          ((consume-Keeps c key j allow deadline identity approval).at w g)
          (λ e. ap (over start_events) (
            (consume-Emits c key j deadline identity approval).at w tt e
            ∙ ap (over consume_events) fresh)))

  run_fenced-IsGuarded :
      (approval : Value) (w : World h)
      → w.trace ≡ done prechecked ∷ []
      → IsGuarded (run_fenced c key j approval w).1.trace
  unfolding run_fenced ◌>>=◌
  run_fenced-IsGuarded approval w fresh =
      let g : IsGuarded w.trace = rw fresh (tt, tt) in
      fence_taken (take_fence c key j w).0 (take_fence c key j w).1
        ((take_fence-Keeps c key j (allow fenced tt)).at w g)
        (λ a e. (take_fence-Emits c key j).at w a e ∙ ap (over (done fenced ∷ [])) fresh)
    where
      fence_taken :
          (r : Result (Fields × ℕ)) (w' : World h)
          → IsGuarded w'.trace
          → ((a : Fields × ℕ) → r ≡ ok a → w'.trace ≡ done fenced ∷ done prechecked ∷ [])
          → IsGuarded
              (continue r
                (λ (identity, deadline). fenced_tail c key j approval identity deadline)
                w').1.trace
      fence_taken (ok (identity, deadline)) w' g at_fence =
          run_tail-IsGuarded approval identity deadline w' (at_fence (identity, deadline) refl)
      fence_taken (err e) w' g at_fence = g

  after_preflight-IsGuarded :
      (approval : Value) (x : Result (Unit {0}) × World h)
      → IsGuarded x.1.trace
      → (x.0 ≡ ok tt → x.1.trace ≡ done prechecked ∷ [])
      → IsGuarded (after_preflight c key j approval x).1.trace
  unfolding after_preflight
  after_preflight-IsGuarded approval (ok _, w) g fresh =
      run_fenced-IsGuarded approval w (fresh refl)
  after_preflight-IsGuarded approval (err e, w) g fresh =
      (reject_preflight-Keeps c key j allow e).at w g

  preflight-IsGuarded :
      (approval : Value) (w : World h)
      → w.trace ≡ []
      → IsGuarded (preflight c key j approval w).1.trace
  unfolding preflight tracked try_call
  preflight-IsGuarded approval w fresh =
      let (r, s) = h.check_pre j.request w.state in
      after_preflight-IsGuarded approval
        (r, record w { state = s; trace = mark prechecked r ∷ w.trace })
        (rw fresh (prechecked-IsGuarded r)) (λ e. cc (e, fresh, mark_ok prechecked r tt e))

  execute_job-IsGuarded :
      (now : ℤ) (w : World h) → w.trace ≡ [] → IsGuarded (execute_job c key j now w).1.trace
  unfolding execute_job ◌>>=◌
  execute_job-IsGuarded now w fresh =
      admitted (admit c key j now w).0 (admit c key j now w).1
        ((admit-Keeps c key j allow now).at w (rw fresh tt))
        (λ a e. (admit-Emits c key j now).at w a e ∙ fresh)
    where
      admitted :
          (r : Result Value) (w' : World h)
          → IsGuarded w'.trace
          → ((a : Value) → r ≡ ok a → w'.trace ≡ [])
          → IsGuarded (continue r (preflight c key j) w').1.trace
      admitted (ok approval) w' g at_start =
          preflight-IsGuarded approval w' (at_start approval refl)
      admitted (err e) w' g at_start = g

-- In every run, with any host and however it ends, each attempt to mutate comes directly after the
-- same eight events: the preflight passed, the board was opened and locked, `prepared`, `consumed`
-- and `mutation_started` were appended to the ledger in this order, and the fence held after each of
-- them. So a run makes one attempt at most.
pub execute-IsGuarded :
    (c : Codec) (key : List ℕ) {h : Host} (req : Value) (now : ℤ) (w : World h)
    → w.trace ≡ []
    → IsGuarded (execute c key req now w).1.trace
unfolding execute ◌>>=◌ lift
execute-IsGuarded c key {h} req now w fresh = elim (Result-cases (validate_request c req now)) [
  | inl (e, refused) ↦ rw (refused) (rw fresh tt)
  | inr (_, accepted) ↦ elim (Result-cases (job_of req)) [
    | inl (e, refused) ↦ rw (accepted, refused) (rw fresh tt)
    | inr (j, found) ↦ rw (accepted, found) (execute_job-IsGuarded c key j now w fresh)
  ]
]

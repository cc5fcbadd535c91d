-- ===== src/Broker/Execute/Covered.antt =====
-- The parts of a run, and the records that spend its request.
use mathlib.Core.Path.{subst}
use hermes_keel.Base.{
  ℕ, String, ◌≡◌, refl, sym, ap, ◌⊎◌, inl, inr, Bool, true, not, List, [], ◌∷◌, all,
}
use hermes_keel.Base.Int.{ℤ}
use hermes_keel.Base.Result.{Result, ok, err, ok_injective, >>=-eq-ok}
use hermes_keel.Json.{Value, Fields}
use hermes_keel.Json.Access.{item}
use hermes_keel.Json.Codec.{Codec, IsLawful}
use hermes_keel.Broker.Request.{validate_request}
use hermes_keel.Broker.Ledger.Chain.{digest}
use hermes_keel.Broker.Execute.World.{
  Host, World, Exec, Step, Event, mutated, prechecked, lift, try_call, tracked, mark, continue,
  ◌>>=◌,
}
use hermes_keel.Broker.Execute.Steps.{Job, take_fence}
use hermes_keel.Broker.Execute.Run.{
  admit, consume, after_consume, close, release, reject_preflight, run_fenced, fenced_tail,
  after_preflight, preflight, execute_job, execute, job_of, expect_text, expect_int,
}
use hermes_keel.Broker.Execute.Keeps.{Keeps, Allows, take_fence-Keeps}
use hermes_keel.Broker.Execute.Quiet.{
  IsQuiet, reject_preflight-Keeps, admit-Keeps, consume-Keeps, close-Keeps,
}
use hermes_keel.Broker.Execute.Guard.{is_mutation}
use hermes_keel.Broker.Execute.Spent.{IsSpent, append_chain-IsSpent}
use hermes_keel.Broker.Execute.Closed.{Stable}
use hermes_keel.Broker.Execute.Stable.{
  take_fence-Stable, admit-Stable, consume-Stable, reject_preflight-Stable, guarded-Stable,
  close-Stable,
}
use hermes_keel.Broker.Execute.Ensured.{consume-Ensures}

-- No event of the trace is an attempt to mutate.
abbrev pub is_unmutated : List Event → Bool
is_unmutated t = all (λ e. not (is_mutation e)) t

-- The events of every step but the mutation may be added.
allow : (s : Step) → IsQuiet s → Allows (λ t. is_unmutated t ≡ true) s
allow mutated e t g = absurd e
allow prechecked e t g = (g, g)
allow _ e t g = (g, g)

-- Nothing was mutated, or the ledger holds the request as spent.
abbrev pub Covered : (c : Codec) (request_hash : String) {h : Host} → World h → Type 0
Covered c request_hash w = (is_unmutated w.trace ≡ true) ⊎ IsSpent c request_hash w.ledger

module _ (c : Codec) (request_hash : String) {h : Host} {A : Type 0} where
  covered :
      (m : Exec h A) (w : World h)
      → Keeps (λ t. is_unmutated t ≡ true) m
      → Stable (IsSpent c request_hash) m
      → Covered c request_hash w
      → Covered c request_hash (m w).1
  covered m w k s (inl unmutated) = inl (k.at w unmutated)
  covered m w k s (inr spent) = inr (s.at w spent)

  Covered-continue :
      {B : Type 0} (r : Result B) (f : B → Exec h A) (w : World h)
      → ((b : B) → r ≡ ok b → Covered c request_hash (f b w).1)
      → Covered c request_hash w
      → Covered c request_hash (continue r f w).1
  Covered-continue (ok b) f w k q = k b refl
  Covered-continue (err e) f w k q = q

module _ (c : Codec) (law : IsLawful c) (key : List ℕ) (j : Job) {h : Host} where
  after_consume-Covered :
      (deadline : ℕ) (x : Result (Unit {0}) × World h)
      → Covered c (digest c j.request) x.1
      → (x.0 ≡ ok tt → IsSpent c (digest c j.request) x.1.ledger)
      → Covered c (digest c j.request) (after_consume c key j deadline x).1
  unfolding after_consume release
  after_consume-Covered deadline (ok _, w) q spent = inr (
      (guarded-Stable c key j (append_chain-IsSpent c law (digest c j.request)) deadline).at w
        (spent refl))
  after_consume-Covered deadline (err e, w) q spent = q

  fenced_tail-Covered :
      (approval : Value) (identity : Fields) (deadline : ℕ) (w : World h)
      → Covered c (digest c j.request) w
      → Covered c (digest c j.request) (fenced_tail c key j approval identity deadline w).1
  unfolding fenced_tail ◌>>=◌
  fenced_tail-Covered approval identity deadline w q =
      let closed = append_chain-IsSpent c law (digest c j.request) in
      let consumed = consume c key j deadline identity approval w in
      let q' =
        after_consume-Covered deadline consumed
          (covered c (digest c j.request) (consume c key j deadline identity approval) w
            (consume-Keeps c key j allow deadline identity approval)
            (consume-Stable c key j closed deadline identity approval) q)
          (λ e. (consume-Ensures c law key j deadline identity approval).at w tt e) in
      Covered-continue c (digest c j.request) (after_consume c key j deadline consumed).0
        (close c key j) (after_consume c key j deadline consumed).1
        (λ ending _.
          covered c (digest c j.request) (close c key j ending) _ (close-Keeps c key j allow ending)
            (close-Stable c key j closed ending) q')
        q'

  run_fenced-Covered :
      (approval : Value) (w : World h)
      → Covered c (digest c j.request) w
      → Covered c (digest c j.request) (run_fenced c key j approval w).1
  unfolding run_fenced ◌>>=◌
  run_fenced-Covered approval w q =
      let q' =
        covered c (digest c j.request) (take_fence c key j) w
          (take_fence-Keeps c key j (allow Step.fenced tt))
          (take_fence-Stable c key j (append_chain-IsSpent c law (digest c j.request))) q in
      Covered-continue c (digest c j.request) (take_fence c key j w).0
        (λ (identity, deadline). fenced_tail c key j approval identity deadline)
        (take_fence c key j w).1
        (λ (identity, deadline) _. fenced_tail-Covered approval identity deadline _ q') q'

  after_preflight-Covered :
      (approval : Value) (x : Result (Unit {0}) × World h)
      → Covered c (digest c j.request) x.1
      → Covered c (digest c j.request) (after_preflight c key j approval x).1
  unfolding after_preflight
  after_preflight-Covered approval (ok _, w) q = run_fenced-Covered approval w q
  after_preflight-Covered approval (err e, w) q =
      covered c (digest c j.request) (reject_preflight c key j e) w
        (reject_preflight-Keeps c key j allow e)
        (reject_preflight-Stable c key j (append_chain-IsSpent c law (digest c j.request)) e) q

  execute_job-Covered :
      (now : ℤ) (w : World h)
      → Covered c (digest c j.request) w
      → Covered c (digest c j.request) (execute_job c key j now w).1
  unfolding execute_job preflight tracked try_call ◌>>=◌
  execute_job-Covered now w q =
      let q' =
        covered c (digest c j.request) (admit c key j now) w (admit-Keeps c key j allow now)
          (admit-Stable c key j (append_chain-IsSpent c law (digest c j.request)) now) q in
      Covered-continue c (digest c j.request) (admit c key j now w).0 (preflight c key j)
        (admit c key j now w).1
        (λ approval _. after_preflight-Covered approval _ (
          prechecked_Covered (h.check_pre j.request (admit c key j now w).1.state).0
            (admit c key j now w).1 q'))
        q'
    where
      prechecked_Covered :
          (r : Result (Unit {0})) (w : World h)
          → Covered c (digest c j.request) w
          → (is_unmutated (mark prechecked r ∷ w.trace) ≡ true)
            ⊎ IsSpent c (digest c j.request) w.ledger
      prechecked_Covered (ok a) w q = q
      prechecked_Covered (err e) w q = q

pub job_of-request : (req : Value) (j : Job) → job_of req ≡ ok j → j.request ≡ req
unfolding job_of
job_of-request req j h =
    let (task, _, h1) = >>=-eq-ok (item "requester_task" req) _ h in
    let (_, _, h2) = >>=-eq-ok (expect_text task) _ h1 in
    let (run, _, h3) = >>=-eq-ok (item "requester_run" req) _ h2 in
    let (_, _, h4) = >>=-eq-ok (expect_int run) _ h3 in
    let (nonce, _, h5) = >>=-eq-ok (item "nonce" req) _ h4 in
    let (_, _, h6) = >>=-eq-ok (expect_text nonce) _ h5 in
    let (_, _, h7) = >>=-eq-ok (item "operation_id" req) _ h6 in
    ap (λ (i : Job). i.request) (sym (ok_injective _ j h7))

-- A run that attempted to mutate leaves a ledger on which the request is spent.
pub execute-Covered :
    (c : Codec) (key : List ℕ) {h : Host} (req : Value) (now : ℤ) (w : World h)
    → IsLawful c
    → w.trace ≡ []
    → Covered c (digest c req) (execute c key req now w).1
unfolding execute ◌>>=◌ lift
execute-Covered c key {h} req now w law fresh =
    Covered-continue c (digest c req) (validate_request c req now) _ w
      (λ _ _.
        Covered-continue c (digest c req) (job_of req) (λ j. execute_job c key j now) w
          (λ j found.
            subst (λ r. Covered c (digest c r) (execute_job c key j now w).1)
              (job_of-request req j found) (execute_job-Covered c law key j now w start))
          start)
      start
  where
    start : {request_hash : String} → Covered c request_hash w
    start = inl (rw fresh refl)

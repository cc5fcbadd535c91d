-- ===== src/Broker/Execute/Once.antt =====
-- Runs of one request on one ledger, with any runs between them.
pub mod Tests
use mathlib.Core.Path.{subst}
use hermes_keel.Base.{
  ℕ, String, ◌≡◌, ◌≢◌, refl, sym, ap, ◌∙◌, inl, inr, Bool, true, false, not, Option, none, some,
  List, [], ◌∷◌, all,
}
use hermes_keel.Base.Int.{ℤ}
use hermes_keel.Base.Result
use hermes_keel.Base.Result.{
  Result, Error, ok, err, Result-cases, ok_injective, reject_if, rejected, >>-eq-ok,
}
use hermes_keel.Json.{Value}
use hermes_keel.Json.Codec.{Codec, IsLawful}
use hermes_keel.Broker.Request.{validate_request}
use hermes_keel.Broker.Ledger.File.{File}
use hermes_keel.Broker.Ledger.Chain.{Ledger, digest, verify_chain, verify_file}
use hermes_keel.Broker.Ledger.RoundTrip.{prior_records}
use hermes_keel.Broker.Execute.World.{
  Host, World, Exec, pure, call, try_call, lift, continue, ◌>>=◌, ◌>>◌,
}
use hermes_keel.Broker.Execute.Approval.{is_spent, find_approval}
use hermes_keel.Broker.Execute.Steps.{Job}
use hermes_keel.Broker.Execute.Run.{admit, preflight, execute_job, execute, job_of, file_records}
use hermes_keel.Broker.Execute.Spent.{IsSpent, append_chain-IsSpent}
use hermes_keel.Broker.Execute.Stable.{execute-Stable}
use hermes_keel.Broker.Execute.Covered.{is_unmutated, Covered, job_of-request, execute-Covered}

-- What a ledger becomes by runs of `execute`, for any requests, by any hosts and with any keys.
pub data Later (c : Codec) (l : Ledger) : Ledger → Type 1 where
  here : Later c l l
  ran :
      (key : List ℕ) {h : Host} (req : Value) (now : ℤ) (w : World h)
      → Later c l w.ledger
      → Later c l (execute c key req now w).1.ledger

-- The run raises, and neither an event nor an append has happened.
pub record IsRefused {h : Host} {A : Type 0} (w : World h) (x : Result A × World h) : Type 0 where
  pub error : Error
  pub raises : x.0 ≡ err error
  pub same_trace : x.1.trace ≡ w.trace
  pub same_ledger : x.1.ledger ≡ w.ledger

Later-IsSpent :
    (c : Codec) (request_hash : String) (l l' : Ledger)
    → IsLawful c
    → Later c l l'
    → IsSpent c request_hash l
    → IsSpent c request_hash l'
Later-IsSpent c request_hash l l' law here spent = spent
Later-IsSpent c request_hash l l' law (ran key req now w before) spent =
    (execute-Stable c key (append_chain-IsSpent c law request_hash) req now).at w
      (Later-IsSpent c request_hash l w.ledger law before spent)

prior_records_of_verified :
    (c : Codec) (euid : ℕ) (l : Ledger) (key : List ℕ) (rs : List Value)
    → verify_chain c euid l key ≡ ok rs
    → prior_records c euid l key ≡ ok rs
unfolding verify_chain
prior_records_of_verified c euid l key rs h = of_file l.file h
  where
    of_file :
        (f : Option File)
        → elim f [
          | none ↦ Result.◌>>◌ (reject_if l.has_checkpoint "ledger-checkpoint-mismatch") (ok [])
          | some f ↦ verify_file c euid l.path key f
        ]
          ≡ ok rs
        → elim f [ none ↦ ok [] | some f ↦ verify_chain c euid l key ] ≡ ok rs
    of_file none e =
        let (_, closing) = >>-eq-ok (reject_if l.has_checkpoint "ledger-checkpoint-mismatch") _ e in
        closing
    of_file (some f) e = h

-- A call that touches neither the trace nor the ledger.
record IsSilent {h : Host} {A : Type 0} (m : Exec h A) : Type 0 where
  at : (w : World h) → ((m w).1.trace ≡ w.trace) × ((m w).1.ledger ≡ w.ledger)

-- A call that raises on any ledger with the property, and touches nothing.
record Refuses {h : Host} {A : Type 0} (P : Ledger → Type 0) (m : Exec h A) : Type 0 where
  at : (w : World h) → P w.ledger → IsRefused w (m w)

IsRefused-continue :
    {h : Host} {A B : Type 0} (x : Result A × World h) (f : A → Exec h B) (w : World h)
    → IsRefused w x
    → IsRefused w (continue x.0 f x.1)
IsRefused-continue (ok a, w') f w r = absurd (ok≢err r.raises)
  where
    ok≢err : {e : Error} → ok a ≡ err e → ⊥
    ok≢err e = cc
IsRefused-continue (err e, w') f w r = record {
  error = e;
  raises = refl;
  same_trace = r.same_trace;
  same_ledger = r.same_ledger;
}

module _ {h : Host} where
  call-IsSilent : {A : Type 0} (f : h.State → A × h.State) → IsSilent (call {h = h} f)
  unfolding call
  call-IsSilent f = record { at = λ w. (refl, refl) }

  try_call-IsSilent :
      {A : Type 0} (f : h.State → Result A × h.State) → IsSilent (try_call {h = h} f)
  unfolding try_call
  try_call-IsSilent f = record { at = λ w. (refl, refl) }

  lift-IsSilent : {A : Type 0} (r : Result A) → IsSilent (lift {h = h} r)
  unfolding lift
  lift-IsSilent r = record { at = λ w. (refl, refl) }

  Refuses-bind :
      {A B : Type 0} {P : Ledger → Type 0} (m : Exec h A) (f : A → Exec h B)
      → IsSilent m
      → ((a : A) → Refuses P (f a))
      → Refuses P (m >>= f)
  unfolding ◌>>=◌
  Refuses-bind {A = A} {B = B} {P = P} m f silent k = record {
    at = λ w p.
        let (traces, ledgers) = silent.at w in
        after (m w).0 (m w).1 w traces ledgers (subst P (sym ledgers) p);
  }
    where
      after :
          (r : Result A) (w' w : World h)
          → w'.trace ≡ w.trace
          → w'.ledger ≡ w.ledger
          → P w'.ledger
          → IsRefused w (continue r f w')
      after (ok a) w' w traces ledgers p =
          let next = (k a).at w' p in
          record {
            error = next.error;
            raises = next.raises;
            same_trace = next.same_trace ∙ traces;
            same_ledger = next.same_ledger ∙ ledgers;
          }
      after (err e) w' w traces ledgers p = record {
        error = e;
        raises = refl;
        same_trace = traces;
        same_ledger = ledgers;
      }

module _ (c : Codec) (key : List ℕ) (j : Job) {h : Host} where
  -- the part of `admit` that reads the ledger
  replay_check : Value → Exec h Value
  replay_check approval = do
    prior ← λ (w : World h). (verify_chain c h.euid w.ledger key, w)
    spent ← lift (is_spent (digest c j.request) prior)
    lift (reject_if spent "replay")
    pure approval

  replay_check-Refuses :
      (approval : Value) → Refuses (IsSpent c (digest c j.request)) (replay_check approval)
  unfolding replay_check ◌>>=◌
  replay_check-Refuses approval = record {
    at = λ w spent. elim (Result-cases (verify_chain c h.euid w.ledger key)) [
      | inl (e, unread) ↦
          rw (unread) (record { error = e; raises = refl; same_trace = refl; same_ledger = refl })
      | inr (prior, read) ↦ elim (Result-cases (is_spent (digest c j.request) prior)) [
        | inl (e, unknown) ↦
            rw (read, unknown)
              (record { error = e; raises = refl; same_trace = refl; same_ledger = refl })
        | inr (true, found) ↦
            rw (read, found)
              (record {
                error = rejected "replay";
                raises = refl;
                same_trace = refl;
                same_ledger = refl;
              })
        | inr (false, free) ↦ absurd (
            spent.at h.euid key prior (prior_records_of_verified c h.euid w.ledger key prior read)
              free)
      ]
    ];
  }

  admit-Refuses : (now : ℤ) → Refuses (IsSpent c (digest c j.request)) (admit c key j {h = h} now)
  unfolding admit replay_check
  admit-Refuses now = Refuses-bind _ _ (try_call-IsSilent h.lock) (λ _.
      Refuses-bind _ _ (call-IsSilent h.approvals) (λ approvals.
        Refuses-bind _ _ (lift-IsSilent _)
          (λ found. Refuses-bind _ _ (lift-IsSilent _) replay_check-Refuses)))

  execute_job-IsRefused :
      (now : ℤ) (w : World h)
      → IsSpent c (digest c j.request) w.ledger
      → IsRefused w (execute_job c key j now w)
  unfolding execute_job ◌>>=◌
  execute_job-IsRefused now w spent =
      IsRefused-continue (admit c key j now w) (preflight c key j) w
        ((admit-Refuses now).at w spent)

execute-IsRefused :
    (c : Codec) (key : List ℕ) {h : Host} (req : Value) (now : ℤ) (w : World h)
    → IsSpent c (digest c req) w.ledger
    → IsRefused w (execute c key req now w)
unfolding execute ◌>>=◌ lift
execute-IsRefused c key req now w spent = elim (Result-cases (validate_request c req now)) [
  | inl (e, invalid) ↦
      rw (invalid) (record { error = e; raises = refl; same_trace = refl; same_ledger = refl })
  | inr (_, valid) ↦ elim (Result-cases (job_of req)) [
    | inl (e, invalid) ↦
        rw (valid, invalid)
          (record { error = e; raises = refl; same_trace = refl; same_ledger = refl })
    | inr (j, found) ↦
        rw (valid, found)
          (execute_job-IsRefused c key j now w
            (subst (λ r. IsSpent c (digest c r) w.ledger) (sym (job_of-request req j found)) spent))
  ]
]

-- If a run attempted to mutate, then a later run for a request with the same digest raises: it makes
-- no call of the preflight, the board or the backend, and appends nothing. Any runs may stand between
-- the two, for any requests and however they end; the hosts, the keys and the clocks of all of them
-- may differ. The JSON library writes one line, and reads back what it wrote.
pub execute_once :
    (c : Codec) (key key' : List ℕ) {h h' : Host} (req req' : Value) (now now' : ℤ) (w : World h)
    (w' : World h')
    → IsLawful c
    → w.trace ≡ []
    → is_unmutated (execute c key req now w).1.trace ≡ false
    → Later c (execute c key req now w).1.ledger w'.ledger
    → digest c req' ≡ digest c req
    → IsRefused w' (execute c key' req' now' w')
execute_once c key key' req req' now now' w w' law fresh mutated later same =
    execute-IsRefused c key' req' now' w' (
      subst (λ d. IsSpent c d w'.ledger) (sym same)
        (Later-IsSpent c (digest c req) _ w'.ledger law later
          (of_covered (execute-Covered c key req now w law fresh))))
  where
    of_covered :
        Covered c (digest c req) (execute c key req now w).1
        → IsSpent c (digest c req) (execute c key req now w).1.ledger
    of_covered (inl unmutated) = cc (unmutated, mutated)
    of_covered (inr spent) = spent

-- ===== src/Supervisor/Once.antt =====
-- What precedes a restart.
use hermes_keel.Base.{ℕ, ◌≡◌, refl, ◌∙◌, ap, sym, Bool, true, false, Option, List, [], ◌∷◌, arith}
use mathlib.Core.Path.{subst}
use hermes_keel.Base.Int.{ℤ}
use hermes_keel.Base.Result.{Result, Error, ok, err, ok_injective}
use hermes_keel.Json.{Value}
use hermes_keel.Json.Codec.{Codec}
use hermes_keel.Supervisor.State.{Unicode, service_state, require_pre_state}
use hermes_keel.Supervisor.Request.{validate_request}
use hermes_keel.Supervisor.Authorize.{TaskDb, authorize}
use hermes_keel.Supervisor.Receipts.{load_nonces, is_used}
use hermes_keel.Supervisor.Handle.{
  Host, Act, recorded, restarted, World, Caller, Step, next, ask, Plan, recorded_if, request_record,
  check_state, check_task, admit_used, admit, write_receipt, consume, restart_unless, finish, act,
  perform, handle,
}

module _ {h : Host} {B : Type 0} where
  next_return :
      (r : Result (Unit {0})) (w : World h) (b : B) {b' : B}
      → (next (r, w) (λ _ w'. (ok b, w'))).0 ≡ ok b'
      → (r ≡ ok tt) × ((next (r, w) (λ _ w'. (Result.ok b, w'))).1 ≡ w)
  unfolding next
  next_return (ok _) w b e = (refl, refl)
  next_return (err x) w b e = cc

module _ {h : Host} {A B : Type 0} where
  pub next_keeps :
      (P : World h → Type 0) (x : Result A × World h) (f : A → Step h B)
      → P x.1
      → ((a : A) (w : World h) → P w → P (f a w).1)
      → P (next x f).1
  unfolding next
  next_keeps P (ok a, w) f p k = k a w p
  next_keeps P (err e, w) f p k = p

  -- `next` with what each case knows of the first part
  pub next_at :
      (x : Result A × World h) (f : A → Step h B) (a : A) → x.0 ≡ ok a → next x f ≡ f a x.1
  unfolding next
  next_at (ok b, w) f a e = rw (ok_injective b a e) refl
  next_at (err x, w) f a e = cc

  next_split :
      (P : World h → Type 0) (x : Result A × World h) (f : A → Step h B)
      → ((e : Error) → P x.1)
      → ((a : A) → x.0 ≡ ok a → P (f a x.1).1)
      → P (next x f).1
  unfolding next
  next_split P (ok a, w) f p k = k a refl
  next_split P (err e, w) f p k = p e

  pub next_ok :
      (x : Result A × World h) (f : A → Step h B) {b : B}
      → (next x f).0 ≡ ok b
      → (a : A) × (x.0 ≡ ok a) × ((f a x.1).0 ≡ ok b)
  unfolding next
  next_ok (ok a, w) f e = (a, refl, e)
  next_ok (err x, w) f e = cc

module _ (c : Codec) (u : Unicode) (caller : Caller) where
  -- A restart comes directly after the receipt of a plan that is no dry run, which comes first.
  abbrev pub IsOnce : (Plan → Type 0) → List Act → Type 0
  IsOnce P [] = Unit
  IsOnce P (restarted ∷ t) =
      (p : Plan) × (at : ℤ) × P p
      × (p.request.dry_run ≡ false)
      × (t ≡ recorded (request_record c u caller p at) ∷ [])
  IsOnce P (recorded v ∷ t) = IsOnce P t

  recorded_if-IsOnce :
      (P : Plan → Type 0) (r : Result (Unit {0})) (v : Value) (t : List Act)
      → IsOnce P t
      → IsOnce P (recorded_if r v t)
  recorded_if-IsOnce P (ok _) v t k = k
  recorded_if-IsOnce P (err e) v t k = k

  recorded_if_ok :
      (r : Result (Unit {0})) (v : Value) (t : List Act)
      → r ≡ ok tt
      → recorded_if r v t ≡ recorded v ∷ t
  recorded_if_ok (ok _) v t e = refl
  recorded_if_ok (err x) v t e = cc

  module _ {h : Host} (P : Plan → Type 0) where
    -- the invariant of a run, on a world
    abbrev Once : World h → Type 0
    Once w = IsOnce P w.acts

    write_receipt-Once :
        (receipt : Value) (w : World h) → Once w → Once (write_receipt c u caller receipt w).1
    unfolding write_receipt
    write_receipt-Once receipt w k =
        next_keeps Once _ _ (recorded_if-IsOnce P _ receipt w.acts k) (λ _ w2 k2. k2)

    consume-Once : (p : Plan) (w : World h) → Once w → Once (consume c u caller p w).1
    unfolding consume
    consume-Once p w k = write_receipt-Once _ _ k

    finish-Once :
        (p : Plan) (request : Value) (restart_exit : Option ℤ) (w : World h)
        → Once w
        → Once (finish c u caller p request restart_exit w).1
    unfolding finish
    finish-Once p request restart_exit w k =
        next_keeps Once _ _ k
          (λ outcome w2 k2. next_keeps Once _ _ (write_receipt-Once _ _ k2) (λ result w4 k4. k4))

    pub write_receipt_ok :
        (receipt : Value) (w : World h) {v : Value}
        → (write_receipt c u caller receipt w).0 ≡ ok v
        → (write_receipt c u caller receipt w).1.acts ≡ recorded receipt ∷ w.acts
    unfolding write_receipt
    write_receipt_ok receipt w e =
        let (r, same) = next_return _ _ receipt e in
        ap World.acts same ∙ recorded_if_ok _ receipt w.acts r

    restart_unless-Once :
        (p : Plan) (at : ℤ) (w : World h) (dry_run : Bool)
        → P p
        → p.request.dry_run ≡ dry_run
        → w.acts ≡ recorded (request_record c u caller p at) ∷ []
        → Once (restart_unless c u caller dry_run w).1
    unfolding restart_unless
    restart_unless-Once p at w true adm e fresh = rw fresh tt
    restart_unless-Once p at w false adm e fresh = (p, at, adm, e, fresh)

    perform-Once : (p : Plan) (w : World h) → P p → w.acts ≡ [] → Once (perform c u caller p w).1
    unfolding perform act consume
    perform-Once p w adm fresh =
        next_split Once _ _ (λ e. consume-Once p w (rw fresh tt))
          (λ request written.
            next_keeps Once _ _
              (restart_unless-Once p (h.time w.state).0 _ p.request.dry_run adm refl (
                write_receipt_ok (request_record c u caller p (h.time w.state).0) (ask h.time w).1
                  written
                ∙ ap (λ t. recorded (request_record c u caller p (h.time w.state).0) ∷ t) fresh))
              (λ restart_exit w2 k2. finish-Once p request restart_exit w2 k2))

  pub write_receipt_value :
      {h : Host} (receipt : Value) (w : World h) {v : Value}
      → (write_receipt c u caller receipt w).0 ≡ ok v
      → v ≡ receipt
  unfolding write_receipt
  write_receipt_value receipt w e = let (_, _, same) = next_ok _ _ e in sym (ok_injective _ _ same)

-- The log and the acts are those of the world before.
pub record Untouched {h : Host} (w w' : World h) : Type 0 where
  pub same_log : w'.log ≡ w.log
  pub same_acts : w'.acts ≡ w.acts

module _ (c : Codec) (u : Unicode) (caller : Caller) where
  -- What the admission of a request has found, in the world at its start.
  pub record Admitted {h : Host} (raw : List ℕ) (now : ℤ) (w : World h) (p : Plan) : Type 0 where
    pub valid : validate_request c raw caller.board now ≡ ok p.request
    pub hashed : p.nonce_hash ≡ c.sha256 (c.encode p.request.nonce)
    pub used : List Value
    pub loaded : load_nonces c u w.log ≡ ok used
    pub fresh : is_used p.nonce_hash used ≡ false
    pub db : TaskDb
    pub db_read : db ≡ (h.task p.request.task_id w.state).0
    pub authorized : authorize u db p.request.dry_run ≡ ok tt
    pub queried : service_state (h.query (h.task p.request.task_id w.state).1).0 ≡ ok p.pre
    pub pre_state : require_pre_state u p.pre ≡ ok tt

  module _ {h : Host} where
    pub admit-Untouched :
        (raw : List ℕ) (now : ℤ) (w : World h) → Untouched w (admit c u caller raw now w).1
    unfolding admit admit_used check_task check_state
    admit-Untouched raw now w =
        next_keeps (Untouched w) _ _ (record { same_log = refl; same_acts = refl })
          (λ req w1 k1. next_keeps (Untouched w) _ _ k1 (λ used w2 k2.
            next_keeps (Untouched w) _ _ k2 (λ _ w3 k3.
              next_keeps (Untouched w) _ _
                (record { same_log = k3.same_log; same_acts = k3.same_acts })
                (λ _ w4 k4.
                  next_keeps (Untouched w) _ _
                    (record { same_log = k4.same_log; same_acts = k4.same_acts })
                    (λ pre w5 k5. next_keeps (Untouched w) _ _ k5 (λ _ w6 k6. k6))))))

    admit-Admitted :
        (raw : List ℕ) (now : ℤ) (w : World h) {p : Plan}
        → (admit c u caller raw now w).0 ≡ ok p
        → Admitted raw now w p
    unfolding admit admit_used check_task check_state
    admit-Admitted raw now w {p} e =
        let (req, valid, e1) = next_ok _ _ e in
        let (used, loaded, e2) = next_ok _ _ e1 in
        let (_, fresh, e3) = next_ok _ _ e2 in
        let (_, authorized, e4) = next_ok _ _ e3 in
        let (pre, queried, e5) = next_ok _ _ e4 in
        let (_, active, e6) = next_ok _ _ e5 in
        subst (Admitted raw now w) (ok_injective _ _ e6) (record {
          valid = valid;
          hashed = refl;
          used = used;
          loaded = loaded;
          fresh = ground arith;
          db = (h.task req.task_id w.state).0;
          db_read = refl;
          authorized = authorized;
          queried = queried;
          pre_state = active;
        })

    -- In every run on any host: a restart comes directly after the receipt of its request has been
    -- written and synced, which is the run's first act; the request is valid, its nonce is not among
    -- those of the log, the board authorises it for a live
    -- restart, and the query of the service that followed the board's gave an active state.
    pub handle-IsOnce :
        (raw : List ℕ) (w : World h)
        → w.acts ≡ []
        → IsOnce c u caller
            (Admitted raw (h.time w.state).0 (record w { state = (h.time w.state).1 }))
            (handle c u caller raw w).1.acts
    unfolding handle
    handle-IsOnce raw w fresh =
        let (now, s) = h.time w.state in
        let w1 : World h = record w { state = s } in
        let A : Plan → Type 0 = Admitted raw now w1 in
        next_split (λ w'. IsOnce c u caller A w'.acts) (admit c u caller raw now w1)
          (perform c u caller) (λ e. rw ((admit-Untouched raw now w1).same_acts, fresh) tt)
          (λ p admitted.
            perform-Once c u caller A p _ (admit-Admitted raw now w1 admitted)
              ((admit-Untouched raw now w1).same_acts ∙ fresh))

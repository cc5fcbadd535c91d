-- ===== src/Supervisor/Handle.antt =====
-- `handle`: the checks, the receipt that consumes the nonce, the restart, and the receipt of the result.
use hermes_keel.Base.{ltb, length, ℕ, String, Bool, true, false, Option, none, some, List, [], ◌∷◌}
use hermes_keel.Base.Int.{ℤ, pos}
use hermes_keel.Base.Result.{Result, ok, err, rejected, raised, os_error, reject_if}
use hermes_keel.Base.Writing.{Writing}
use hermes_keel.Json.{Fields, Value, bool, num, text, dict, fields}
use hermes_keel.Json.Codec.{Codec}
use hermes_keel.Supervisor.State.{
  Unicode, Query, Properties, service, service_state, require_pre_state, classify_result,
  properties_fields,
}
use hermes_keel.Supervisor.Request.{Request, validate_request}
use hermes_keel.Supervisor.Authorize.{TaskDb, authorize}
use hermes_keel.Supervisor.Receipts.{Log, load_nonces, is_used, append_receipt}

-- How `systemctl restart` ends.
pub data Restart : Type 0 where
  timed_out not_run : Restart
  exited : ℤ → Restart

-- `task` is the database with the rows of a task id.
pub record Host : Type 1 where
  pub State : Type 0
  pub time : State → ℤ × State
  pub task : String → State → TaskDb × State
  pub query : State → Query × State
  pub restart : State → Restart × State
  pub writing : State → Writing × State

pub data Act : Type 0 where
  recorded : Value → Act
  restarted : Act

-- `acts` holds the receipts recorded to the end and the restarts, the last one first.
pub record World (h : Host) : Type 0 where
  pub state : h.State
  pub log : Log
  pub acts : List Act

pub record Caller : Type 0 where
  pub uid : ℤ
  pub pid : ℤ
  pub board : String

abbrev pub Step : Host → Type 0 → Type 0
Step h A = World h → Result A × World h

module _ {h : Host} where
  unfoldable pub next : {A B : Type 0} → Result A × World h → (A → Step h B) → Result B × World h
  next (ok a, w) f = f a w
  next (err e, w) f = (err e, w)

  abbrev pub ask : {A : Type 0} → (h.State → A × h.State) → World h → A × World h
  ask f w = let (a, s) = f w.state in (a, record w { state = s })

-- What is known once the request is admitted.
pub record Plan : Type 0 where
  pub request : Request
  pub nonce_hash : String
  pub pre : Properties

abbrev pub recorded_if : Result (Unit {0}) → Value → List Act → List Act
recorded_if (ok _) v acts = recorded v ∷ acts
recorded_if (err e) v acts = acts

-- `restart_exit`; an `OSError` passes on
abbrev pub exit_of : Restart → Result (Option ℤ)
exit_of timed_out = ok (some (pos 124))
exit_of not_run = err (raised os_error)
exit_of (exited code) = ok (some code)

-- `post` and `post_error`, which is the message of a `Rejected`; `state` raises nothing else
abbrev pub post_of : Result Properties → Option Properties × Option String
post_of (ok ps) = (some ps, none)
post_of (err (rejected message)) = (none, some message)
post_of (err (raised e)) = (none, none)

abbrev pub max_request : ℕ
max_request = 4096

abbrev pub reply_of : Result (Value × Value) → Value
reply_of (ok (request, result)) =
    dict (fields (("ok", bool true) ∷ ("receipt", result) ∷ ("request", request) ∷ []))
reply_of (err (rejected message)) =
    dict (fields (("ok", bool false) ∷ ("error", text message) ∷ []))
reply_of (err (raised e)) =
    dict (fields (("ok", bool false) ∷ ("error", text "internal-failure") ∷ []))

module _ (c : Codec) (u : Unicode) (caller : Caller) where
  abbrev nonce_digest : Request → String
  nonce_digest req = c.sha256 (c.encode req.nonce)

  -- the members that both receipts have
  unfoldable pub request_record : Plan → ℤ → Value
  request_record p at = dict (
      fields (
        ("type", text "gateway-restart-request")
        ∷ ("timestamp", num at)
        ∷ ("caller_uid", num caller.uid)
        ∷ ("caller_pid", num caller.pid)
        ∷ ("task_id", text p.request.task_id)
        ∷ ("nonce_sha256", text p.nonce_hash)
        ∷ ("dry_run", bool p.request.dry_run)
        ∷ ("service", text service)
        ∷ ("pre", dict (properties_fields p.pre))
        ∷ []))

  -- `post if post is not None else {"error": …}`
  abbrev post_value : Option Properties → Option String → Value
  post_value (some ps) e = dict (properties_fields ps)
  post_value none (some e) = dict (fields (("error", text e) ∷ []))
  post_value none none = dict (fields (("error", text "missing") ∷ []))

  unfoldable pub result_fields : Plan → ℤ → Value → ℤ × String → Fields
  result_fields p at post (exit_status, detail) = fields (
      ("type", text "gateway-restart-result")
      ∷ ("timestamp", num at)
      ∷ ("caller_uid", num caller.uid)
      ∷ ("caller_pid", num caller.pid)
      ∷ ("task_id", text p.request.task_id)
      ∷ ("nonce_sha256", text p.nonce_hash)
      ∷ ("dry_run", bool p.request.dry_run)
      ∷ ("service", text service)
      ∷ ("pre", dict (properties_fields p.pre))
      ∷ ("post", post)
      ∷ ("exit_status", num exit_status)
      ∷ ("detail", text detail)
      ∷ [])

  unfoldable pub result_record : Plan → ℤ → Value → ℤ × String → Value
  unfolding result_fields
  result_record p at post outcome = dict (result_fields p at post outcome)

  module _ {h : Host} where
    unfoldable pub check_state : Request → Step h Plan
    unfolding service_state require_pre_state
    check_state req w =
        let (q, w') = ask h.query w in
        next (service_state q, w')
          (λ pre w2.
            next (require_pre_state u pre, w2)
              (λ _ w3.
                (ok (record { request = req; nonce_hash = nonce_digest req; pre = pre }), w3)))

    unfoldable pub check_task : Request → Step h Plan
    unfolding check_state authorize
    check_task req w =
        let (db, w') = ask (h.task req.task_id) w in
        next (authorize u db req.dry_run, w') (λ _. check_state req)

    unfoldable pub admit_used : Request → List Value → Step h Plan
    unfolding check_task
    admit_used req used w =
        next (reject_if (is_used (nonce_digest req) used) "replayed-nonce", w) (λ _. check_task req)

    -- everything before the first receipt
    unfoldable pub admit : List ℕ → ℤ → Step h Plan
    unfolding validate_request load_nonces admit_used
    admit raw now w =
        next (validate_request c raw caller.board now, w)
          (λ req w1. next (load_nonces c u w1.log, w1) (admit_used req))

    unfoldable pub write_receipt : Value → Step h Value
    unfolding append_receipt
    write_receipt receipt w =
        let (how, w1) = ask h.writing w in
        let (r, log) = append_receipt c how receipt w1.log in
        next (r, record w1 { log = log; acts = recorded_if r receipt w1.acts })
          (λ _ w2. (ok receipt, w2))

    unfoldable pub consume : Plan → Step h Value
    unfolding request_record write_receipt
    consume p w = let (at, w1) = ask h.time w in write_receipt (request_record p at) w1

    unfoldable pub restart_service : Step h (Option ℤ)
    restart_service w =
        let (r, w1) = ask h.restart w in (exit_of r, record w1 { acts = restarted ∷ w1.acts })

    unfoldable pub restart_unless : Bool → Step h (Option ℤ)
    unfolding restart_service
    restart_unless true w = (ok none, w)
    restart_unless false w = restart_service w

    unfoldable pub finish : Plan → Value → Option ℤ → Step h (Value × Value)
    unfolding service_state classify_result result_record write_receipt
    finish p request restart_exit w =
        let (q, w1) = ask h.query w in
        let (post, post_error) = post_of (service_state q) in
        next (classify_result u p.request.dry_run restart_exit post post_error, w1)
          (λ outcome w2.
            let (at, w3) = ask h.time w2 in
            next (write_receipt (result_record p at (post_value post post_error) outcome) w3)
              (λ result w4. (ok (request, result), w4)))

    unfoldable pub act : Plan → Value → Step h (Value × Value)
    unfolding restart_unless finish
    act p request w = next (restart_unless p.request.dry_run w) (finish p request)

    unfoldable pub perform : Plan → Step h (Value × Value)
    unfolding consume act
    perform p w = next (consume p w) (act p)

    -- the request's receipt and the result's
    unfoldable pub handle : List ℕ → Step h (Value × Value)
    unfolding admit perform
    handle raw w = let (now, w1) = ask h.time w in next (admit raw now w1) perform

    -- `len(raw) > MAX_REQUEST` of what `recv` gives
    unfoldable pub handle_bounded : List ℕ → Step h (Value × Value)
    unfolding handle
    handle_bounded raw w =
        next (reject_if (ltb max_request (length raw)) "request-too-large", w) (λ _. handle raw)

    -- what `serve` sends back for the bytes of one connection
    unfoldable pub reply : List ℕ → World h → Value × World h
    unfolding handle_bounded
    reply raw w = let (r, w') = handle_bounded raw w in (reply_of r, w')

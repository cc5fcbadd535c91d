-- ===== src/Broker/Execute/Steps.antt =====
-- The calls that `execute` makes: phases appended to the ledger, and the fence on the board.
use hermes_keel.Base.{ℕ, ◌+◌, String, true, List, [], ◌∷◌, leb, if◌then◌else◌}
use hermes_keel.Base.{contains_text}
use hermes_keel.Base.Int.{ℤ}
use hermes_keel.Base.Result.{Result, ok, err, reject_if, raised, value_error}
use hermes_keel.Json.{Value, num, text, Fields, fields, put, merge}
use hermes_keel.Json.Codec.{Codec}
use hermes_keel.Broker.Config.{phases}
use hermes_keel.Broker.Authority.{task_active, open_bound_board}
use hermes_keel.Broker.Ledger.Chain.{digest}
use hermes_keel.Broker.Ledger.Append.{append_chain}
use hermes_keel.Broker.Execute.World.{
  Host, Exec, append, validated, fenced, pure, lift, call, tracked, ◌>>=◌, ◌>>◌,
}

-- What a run is about: the request, which is a dict, with its task, run and nonce.
pub record Job : Type 0 where
  pub request : Value
  pub task : String
  pub run : ℤ
  pub nonce : String
  pub operation_id : Value

-- 30 seconds in nanoseconds: `lease_seconds`
abbrev pub lease : ℕ
lease = 30000000000

module _ (c : Codec) (key : List ℕ) (j : Job) where
  -- `_event`
  unfoldable pub event : String → ℤ → Fields
  event kind at = fields (
      ("type", text kind)
      ∷ ("request_sha256", text (digest c j.request))
      ∷ ("operation_id", j.operation_id)
      ∷ ("task", text j.task)
      ∷ ("run", num j.run)
      ∷ ("nonce_sha256", text (c.sha256 (c.encode j.nonce)))
      ∷ ("at", num at)
      ∷ [])

  -- `_phase`, whose `ValueError` needs a phase that is none of `PHASES`
  unfoldable pub phase : String → ℤ → Fields → Result Fields
  unfolding event
  phase name at evidence =
      if contains_text name phases
      then ok (merge (put "phase" (text name) (event "operation-phase" at)) evidence)
      else err (raised value_error)

  module _ {h : Host} where
    -- `append_chain(ledger, key, body)`
    unfoldable pub append_body : Fields → Exec h Fields
    append_body body w =
        let (outcome, s) = h.outcome w.state in
        let (r, l) = append_chain c h.euid outcome w.ledger key body in
        (r, record w { state = s; ledger = l })

    -- `_phase(req, name, int(time.time()), …)`
    unfoldable pub make_phase : String → Fields → Exec h Fields
    unfolding phase
    make_phase name evidence = do at ← call h.time; lift (phase name at evidence)

    unfoldable pub append_phase : String → Fields → Exec h Fields
    unfolding append_body make_phase
    append_phase name evidence = tracked (append name) (make_phase name evidence >>= append_body)

    -- appends a result that is already built
    unfoldable pub append_result : String → Fields → Exec h Fields
    unfolding append_body
    append_result name body = tracked (append name) (append_body body)

    unfoldable pub check_fence : ℕ → Exec h (Unit {0})
    check_fence deadline = do
      now ← call h.monotonic
      lift (reject_if (leb deadline now) "mutation-fence-expired")
      rows ← call h.rows
      lift (task_active rows j.task j.run (digest c j.request))

    -- `_validate_mutation_fence`
    unfoldable pub validate_fence : ℕ → Exec h (Unit {0})
    unfolding check_fence
    validate_fence deadline = tracked validated (check_fence deadline)

    unfoldable pub open_board : Exec h Fields
    open_board = do
      f ← call h.board
      lift (open_bound_board h.euid f j.request j.task j.run (digest c j.request) true)

    -- `_open_bound_board(…, writable=True)` and the deadline: the identity of the board, the deadline
    unfoldable pub take_fence : Exec h (Fields × ℕ)
    unfolding open_board
    take_fence = do
      identity ← tracked fenced open_board
      started ← call h.monotonic
      pure (identity, started + lease)

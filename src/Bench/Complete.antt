-- ===== src/Bench/Complete.antt =====
-- The supervisor's receipts under the benchmark's checks.
use mathlib.Core.Option
use mathlib.Core.Path.{subst}
use hermes_keel.Base.{
  String, ◌≡◌, ◌≢◌, refl, sym, ap, ◌∙◌, true, false, not, Option, none, some, [], ◌∷◌, arith, count,
  eq_iff, Option-cases, Bool-cases, inl, inr,
}
use hermes_keel.Base.Int.{ℤ, pos}
use hermes_keel.Base.Result.{ok, reject_if, >>=-eq-ok, >>-eq-ok}
use hermes_keel.Json.{Value, text, dict, Fields, get}
use hermes_keel.Json.Equality.{eq, eq-text, eq-text_refl}
use hermes_keel.Json.Codec.{Codec}
use hermes_keel.Supervisor.State.{
  Unicode, Properties, property, properties_fields, is_active, property_is, has_pid,
  require_pre_state,
}
use hermes_keel.Supervisor.Handle.{Caller, Plan, result_fields}
use hermes_keel.Supervisor.Classify.{Restarted}
use hermes_keel.Bench.Gateway.{
  Contract, get_value, has_all, pid_of_value, state_ok, verify_gateway_restart,
}

get-properties_fields :
    (k : String) (ps : Properties) → get k (properties_fields ps) ≡ Option.map text (property k ps)
get-properties_fields k [] = refl
get-properties_fields k ((j, w) ∷ ps) = ground (arith, get-properties_fields k ps)

get_value-properties_fields :
    (k : String) (ps : Properties) (v : String)
    → property k ps ≡ some v
    → get_value k (properties_fields ps) ≡ text v
get_value-properties_fields k ps v found = ground (arith, get-properties_fields k ps, found)

property_is-eq :
    (k s : String) (ps : Properties)
    → property_is k s ps ≡ true
    → eq (get_value k (properties_fields ps)) (text s) ≡ true
property_is-eq k s ps h = elim (Option-cases (property k ps)) [
  | inl nothing ↦ ground (arith, nothing, h)
  | inr (v, found) ↦
      subst (λ w. eq w (text s) ≡ true) (sym (get_value-properties_fields k ps v found))
        (rw ((eq_iff v s).0 (rw (found, property_is) at h)) (eq-text_refl s))
]

some_injective : (a b : Properties) → Option.some a ≡ some b → a ≡ b
some_injective a b e = cc

text_injective : (v w : String) → Value.text v ≡ text w → v ≡ w
text_injective v w e = cc

module _ (u : Unicode) where
  pid_lem :
      (ps : Properties)
      → has_pid u ps ≡ ok true
      → (v : String) × (property "MainPID" ps ≡ some v) × (pid_of_value u (text v) ≡ ok true)
  unfolding has_pid pid_of_value
  pid_lem ps h = elim (Option-cases (property "MainPID" ps)) [
    | inl nothing ↦ absurd (ground (arith, nothing, h))
    | inr (v, found) ↦ (v, found, rw (found, has_pid) at h)
  ]

  state_pid :
      (fs : Fields) (v : Value)
      → get "MainPID" fs ≡ some v
      → pid_of_value u v ≡ ok true
      → eq (get_value "ActiveState" fs) (text "active") ≡ true
      → eq (get_value "SubState" fs) (text "running") ≡ true
      → state_ok u (dict fs) ≡ ok true
  unfolding state_ok
  state_pid fs v found alive active runs = ground arith

  state_ok_lem :
      (ps : Properties)
      → is_active ps ≡ true
      → has_pid u ps ≡ ok true
      → state_ok u (dict (properties_fields ps)) ≡ ok true
  state_ok_lem ps active alive =
      let (v, found, number) = pid_lem ps alive in
      state_pid (properties_fields ps) (text v)
        (get-properties_fields "MainPID" ps ∙ ap (Option.map text) found) number
        (property_is-eq "ActiveState" "active" ps (ground arith))
        (property_is-eq "SubState" "running" ps (ground arith))

  active_of_pre :
      (pre : Properties)
      → require_pre_state u pre ≡ ok tt
      → (is_active pre ≡ true) × (has_pid u pre ≡ ok true)
  unfolding require_pre_state
  active_of_pre pre h =
      let (active, h1) = >>-eq-ok (reject_if (not (is_active pre)) "service-not-active") _ h in
      let (alive, found, h2) = >>=-eq-ok (has_pid u pre) _ h1 in (ground arith, ground arith)

  active_of_Restarted :
      (post : Properties)
      → Restarted u (some (pos 0)) (some post) none
      → (is_active post ≡ true) × (has_pid u post ≡ ok true)
  active_of_Restarted post r =
      let same : r.properties ≡ post = some_injective r.properties post (sym r.read) in
      (rw (← same) r.active, rw (← same) r.alive)

  texts_differ : (v w : String) → v ≢ w → eq (text v) (text w) ≡ false
  texts_differ v w other = elim (Bool-cases (eq (text v) (text w))) [
    | inl same ↦ absurd (other (text_injective v w (eq-text (text v) w same)))
    | inr apart ↦ apart
  ]

  pids_differ :
      (pre post : Properties)
      → property "MainPID" pre ≢ property "MainPID" post
      → has_pid u pre ≡ ok true
      → has_pid u post ≡ ok true
      → eq
          (get_value "MainPID" (properties_fields pre))
          (get_value "MainPID" (properties_fields post))
        ≡ false
  pids_differ pre post other a b =
      let (v, at_v, _) = pid_lem pre a in
      let (w, at_w, _) = pid_lem post b in
      rw
        (
          get_value-properties_fields "MainPID" pre v at_v,
          get_value-properties_fields "MainPID" post w at_w,
        )
        (texts_differ v w (λ same. other (at_v ∙ ap some same ∙ sym at_w)))

  -- The receipt of a live restart that the supervisor classifies as complete passes the check of the
  -- benchmark, for a contract that names the task of the request and asks for members that the receipt
  -- has, if the digest of the nonce has 64 characters and the process id has changed.
  pub result_record_verifies :
      (c : Codec) (caller : Caller) (p : Plan) (at : ℤ) (post : Properties) (contract : Contract)
      → p.request.dry_run ≡ false
      → require_pre_state u p.pre ≡ ok tt
      → Restarted u (some (pos 0)) (some post) none
      → property "MainPID" p.pre ≢ property "MainPID" post
      → count p.nonce_hash ≡ 64
      → contract.task_id ≡ text p.request.task_id
      → has_all contract.required_fields (
          result_fields c u caller p at (dict (properties_fields post)) (pos 0, "restart-complete"))
        ≡ true
      → verify_gateway_restart u
          (result_fields c u caller p at
            (dict (properties_fields post))
            (pos 0, "restart-complete"))
          contract
        ≡ ok true
  unfolding verify_gateway_restart result_fields eq
  result_record_verifies c caller p at post contract live pre restarted other long named full =
      let (active, alive) = active_of_pre p.pre pre in
      let (post_active, post_alive) = active_of_Restarted post restarted in
      rw
        (
          state_ok_lem p.pre active alive,
          state_ok_lem post post_active post_alive,
          full,
          named,
          eq-text_refl,
          live,
          long,
          pids_differ p.pre post other alive post_alive,
        )
        refl

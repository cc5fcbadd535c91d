-- ===== src/Broker/Request/Build.antt =====
-- `make_request`
use hermes_keel.Base.{String, ◌<>◌, Option, none, some, ◌∷◌, []}
use hermes_keel.Base.Int.{ℤ, pos, ◌+ℤ◌}
use hermes_keel.Base.Result.{Result, ok, ◌>>◌}
use hermes_keel.Json.{Value, num, text, dict, fields}
use hermes_keel.Json.Codec.{Codec}
use hermes_keel.Broker.Config.{action, host}
use hermes_keel.Broker.Request.Sealed.{fixed_operation, rollback, sealed_package, fixture_pre_state}
use hermes_keel.Broker.Request.Validate.{validate_request}

abbrev or_else : Option Value → Value → Value
or_else none v = v
or_else (some w) v = w

module _ (c : Codec) where
  -- `f"{ACTION}:{task}:{run}:{nonce}"`
  operation_id : String → ℤ → String → String
  operation_id task run nonce = action <> ":" <> task <> ":" <> c.str (num run) <> ":" <> nonce

  unfoldable pub request : String → ℤ → String → ℤ → ℤ → Value → Value → Value
  unfolding operation_id ◌+ℤ◌ fixed_operation rollback
  request task run nonce now ttl pre_state pkg = dict (
      fields (
        ("version", num (pos 2))
        ∷ ("operation_id", text (operation_id task run nonce))
        ∷ ("action", text action)
        ∷ ("target_host", text host)
        ∷ ("requester_task", text task)
        ∷ ("requester_run", num run)
        ∷ ("nonce", text nonce)
        ∷ ("created_at", num now)
        ∷ ("expires_at", num (now +ℤ ttl))
        ∷ ("expected_pre_state", pre_state)
        ∷ ("sealed_package", pkg)
        ∷ ("fixed_operation", fixed_operation c)
        ∷ ("rollback", rollback)
        ∷ []))

  unfoldable pub make_request :
      String → ℤ → String → ℤ → ℤ → Option Value → Option Value → Result Value
  unfolding request validate_request fixture_pre_state sealed_package
  make_request task run nonce now ttl pre_state pkg =
      let req = request task run nonce now ttl (or_else pre_state fixture_pre_state) (
        or_else pkg (
          sealed_package (text "/fixture/package")
            (text "2222222222222222222222222222222222222222222222222222222222222222"))) in
      validate_request c req now >> ok req

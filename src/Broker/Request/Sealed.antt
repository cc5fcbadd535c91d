-- ===== src/Broker/Request/Sealed.antt =====
-- The constant parts of a request: `fixed_operation`, `rollback`, `sealed_package` and the fixture.
use hermes_keel.Base.{true, [], ◌∷◌}
use hermes_keel.Base.Int.{pos}
use hermes_keel.Json.{Value, bool, num, float, text, arr, dict, items, fields}
use hermes_keel.Json.Codec.{Codec}
use hermes_keel.Broker.Config.{
  service, port, old_binary, old_sha256, old_version, new_binary, new_sha256, new_version,
  model_store, model_name, dropin, dropin_text,
}

module _ (c : Codec) where
  unfoldable pub fixed_operation : Value
  fixed_operation = dict (
      fields (
        ("executable", text new_binary)
        ∷ ("argv", arr (items (text new_binary ∷ text "serve" ∷ [])))
        ∷ ("executable_sha256", text new_sha256)
        ∷ ("dropin", text dropin)
        ∷ ("dropin_sha256", text (c.sha256 (c.encode dropin_text)))
        ∷ ("model_store", text model_store)
        ∷ ("listen", text "127.0.0.1:11434")
        ∷ ("service", text service)
        ∷ (
          "health",
          dict (
              fields (
                ("url", text "http://127.0.0.1:11434/api/version")
                ∷ ("version", text new_version)
                ∷ ("processes", num (pos 1))
                ∷ ("cuda_required", bool true)
                ∷ [])),
        )
        ∷ (
          "smoke",
          dict (
              fields (
                ("model", text model_name)
                ∷ ("minimum_eval_tokens_per_second", float (pos 100) 0)
                ∷ ("prompt", text "Reply exactly OK")
                ∷ ("response", text "OK")
                ∷ [])),
        )
        ∷ []))

unfoldable pub rollback : Value
rollback = dict (
    fields (
      ("remove_dropin", text dropin)
      ∷ ("restore_executable", text old_binary)
      ∷ ("restore_sha256", text old_sha256)
      ∷ ("restore_version", text old_version)
      ∷ ("daemon_reload", bool true)
      ∷ ("restart", text service)
      ∷ ("verify_pre_state_byte_exact", bool true)
      ∷ []))

-- Both arguments are values: `validate_request` passes whatever the package holds.
unfoldable pub sealed_package : Value → Value → Value
sealed_package path manifest_sha256 = dict (
    fields (
      ("path", path)
      ∷ ("manifest_sha256", manifest_sha256)
      ∷ ("runtime_member", text "runtime/ollama")
      ∷ ("runtime_sha256", text new_sha256)
      ∷ ("installed_executable", text new_binary)
      ∷ []))

-- `fixture_pre_state`: the complete shape of a pre-state, at the fixture's values.
unfoldable pub fixture_pre_state : Value
fixture_pre_state = dict (
    fields (
      ("service", text service)
      ∷ ("active", bool true)
      ∷ ("fragment", text "/usr/lib/systemd/system/ollama.service")
      ∷ ("fragment_sha256", text "0000000000000000000000000000000000000000000000000000000000000000")
      ∷ ("dropins", arr (items []))
      ∷ ("exec_start", arr (items (text old_binary ∷ text "serve" ∷ [])))
      ∷ (
        "environment",
        dict (
            fields
              (("OLLAMA_HOST", text "127.0.0.1:11434") ∷ ("OLLAMA_MODELS", text model_store) ∷ [])),
      )
      ∷ ("main_pid", num (pos 4242))
      ∷ ("process_executable", text old_binary)
      ∷ ("process_sha256", text old_sha256)
      ∷ ("version", text old_version)
      ∷ ("daemon_pids", arr (items (num (pos 4242) ∷ [])))
      ∷ (
        "listeners",
        arr (
            items (
              dict (
                fields (
                  ("address", text "127.0.0.1")
                  ∷ ("port", num (pos port))
                  ∷ ("pid", num (pos 4242))
                  ∷ []))
              ∷ [])),
      )
      ∷ ("model_store", text model_store)
      ∷ (
        "model_store_manifest_sha256",
        text "1111111111111111111111111111111111111111111111111111111111111111",
      )
      ∷ (
        "board_identity",
        dict (
            fields (
              ("path", text "/fixture/kanban.db")
              ∷ ("uid", num (pos 0))
              ∷ ("gid", num (pos 0))
              ∷ ("mode", num (pos 384))
              ∷ ("device", num (pos 1))
              ∷ ("inode", num (pos 1))
              ∷ ("sha256", text "3333333333333333333333333333333333333333333333333333333333333333")
              ∷ (
                "schema_sha256",
                text "4444444444444444444444444444444444444444444444444444444444444444",
              )
              ∷ [])),
      )
      ∷ []))

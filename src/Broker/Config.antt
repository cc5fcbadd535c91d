-- ===== src/Broker/Config.antt =====
-- The constants at the top of privileged_broker/core.py.
use hermes_keel.Base.{String, ◌<>◌, List, [], ◌∷◌, ℕ, ◌*◌}

abbrev pub action : String
action = "ollama-system-runtime-switch-v2"

abbrev pub host : String
host = "groot"

abbrev pub service : String
service = "ollama.service"

abbrev pub port : ℕ
port = 11434

abbrev pub old_binary : String
old_binary = "/usr/bin/ollama"

abbrev pub old_sha256 : String
old_sha256 = "ab27361e1e4c70a5aed215cce0cf6033bbf61650a0eb7e4b63cf01c76a06353a"

abbrev pub old_version : String
old_version = "0.16.1"

abbrev pub new_sha256 : String
new_sha256 = "d0758d38ac5882a2c68fd930d0c1220af1952469fa9f30c268746d4021709bf4"

abbrev pub new_binary : String
new_binary = "/usr/local/lib/hermes-privileged-broker/runtimes/sha256-" <> new_sha256 <> "/ollama"

abbrev pub new_version : String
new_version = "0.32.14"

abbrev pub model_store : String
model_store = "/mnt/zer0models/zer0-models/ollama"

abbrev pub model_name : String
model_name = "qwen2.5:3b"

abbrev pub dropin : String
dropin = "/etc/systemd/system/ollama.service.d/10-hermes-cuda-runtime.conf"

-- The text whose UTF-8 encoding is `DROPIN_BYTES`.
abbrev pub dropin_text : String
dropin_text =
    "[Service]\nExecStart=\nExecStart=" <> new_binary
    <> " serve\nEnvironment=OLLAMA_HOST=127.0.0.1:11434\nEnvironment=OLLAMA_MODELS=" <> model_store
    <> "\n"

-- `SCHEMA`
abbrev pub schema : List String
schema =
    "version" ∷ "operation_id" ∷ "action" ∷ "target_host" ∷ "requester_task" ∷ "requester_run"
    ∷ "nonce" ∷ "created_at" ∷ "expires_at" ∷ "expected_pre_state" ∷ "sealed_package"
    ∷ "fixed_operation" ∷ "rollback" ∷ []

abbrev pub pre_state_keys : List String
pre_state_keys =
    "service" ∷ "active" ∷ "fragment" ∷ "fragment_sha256" ∷ "dropins" ∷ "exec_start" ∷ "environment"
    ∷ "main_pid" ∷ "process_executable" ∷ "process_sha256" ∷ "version" ∷ "daemon_pids" ∷ "listeners"
    ∷ "model_store" ∷ "model_store_manifest_sha256" ∷ "board_identity" ∷ []

abbrev pub identity_keys : List String
identity_keys =
    "path" ∷ "uid" ∷ "gid" ∷ "mode" ∷ "device" ∷ "inode" ∷ "sha256" ∷ "schema_sha256" ∷ []

abbrev pub max_ledger_bytes : ℕ
max_ledger_bytes = 8 * 1024 * 1024

abbrev pub max_record_bytes : ℕ
max_record_bytes = 256 * 1024

-- `PHASES`
abbrev pub phases : List String
phases =
    "prepared" ∷ "consumed" ∷ "mutation_started" ∷ "health_passed" ∷ "committed"
    ∷ "rollback_started" ∷ "rollback_verified" ∷ "recovery_required" ∷ "preflight_rejected" ∷ []

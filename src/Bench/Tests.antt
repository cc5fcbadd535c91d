-- ===== src/Bench/Tests.antt =====
-- Runs of the benchmark's checks, and the theorems at them.
use hermes_keel.Base.{
  ℕ, Option, List, ◌⊎◌, ◌==◌, if◌then◌else◌, ◌+◌, String, ◌≡◌, ◌≢◌, refl, Bool, true, false, none,
  some, [], ◌∷◌, length, ap, str_eq,
}
use hermes_keel.Base.Int.{pos}
use hermes_keel.Base.Result.{err, rejected, ok}
use hermes_keel.Json.{Value, num, bool, arr, nil, put, Fields, fields, text, dict}
use hermes_keel.Supervisor.State.{
  property, Properties, properties_fields, require_pre_state, has_pid,
}
use hermes_keel.Supervisor.Handle.{Plan, result_fields}
use hermes_keel.Supervisor.Classify.{Restarted}
use hermes_keel.Supervisor.Tests.{unicode, caller, running, blank}
use hermes_keel.Bench.Oracle.{Operation, fresh_oracle, apply_all}
use hermes_keel.Bench.Replays.{IsFresh, accepted_keys, rejections, apply_all-IsFresh}
use hermes_keel.Bench.Gateway.{Contract, verify_gateway_restart}
use hermes_keel.Json.Equality.{eq}
use hermes_keel.Json.Codec.{Codec}
use hermes_keel.Bench.Gateway.{get_value}
use hermes_keel.Bench.Manifest.{is_true, read_object, load_manifest}
use hermes_keel.Bench.Frozen.{FromBase, load_manifest_lem}
use hermes_keel.Bench.Complete.{result_record_verifies}

abbrev artifact : Operation
artifact = record { op = "artifact"; task = "t_bench"; nonce = some "n"; target = none }

abbrev stray : Operation
stray = record { op = "artifact"; task = "t_other"; nonce = some "n"; target = none }

abbrev link : Operation
link = record { op = "link"; task = "t_bench"; nonce = none; target = some "t_bench" }

abbrev unbound : Operation
unbound = record { op = "complete"; task = "t_bench"; nonce = none; target = none }

sequence :
    (apply_all (fresh_oracle []) (artifact ∷ artifact ∷ stray ∷ link ∷ unbound ∷ [])).0
    ≡ true ∷ false ∷ false ∷ true ∷ false ∷ []
unfolding apply_all
sequence = refl

apply_all-IsFresh_example :
    IsFresh
      (accepted_keys
        (artifact ∷ artifact ∷ [])
        (apply_all (fresh_oracle []) (artifact ∷ artifact ∷ [])).0)
      []
    × (length (apply_all (fresh_oracle []) (artifact ∷ artifact ∷ [])).1.quarantine
        ≡ 0 + rejections (apply_all (fresh_oracle []) (artifact ∷ artifact ∷ [])).0)
apply_all-IsFresh_example = apply_all-IsFresh (fresh_oracle []) (artifact ∷ artifact ∷ [])

abbrev restarted_service : Properties
restarted_service =
    ("MainPID", "43")
    ∷ ("ActiveState", "active")
    ∷ ("SubState", "running")
    ∷ ("NRestarts", "1")
    ∷ ("ControlGroup", "/c")
    ∷ []

abbrev plan : Plan
plan = record {
  request = record { task_id = "t_0123abcd"; nonce = "n"; dry_run = false };
  nonce_hash = "0000000000000000000000000000000000000000000000000000000000000000";
  pre = running;
}

abbrev contract : Contract
contract = record { required_fields = "pre" ∷ "post" ∷ "detail" ∷ []; task_id = text "t_0123abcd" }

abbrev is_old : Option String → Bool
is_old none = false
is_old (some s) = str_eq s "42"

pid_changed : property "MainPID" running ≢ property "MainPID" restarted_service
pid_changed e = let apart : true ≡ false = ap is_old e in cc

running-ok : require_pre_state unicode running ≡ ok tt
unfolding require_pre_state
running-ok = refl

restarted_service-Restarted : Restarted unicode (some (pos 0)) (some restarted_service) none
unfolding has_pid
restarted_service-Restarted = record {
  queried = refl;
  exited = refl;
  properties = restarted_service;
  read = refl;
  active = refl;
  alive = refl;
}

result_record_verifies_example :
    verify_gateway_restart unicode
      (result_fields blank unicode caller plan
        (pos 1000)
        (dict (properties_fields restarted_service))
        (pos 0, "restart-complete"))
      contract
    ≡ ok true
unfolding result_fields
result_record_verifies_example =
    result_record_verifies unicode blank caller plan (pos 1000) restarted_service contract refl
      running-ok restarted_service-Restarted pid_changed refl refl refl

abbrev second_version : Fields
second_version = fields (
    ("schema_version", num (pos 2))
    ∷ ("frozen", bool true)
    ∷ ("base_manifest", text "cases.v1.json")
    ∷ [])

abbrev first_version : Fields
first_version = fields (
    ("schema_version", num (pos 1))
    ∷ ("frozen", bool true)
    ∷ ("cases", arr nil)
    ∷ ("default_timeout_seconds", num (pos 5))
    ∷ [])

abbrev read_manifest : List ℕ → Option Value
read_manifest (b ∷ []) = if b == 1 then some (dict first_version) else some (dict second_version)
read_manifest _ = none

abbrev manifests : Codec
manifests = record blank { loads = read_manifest }

abbrev loaded : Fields
loaded = put "default_timeout_seconds" (num (pos 5)) (put "cases" (arr nil) second_version)

loads :
    (load_manifest manifests (1 ∷ []) none ≡ ok (first_version, 1 ∷ []))
    × (load_manifest manifests (2 ∷ []) (some (2 ∷ []))
        ≡ err (rejected "FAIL: v2 base manifest is not frozen schema v1"))
unfolding load_manifest
loads = (refl, refl)

abbrev second_bytes : List ℕ
second_bytes = 2 ∷ []

load_manifest_lem_example :
    (manifest : Fields) × (read_object manifests second_bytes ≡ ok manifest)
    × (is_true (get_value "frozen" manifest) ≡ true)
    × (second_bytes ≡ second_bytes)
    × (((loaded ≡ manifest) × (eq (get_value "schema_version" manifest) (num (pos 1)) ≡ true))
        ⊎ FromBase manifests (some (1 ∷ [])) manifest loaded)
unfolding load_manifest
load_manifest_lem_example =
    load_manifest_lem manifests second_bytes (some (1 ∷ [])) loaded second_bytes refl

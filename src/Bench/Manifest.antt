-- ===== src/Bench/Manifest.antt =====
-- `load_manifest`: the frozen cases of the benchmark.
use hermes_keel.Base.{ℕ, Bool, false, not, ◌||◌, Option, List, if◌then◌else◌}
use hermes_keel.Base.Int.{pos}
use hermes_keel.Base.Result.{
  Result, ok, raised, value_error, os_error, attribute_error, or_raise, reject_if, ◌>>=◌, ◌>>◌,
}
use hermes_keel.Json.{Value, bool, num, text, dict, Fields, put}
use hermes_keel.Json.Equality.{eq}
use hermes_keel.Json.Access.{item, as_dict}
use hermes_keel.Json.Codec.{Codec}
use hermes_keel.Bench.Gateway.{get_value}

-- `v is True`
abbrev pub is_true : Value → Bool
is_true (bool b) = b
is_true _ = false

module _ (c : Codec) where
  -- `json.loads(raw)` and then `.get`, which only a dict has
  abbrev pub read_object : List ℕ → Result Fields
  read_object raw = or_raise (c.loads raw) (raised value_error) >>= λ v.
      or_raise (as_dict v) (raised attribute_error)

  -- a manifest of the second version, on the cases of the base
  unfoldable pub merge_base : Fields → Option (List ℕ) → Result Fields
  unfolding eq
  merge_base manifest base_bytes = do
    raw ← or_raise base_bytes (raised os_error)
    base ← read_object raw
    reject_if
        (not (is_true (get_value "frozen" base))
          || not (eq (get_value "schema_version" base) (num (pos 1))))
        "FAIL: v2 base manifest is not frozen schema v1"
    cases ← item "cases" (dict base)
    timeout ← item "default_timeout_seconds" (dict base)
    ok (put "default_timeout_seconds" timeout (put "cases" cases manifest))

  -- `base_bytes` are those of `cases.v1.json` beside the manifest, the one base that is allowed.
  unfoldable pub load_manifest : List ℕ → Option (List ℕ) → Result (Fields × List ℕ)
  unfolding merge_base
  load_manifest manifest_bytes base_bytes = do
    manifest ← read_object manifest_bytes
    reject_if (not (is_true (get_value "frozen" manifest))) "FAIL: case manifest is not frozen"
    if eq (get_value "schema_version" manifest) (num (pos 1))
        then ok (manifest, manifest_bytes)
        else (reject_if
              (not (eq (get_value "schema_version" manifest) (num (pos 2)))
                || not (eq (get_value "base_manifest" manifest) (text "cases.v1.json")))
              "FAIL: unsupported case manifest schema"
            >> (merge_base manifest base_bytes >>= λ merged. ok (merged, manifest_bytes)))

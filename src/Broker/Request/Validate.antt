-- ===== src/Broker/Request/Validate.antt =====
-- `validate_request`, one check for each `raise`. What a check reads is there once `check_schema`
-- and the earlier checks have passed, so the order of reads within a check is not observable.
use hermes_keel.Base.{ℕ, String, Bool, true, false, ◌&&◌, ◌||◌, not, none, some, List}
use hermes_keel.Base.{ltb, ◌==◌, has_part, codes, all, any, if◌then◌else◌}
use hermes_keel.Base.Int.{ℤ, pos, ◌-ℤ◌, leb_ℤ, ltb_ℤ}
use hermes_keel.Base.Result.{Result, ok, err, raised, rejected, type_error, ◌>>=◌, ◌>>◌, reject_if}
use hermes_keel.Json.{Value, null, num, text, arr, dict, Items, nil, cons, Fields, end, field}
use hermes_keel.Json.{get, same_keys}
use hermes_keel.Json.Equality.{eq}
use hermes_keel.Json.Access.{item, len, is_int, text_length_is, str_has_prefix}
use hermes_keel.Json.Codec.{Codec}
use hermes_keel.Broker.Config.{
  action, host, service, old_binary, old_sha256, old_version, model_store, schema, pre_state_keys,
  identity_keys,
}
use hermes_keel.Broker.Request.Sealed.{fixed_operation, rollback, sealed_package}

-- `not isinstance(v, dict) or set(v) != {names}`
abbrev pub has_shape : List String → Value → Bool
has_shape names (dict fs) = same_keys fs names
has_shape names _ = false

abbrev pub get_or : Value → String → Value → Value
get_or d k (dict fs) = elim (get k fs) [ none ↦ d | some v ↦ v ]
get_or d k _ = d

unfoldable pub check_schema : Value → Result (Unit {0})
unfolding eq
check_schema req =
    reject_if (not (has_shape schema req) || not (eq (get_or null "version" req) (num (pos 2))))
      "bad-schema"

unfoldable pub check_action : Value → Result (Unit {0})
unfolding eq
check_action req = do
  a ← item "action" req
  h ← item "target_host" req
  reject_if (not (eq a (text action)) || not (eq h (text host))) "wrong-action-or-host"

unfoldable pub hex_digits : String
hex_digits = "0123456789abcdef"

unfoldable pub is_hex : ℕ → Bool
unfolding hex_digits
is_hex d = any (λ h. d == h) (codes hex_digits)

-- `any(c not in "0123456789abcdef" for c in v)`: the members of a list are parts of the digits if
-- they are texts and an error otherwise; of a dict the keys are read.
unfoldable pub any_not_hex_item : Items → Result Bool
unfolding hex_digits
any_not_hex_item nil = ok false
any_not_hex_item (cons (text s) vs) =
    let rest = any_not_hex_item vs in if has_part s hex_digits then rest else ok true
any_not_hex_item (cons _ vs) = err (raised type_error)

unfoldable pub any_not_hex_key : Fields → Bool
unfolding hex_digits
any_not_hex_key end = false
any_not_hex_key (field k v fs) = not (has_part k hex_digits) || any_not_hex_key fs

unfoldable pub any_not_hex : Value → Result Bool
unfolding is_hex any_not_hex_item any_not_hex_key
any_not_hex (text s) = ok (not (all is_hex (codes s)))
any_not_hex (arr vs) = any_not_hex_item vs
any_not_hex (dict fs) = ok (any_not_hex_key fs)
any_not_hex _ = err (raised type_error)

-- `pkg` itself, once `check_package` knows that it is a sealed pkg
unfoldable pub check_manifest : Value → Value → Result (Unit {0})
unfolding any_not_hex
check_manifest path manifest = do
  reject_if (not (str_has_prefix "/" path)) "bad-sealed-package"
  n ← len manifest
  reject_if (not (n == 64)) "bad-sealed-package"
  odd ← any_not_hex manifest
  reject_if odd "bad-sealed-package"

unfoldable pub check_package : Value → Result (Unit {0})
unfolding check_manifest eq sealed_package
check_package req = do
  pkg ← item "sealed_package" req
  let path = get_or (text "") "path" pkg
  let manifest = get_or (text "") "manifest_sha256" pkg
  reject_if (not (eq pkg (sealed_package path manifest))) "bad-sealed-package"
  check_manifest path manifest

unfoldable pub check_pre_state : Value → Result (Unit {0})
unfolding eq
check_pre_state pre = do
  reject_if
      (not (has_shape pre_state_keys pre) || not (eq (get_or null "service" pre) (text service)))
      "bad-pre-state"
  executable ← item "process_executable" pre
  sha256 ← item "process_sha256" pre
  version ← item "version" pre
  reject_if
      (not (eq executable (text old_binary))
        || not (eq sha256 (text old_sha256))
        || not (eq version (text old_version)))
      "wrong-rollback-target"
  store ← item "model_store" pre
  fragment ← item "fragment_sha256" pre
  manifest ← item "model_store_manifest_sha256" pre
  reject_if
      (not (eq store (text model_store))
        || not (text_length_is (λ n. n == 64) fragment && text_length_is (λ n. n == 64) manifest))
      "bad-pre-state-hash"

abbrev pub is_nat : Value → Bool
is_nat (num n) = leb_ℤ (pos 0) n
is_nat _ = false

unfoldable pub check_board : Value → Result (Unit {0})
unfolding eq
check_board pre = do
  board ← item "board_identity" pre
  reject_if (not (has_shape identity_keys board)) "bad-board-identity"
  path ← item "path" board
  uid ← item "uid" board
  gid ← item "gid" board
  mode ← item "mode" board
  device ← item "device" board
  inode ← item "inode" board
  sha256 ← item "sha256" board
  schema_sha256 ← item "schema_sha256" board
  reject_if
      (eq path (text "")
        || not (str_has_prefix "/" path)
        || not (is_nat uid && is_nat gid && is_nat mode && is_nat device && is_nat inode)
        || not
            (text_length_is (λ n. n == 64) sha256 && text_length_is (λ n. n == 64) schema_sha256))
      "bad-board-identity"

unfoldable pub check_task : Value → Result (Unit {0})
check_task req = do
  run ← item "requester_run" req
  task ← item "requester_task" req
  reject_if (not (is_int run) || not (str_has_prefix "t_" task)) "bad-task-run"
  nonce ← item "nonce" req
  reject_if (not (text_length_is (λ n. not (ltb n 32)) nonce)) "bad-nonce"

-- `type(created) is not int or type(expires) is not int`, then the two bounds
unfoldable pub check_times : ℤ → Value → Value → Result (Unit {0})
unfolding ◌-ℤ◌
check_times now (num created) (num expires) =
    reject_if (leb_ℤ expires now || ltb_ℤ (pos 3600) (expires -ℤ created)) "expired"
check_times now _ _ = err (rejected "bad-time")

unfoldable pub check_expiry : ℤ → Value → Result (Unit {0})
unfolding check_times
check_expiry now req = do
  created ← item "created_at" req
  expires ← item "expires_at" req
  check_times now created expires

module _ (c : Codec) where
  unfoldable pub check_operation : Value → Result (Unit {0})
  unfolding eq fixed_operation rollback
  check_operation req = do
    operation ← item "fixed_operation" req
    undo ← item "rollback" req
    reject_if (not (eq operation (fixed_operation c)) || not (eq undo rollback))
        "operation-not-fixed"

  unfoldable pub validate_request : Value → ℤ → Result (Unit {0})
  unfolding check_schema check_action check_operation check_package check_pre_state check_board
      check_task check_expiry
  validate_request req now = do
    check_schema req
    check_action req
    check_operation req
    check_package req
    pre ← item "expected_pre_state" req
    check_pre_state pre
    check_board pre
    check_task req
    check_expiry now req

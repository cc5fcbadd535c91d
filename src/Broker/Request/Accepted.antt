-- ===== src/Broker/Request/Accepted.antt =====
-- `make_request` against `validate_request`.
use hermes_keel.Base.{◌≡◌, ◌≤◌, refl, true, String, arith, count, has_prefix, codes, all}
use hermes_keel.Base.{some, eq_refl}
use hermes_keel.Base.Int.{ℤ, pos, ◌≤ℤ◌}
use hermes_keel.Base.Result.{ok}
use hermes_keel.Json.{Value, text}
use hermes_keel.Json.Access.{item}
use hermes_keel.Json.Codec.{Codec}
use hermes_keel.Broker.Request.Sealed.{sealed_package}
use hermes_keel.Broker.Request.Build.{request, make_request}
use hermes_keel.Broker.Request.Validate.{
  check_schema, check_action, check_operation, check_package, check_pre_state, check_board,
  check_task, check_expiry, is_hex,
}
use hermes_keel.Broker.Request.Stages.{Passes-validate_request}

module _ (c : Codec) (task nonce path manifest : String) (run now ttl : ℤ) (pre : Value) where
  abbrev pub req : Value
  req = request c task run nonce now ttl pre (sealed_package (text path) (text manifest))

  pub req-schema : check_schema req ≡ ok tt
  unfolding check_schema request
  req-schema = refl

  pub req-action : check_action req ≡ ok tt
  unfolding check_action request
  req-action = refl

  pub req-operation : check_operation c req ≡ ok tt
  unfolding check_operation request
  req-operation = rw eq_refl

  pub req-pre : item "expected_pre_state" req ≡ ok pre
  unfolding request
  req-pre = refl

  pub req-package :
      has_prefix "/" path ≡ true
      → count manifest ≡ 64
      → all is_hex (codes manifest) ≡ true
      → check_package req ≡ ok tt
  unfolding check_package request
  req-package absolute long hex = rw (eq_refl, eq_refl, absolute, long, hex)

  pub req-task : has_prefix "t_" task ≡ true → 32 ≤ count nonce → check_task req ≡ ok tt
  unfolding check_task request
  req-task named long = ground arith

  req-expiry : pos 1 ≤ℤ ttl → ttl ≤ℤ pos 3600 → check_expiry now req ≡ ok tt
  unfolding check_expiry request
  req-expiry positive short = ground arith

  -- For a task named `t_…`, a nonce of 32 characters or more, a life of at most an hour, an absolute
  -- package path, a manifest digest of 64 hexadecimal digits and a pre-state that passes its two
  -- checks, `make_request` raises nothing and returns the request with exactly those parts.
  pub make_request_accepts :
      has_prefix "t_" task ≡ true
      → 32 ≤ count nonce
      → pos 1 ≤ℤ ttl
      → ttl ≤ℤ pos 3600
      → has_prefix "/" path ≡ true
      → count manifest ≡ 64
      → all is_hex (codes manifest) ≡ true
      → check_pre_state pre ≡ ok tt
      → check_board pre ≡ ok tt
      → make_request c task run nonce now ttl
          (some pre)
          (some (sealed_package (text path) (text manifest)))
        ≡ ok req
  make_request_accepts named long positive short absolute digits hex pre_state board =
      unfold make_request in
      rw (
        Passes-validate_request c req now (record {
          schema = req-schema;
          action = req-action;
          operation = req-operation;
          sealed = req-package absolute digits hex;
          pre = pre;
          pre_found = req-pre;
          pre_state = pre_state;
          board = board;
          task = req-task named long;
          expiry = req-expiry positive short;
        }))

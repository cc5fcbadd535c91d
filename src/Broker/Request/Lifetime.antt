-- ===== src/Broker/Request/Lifetime.antt =====
-- The creation time that a request states.
use hermes_keel.Base.{◌≡◌, ◌≤◌, refl, true, String, arith, count, has_prefix, codes, all}
use hermes_keel.Base.Int.{ℤ, pos, ◌+ℤ◌, ◌≤ℤ◌}
use hermes_keel.Base.Result.{ok}
use hermes_keel.Json.{Value, text, num}
use hermes_keel.Json.Access.{item}
use hermes_keel.Json.Codec.{Codec}
use hermes_keel.Broker.Request.Sealed.{sealed_package}
use hermes_keel.Broker.Request.Build.{request}
use hermes_keel.Broker.Request.Validate.{
  validate_request, check_pre_state, check_board, check_expiry, is_hex,
}
use hermes_keel.Broker.Request.Stages.{Passes-validate_request}
use hermes_keel.Broker.Request.Accepted.{
  req-schema, req-action, req-operation, req-package, req-task, req-pre,
}

module _ (c : Codec) (task nonce path manifest : String) (run now ahead : ℤ) (pre : Value) where
  -- the request that states that it is made `ahead` seconds from now, for an hour
  abbrev pub postdated : Value
  postdated =
      request c task run nonce (now +ℤ ahead) (pos 3600) pre
        (sealed_package (text path) (text manifest))

  postdated-expiry : pos 0 ≤ℤ ahead → check_expiry now postdated ≡ ok tt
  unfolding check_expiry request
  postdated-expiry h = ground arith

  -- A request that states a creation time in the future passes, however far ahead that is: the check
  -- bounds the life by the stated creation, not by the time of the check.
  pub postdated_accepted :
      pos 0 ≤ℤ ahead
      → has_prefix "t_" task ≡ true
      → 32 ≤ count nonce
      → has_prefix "/" path ≡ true
      → count manifest ≡ 64
      → all is_hex (codes manifest) ≡ true
      → check_pre_state pre ≡ ok tt
      → check_board pre ≡ ok tt
      → (validate_request c postdated now ≡ ok tt)
        × (item "expires_at" postdated ≡ ok (num (now +ℤ ahead +ℤ pos 3600)))
  postdated_accepted later named long absolute digits hex pre_state board =
      let at = now +ℤ ahead in
      (
        Passes-validate_request c postdated now (record {
          schema = req-schema c task nonce path manifest run at (pos 3600) pre;
          action = req-action c task nonce path manifest run at (pos 3600) pre;
          operation = req-operation c task nonce path manifest run at (pos 3600) pre;
          sealed = req-package c task nonce path manifest run at (pos 3600) pre absolute digits hex;
          pre = pre;
          pre_found = req-pre c task nonce path manifest run at (pos 3600) pre;
          pre_state = pre_state;
          board = board;
          task = req-task c task nonce path manifest run at (pos 3600) pre named long;
          expiry = postdated-expiry later;
        }),
        unfold request in refl,
      )

-- ===== src/Broker/Request/Stages.antt =====
-- What `validate_request` checks, stage by stage.
use hermes_keel.Base.{◌≡◌}
use hermes_keel.Base.Int.{ℤ}
use hermes_keel.Base.Result.{ok, >>=-eq-ok, >>-eq-ok}
use hermes_keel.Json.{Value}
use hermes_keel.Json.Access.{item}
use hermes_keel.Json.Codec.{Codec}
use hermes_keel.Broker.Request.Validate.{
  validate_request, check_schema, check_action, check_operation, check_package, check_pre_state,
  check_board, check_task, check_expiry,
}

pub record Passes (c : Codec) (req : Value) (now : ℤ) : Type 0 where
  pub schema : check_schema req ≡ ok tt
  pub action : check_action req ≡ ok tt
  pub operation : check_operation c req ≡ ok tt
  pub sealed : check_package req ≡ ok tt
  pub pre : Value
  pub pre_found : item "expected_pre_state" req ≡ ok pre
  pub pre_state : check_pre_state pre ≡ ok tt
  pub board : check_board pre ≡ ok tt
  pub task : check_task req ≡ ok tt
  pub expiry : check_expiry now req ≡ ok tt

module _ (c : Codec) (req : Value) (now : ℤ) where
  pub validate_request-Passes : validate_request c req now ≡ ok tt → Passes c req now
  unfolding validate_request
  validate_request-Passes h =
      let h1 = >>-eq-ok (check_schema req) _ h in
      let h2 = >>-eq-ok (check_action req) _ h1.1 in
      let h3 = >>-eq-ok (check_operation c req) _ h2.1 in
      let h4 = >>-eq-ok (check_package req) _ h3.1 in
      let h5 = >>=-eq-ok (item "expected_pre_state" req) _ h4.1 in
      let h6 = >>-eq-ok (check_pre_state h5.0) _ h5.2 in
      let h7 = >>-eq-ok (check_board h5.0) _ h6.1 in
      let h8 = >>-eq-ok (check_task req) _ h7.1 in
      record {
        schema = h1.0;
        action = h2.0;
        operation = h3.0;
        sealed = h4.0;
        pre = h5.0;
        pre_found = h5.1;
        pre_state = h6.0;
        board = h7.0;
        task = h8.0;
        expiry = h8.1;
      }

  pub Passes-validate_request : Passes c req now → validate_request c req now ≡ ok tt
  unfolding validate_request
  Passes-validate_request p = rw (
    p.schema, p.action, p.operation, p.sealed, p.pre_found, p.pre_state, p.board, p.task, p.expiry,
  )

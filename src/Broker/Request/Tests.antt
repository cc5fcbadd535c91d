-- ===== src/Broker/Request/Tests.antt =====
-- Runs of `make_request` and `validate_request`, and the theorems at concrete requests.
use hermes_keel.Base.{◌≡◌, ◌≤◌, refl, true, false, String, arith, count, has_prefix, none, some, []}
use hermes_keel.Base.Int.{ℤ, pos, ◌≤ℤ◌, ◌<ℤ◌, ◌-ℤ◌, ◌+ℤ◌}
use hermes_keel.Base.Result.{ok, err, rejected}
use hermes_keel.Json.{Value, null, num, text, dict, put}
use hermes_keel.Json.Access.{item, len}
use hermes_keel.Json.Equality.{eq}
use hermes_keel.Json.Codec.{Codec}
use hermes_keel.Broker.Request.Sealed.{sealed_package, fixture_pre_state, fixed_operation, rollback}
use hermes_keel.Broker.Request.Build.{request, make_request}
use hermes_keel.Broker.Request.Validate.{validate_request, any_not_hex}
use hermes_keel.Broker.Request.Accepts.{
  validate_request-lifetime, validate_request-task, validate_request-operation,
  validate_request-package,
}
use hermes_keel.Broker.Request.Accepted.{make_request_accepts}
use hermes_keel.Broker.Request.Lifetime.{postdated, postdated_accepted}

-- Digests that ignore their input: the checks of a request read none of it.
abbrev pub constant_codec : Codec
constant_codec = record {
  dumps = λ _. [];
  loads = λ _. none;
  str = λ _. "1";
  encode = λ _. [];
  sha256 = λ _. "5";
  hmac = λ _ _. "6";
  hmac_digest = λ _ _. [];
}

abbrev nonce_32 : String
nonce_32 = "abcdefghijklmnopqrstuvwxyz012345"

abbrev twos : String
twos = "2222222222222222222222222222222222222222222222222222222222222222"

abbrev sample : Value
sample =
    request constant_codec "t_1" (pos 7) nonce_32 (pos 100) (pos 1800) fixture_pre_state
      (sealed_package (text "/fixture/package") (text twos))

abbrev with_member : String → Value → Value
with_member k v = elim sample [ dict fs ↦ dict (put k v fs) | other ↦ other ]

sample_made :
    make_request constant_codec "t_1" (pos 7) nonce_32 (pos 100) (pos 1800) none none ≡ ok sample
unfolding make_request
sample_made = refl

sample-ok : validate_request constant_codec sample (pos 100) ≡ ok tt
unfolding validate_request make_request
sample-ok = refl

expired : validate_request constant_codec sample (pos 1900) ≡ err (rejected "expired")
unfolding validate_request make_request
expired = refl

too_long_lived :
    make_request constant_codec "t_1" (pos 7) nonce_32 (pos 100) (pos 3601) none none
    ≡ err (rejected "expired")
unfolding make_request
too_long_lived = refl

refusals :
    (validate_request constant_codec null (pos 100) ≡ err (rejected "bad-schema"))
    × (validate_request constant_codec (with_member "version" (num (pos 1))) (pos 100)
        ≡ err (rejected "bad-schema"))
    × (validate_request constant_codec (with_member "target_host" (text "x")) (pos 100)
        ≡ err (rejected "wrong-action-or-host"))
    × (validate_request constant_codec (with_member "rollback" null) (pos 100)
        ≡ err (rejected "operation-not-fixed"))
    × (validate_request constant_codec (with_member "sealed_package" null) (pos 100)
        ≡ err (rejected "bad-sealed-package"))
    × (validate_request constant_codec (with_member "expected_pre_state" null) (pos 100)
        ≡ err (rejected "bad-pre-state"))
    × (validate_request constant_codec (with_member "requester_run" (text "7")) (pos 100)
        ≡ err (rejected "bad-task-run"))
    × (validate_request constant_codec (with_member "nonce" (text "short")) (pos 100)
        ≡ err (rejected "bad-nonce"))
    × (validate_request constant_codec (with_member "created_at" null) (pos 100)
        ≡ err (rejected "bad-time"))
unfolding validate_request make_request
refusals = (refl, refl, refl, refl, refl, refl, refl, refl, refl)

validate_request-lifetime_example :
    (created expires : ℤ) × (item "created_at" sample ≡ ok (num created))
    × (item "expires_at" sample ≡ ok (num expires))
    × (pos 100 <ℤ expires)
    × (expires -ℤ created ≤ℤ pos 3600)
validate_request-lifetime_example =
    validate_request-lifetime constant_codec sample (pos 100) sample-ok

sample_names_its_task :
    (task nonce : String) × (run : ℤ) × (item "requester_task" sample ≡ ok (text task))
    × (has_prefix "t_" task ≡ true)
    × (item "requester_run" sample ≡ ok (num run))
    × (item "nonce" sample ≡ ok (text nonce))
    × (32 ≤ count nonce)
sample_names_its_task = validate_request-task constant_codec sample (pos 100) sample-ok

sample_asks_for_the_switch :
    (operation undo : Value) × (item "fixed_operation" sample ≡ ok operation)
    × (eq operation (fixed_operation constant_codec) ≡ true)
    × (item "rollback" sample ≡ ok undo)
    × (eq undo rollback ≡ true)
sample_asks_for_the_switch = validate_request-operation constant_codec sample (pos 100) sample-ok

sample_names_its_package :
    (path : String) × (manifest pkg : Value) × (item "sealed_package" sample ≡ ok pkg)
    × (eq pkg (sealed_package (text path) manifest) ≡ true)
    × (has_prefix "/" path ≡ true)
    × (len manifest ≡ ok 64)
    × (any_not_hex manifest ≡ ok false)
sample_names_its_package = validate_request-package constant_codec sample (pos 100) sample-ok

make_request_accepts_example :
    make_request constant_codec "t_1"
      (pos 7)
      nonce_32
      (pos 100)
      (pos 1800)
      (some fixture_pre_state)
      (some (sealed_package (text "/fixture/package") (text twos)))
    ≡ ok sample
unfolding validate_request make_request
make_request_accepts_example =
    make_request_accepts constant_codec "t_1" nonce_32 "/fixture/package" twos (pos 7) (pos 100)
      (pos 1800) fixture_pre_state refl (omega arith) (omega arith) (omega arith) refl refl refl
      refl refl

postdated_accepted_example :
    let late =
      postdated constant_codec "t_1" nonce_32 "/p" twos
        (pos 7)
        (pos 100)
        (pos 1000000)
        fixture_pre_state in
    (validate_request constant_codec late (pos 100) ≡ ok tt)
    × (item "expires_at" late ≡ ok (num (pos 100 +ℤ pos 1000000 +ℤ pos 3600)))
unfolding validate_request make_request
postdated_accepted_example =
    postdated_accepted constant_codec "t_1" nonce_32 "/p" twos (pos 7) (pos 100) (pos 1000000)
      fixture_pre_state (omega arith) refl (omega arith) refl refl refl refl refl

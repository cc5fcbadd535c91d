-- ===== src/Broker/Request/Accepts.antt =====
-- What an accepted request says.
use hermes_keel.Base.{
  ◌≡◌, ◌≤◌, refl, true, false, String, arith, count, has_prefix, not, ◌||◌, ltb, ◌==◌,
}
use hermes_keel.Base.Int.{ℤ, pos, ◌-ℤ◌, ◌≤ℤ◌, ◌<ℤ◌}
use hermes_keel.Base.Result.{ok, reject_if, >>=-eq-ok, >>-eq-ok}
use hermes_keel.Json.{Value, null, num, text}
use hermes_keel.Json.Access.{item, is_int, str_has_prefix, text_length_is, len}
use hermes_keel.Json.Codec.{Codec}
use hermes_keel.Broker.Request.Validate.{
  validate_request, check_times, check_expiry, check_task, check_operation, check_package,
  check_manifest, any_not_hex, get_or,
}
use hermes_keel.Broker.Request.Sealed.{fixed_operation, rollback, sealed_package}
use hermes_keel.Json.Equality.{eq}
use hermes_keel.Broker.Request.Stages.{validate_request-Passes}

check_times_lem :
    (now : ℤ) (created expires : Value)
    → check_times now created expires ≡ ok tt
    → (a b : ℤ) × (created ≡ num a) × (expires ≡ num b) × (now <ℤ b) × (b -ℤ a ≤ℤ pos 3600)
unfolding check_times
check_times_lem now (num a) (num b) h = (a, b, refl, refl, ground arith, ground arith)
check_times_lem now (num a) e h = ground arith
check_times_lem now _ e h = ground arith

check_expiry_lem :
    (now : ℤ) (req : Value)
    → check_expiry now req ≡ ok tt
    → (a b : ℤ) × (item "created_at" req ≡ ok (num a))
      × (item "expires_at" req ≡ ok (num b))
      × (now <ℤ b)
      × (b -ℤ a ≤ℤ pos 3600)
unfolding check_expiry
check_expiry_lem now req h =
    let (created, at_created, h1) = >>=-eq-ok (item "created_at" req) _ h in
    let (expires, at_expires, h2) = >>=-eq-ok (item "expires_at" req) _ h1 in
    let (a, b, p, q, later, short) = check_times_lem now created expires h2 in
    (a, b, cc, cc, later, short)

-- An accepted request carries integer times, has not expired, and was to live for an hour at most
-- after the creation that it states.
pub validate_request-lifetime :
    (c : Codec) (req : Value) (now : ℤ)
    → validate_request c req now ≡ ok tt
    → (created expires : ℤ) × (item "created_at" req ≡ ok (num created))
      × (item "expires_at" req ≡ ok (num expires))
      × (now <ℤ expires)
      × (expires -ℤ created ≤ℤ pos 3600)
validate_request-lifetime c req now h =
    check_expiry_lem now req (validate_request-Passes c req now h).expiry

text_with_prefix :
    (p : String) (v : Value)
    → str_has_prefix p v ≡ true
    → (s : String) × (v ≡ text s) × (has_prefix p s ≡ true)
text_with_prefix p (text s) h = (s, refl, h)
text_with_prefix p null h = cc
text_with_prefix p _ h = cc

int_value : (v : Value) → is_int v ≡ true → (n : ℤ) × (v ≡ num n)
int_value (num n) h = (n, refl)
int_value null h = cc
int_value _ h = cc

long_text :
    (v : Value)
    → text_length_is (λ n. not (ltb n 32)) v ≡ true
    → (s : String) × (v ≡ text s) × (32 ≤ count s)
long_text (text s) h = (s, refl, ground arith)
long_text null h = cc
long_text _ h = cc

check_task_lem :
    (req : Value)
    → check_task req ≡ ok tt
    → (task nonce : String) × (run : ℤ) × (item "requester_task" req ≡ ok (text task))
      × (has_prefix "t_" task ≡ true)
      × (item "requester_run" req ≡ ok (num run))
      × (item "nonce" req ≡ ok (text nonce))
      × (32 ≤ count nonce)
unfolding check_task
check_task_lem req h =
    let (run, at_run, h1) = >>=-eq-ok (item "requester_run" req) _ h in
    let (task, at_task, h2) = >>=-eq-ok (item "requester_task" req) _ h1 in
    let (named, h3) =
      >>-eq-ok (reject_if (not (is_int run) || not (str_has_prefix "t_" task)) "bad-task-run") _
        h2 in
    let (nonce, at_nonce, long) = >>=-eq-ok (item "nonce" req) _ h3 in
    let (r, is_r) = int_value run (ground arith) in
    let (t, is_t, prefixed) = text_with_prefix "t_" task (ground arith) in
    let (s, is_s, enough) = long_text nonce (ground arith) in
    (t, s, r, cc, prefixed, cc, cc, enough)

-- The task of an accepted request is named `t_…`, its run is an integer, and its nonce is a text of
-- at least 32 characters.
pub validate_request-task :
    (c : Codec) (req : Value) (now : ℤ)
    → validate_request c req now ≡ ok tt
    → (task nonce : String) × (run : ℤ) × (item "requester_task" req ≡ ok (text task))
      × (has_prefix "t_" task ≡ true)
      × (item "requester_run" req ≡ ok (num run))
      × (item "nonce" req ≡ ok (text nonce))
      × (32 ≤ count nonce)
validate_request-task c req now h = check_task_lem req (validate_request-Passes c req now h).task

check_operation_lem :
    (c : Codec) (req : Value)
    → check_operation c req ≡ ok tt
    → (operation undo : Value) × (item "fixed_operation" req ≡ ok operation)
      × (eq operation (fixed_operation c) ≡ true)
      × (item "rollback" req ≡ ok undo)
      × (eq undo rollback ≡ true)
unfolding check_operation
check_operation_lem c req h =
    let (operation, at_operation, h1) = >>=-eq-ok (item "fixed_operation" req) _ h in
    let (undo, at_undo, h2) = >>=-eq-ok (item "rollback" req) _ h1 in
    (operation, undo, at_operation, ground arith, at_undo, ground arith)

-- An accepted request asks for the fixed operation and the fixed rollback and for nothing else: each
-- of the two members equals the constant as Python compares values.
pub validate_request-operation :
    (c : Codec) (req : Value) (now : ℤ)
    → validate_request c req now ≡ ok tt
    → (operation undo : Value) × (item "fixed_operation" req ≡ ok operation)
      × (eq operation (fixed_operation c) ≡ true)
      × (item "rollback" req ≡ ok undo)
      × (eq undo rollback ≡ true)
validate_request-operation c req now h =
    check_operation_lem c req (validate_request-Passes c req now h).operation

check_manifest_lem :
    (path manifest : Value)
    → check_manifest path manifest ≡ ok tt
    → (s : String) × (path ≡ text s)
      × (has_prefix "/" s ≡ true)
      × (len manifest ≡ ok 64)
      × (any_not_hex manifest ≡ ok false)
unfolding check_manifest
check_manifest_lem path manifest h =
    let (absolute, h1) =
      >>-eq-ok (reject_if (not (str_has_prefix "/" path)) "bad-sealed-package") _ h in
    let (n, at_n, h2) = >>=-eq-ok (len manifest) _ h1 in
    let (is_64, h3) = >>-eq-ok (reject_if (not (n == 64)) "bad-sealed-package") _ h2 in
    let (odd, at_odd, h4) = >>=-eq-ok (any_not_hex manifest) _ h3 in
    let (s, is_s, prefixed) = text_with_prefix "/" path (ground arith) in
    let e : n ≡ 64 = ground arith in (s, is_s, prefixed, cc, ground arith)

-- An accepted request names a package by an absolute path and a manifest digest of 64 hexadecimal
-- places, and its three other members are the sealed constants.
pub validate_request-package :
    (c : Codec) (req : Value) (now : ℤ)
    → validate_request c req now ≡ ok tt
    → (path : String) × (manifest pkg : Value) × (item "sealed_package" req ≡ ok pkg)
      × (eq pkg (sealed_package (text path) manifest) ≡ true)
      × (has_prefix "/" path ≡ true)
      × (len manifest ≡ ok 64)
      × (any_not_hex manifest ≡ ok false)
unfolding check_package
validate_request-package c req now h =
    let sealed = (validate_request-Passes c req now h).sealed in
    let (pkg, at_pkg, h1) = >>=-eq-ok (item "sealed_package" req) _ sealed in
    let path = get_or (text "") "path" pkg in
    let manifest = get_or (text "") "manifest_sha256" pkg in
    let (same, h2) =
      >>-eq-ok (reject_if (not (eq pkg (sealed_package path manifest))) "bad-sealed-package") _
        h1 in
    let (s, is_s, absolute, digits, hex) = check_manifest_lem path manifest h2 in
    (s, manifest, pkg, at_pkg, rw (← is_s) (ground arith), absolute, digits, hex)

-- ===== src/Supervisor/Valid.antt =====
-- What an accepted request of the supervisor says.
use hermes_keel.Base.{ℕ, String, ◌≡◌, ap, ◌∙◌, Bool, true, false, not, some, List, arith}
use mathlib.Core.Path.{subst}
use hermes_keel.Base.Int.{ℤ, pos, ◌-ℤ◌, ◌≤ℤ◌}
use hermes_keel.Base.Result.{ok, rejected, or_raise, reject_if, ok_injective, >>=-eq-ok, >>-eq-ok}
use hermes_keel.Json.{Value, null, bool, num, text, dict, Fields, same_keys}
use hermes_keel.Json.Equality.{eq, eq-text}
use hermes_keel.Json.Access.{item}
use hermes_keel.Json.Codec.{Codec}
use hermes_keel.Supervisor.State.{service}
use hermes_keel.Supervisor.Request.{
  Request, request_keys, members, typed, matching, is_task_id, is_nonce, is_stale, check_members,
  validate_request,
}

pub record Valid (c : Codec) (raw : List ℕ) (board : String) (now : ℤ) (r : Request) : Type 0 where
  pub members_read : Fields
  pub read : c.loads raw ≡ some (dict members_read)
  pub keys : same_keys members_read request_keys ≡ true
  pub version : Value
  pub version_found : item "version" (dict members_read) ≡ ok version
  pub version_one : eq version (num (pos 1)) ≡ true
  pub task : item "task_id" (dict members_read) ≡ ok (text r.task_id)
  pub task_form : is_task_id r.task_id ≡ true
  pub nonce : item "nonce" (dict members_read) ≡ ok (text r.nonce)
  pub nonce_form : is_nonce r.nonce ≡ true
  pub dry : item "dry_run" (dict members_read) ≡ ok (bool r.dry_run)
  pub of_service : item "service" (dict members_read) ≡ ok (text service)
  pub of_board : item "board" (dict members_read) ≡ ok (text board)
  pub created : ℤ
  pub at : item "created_at" (dict members_read) ≡ ok (num created)
  pub not_old : now -ℤ created ≤ℤ pos 120
  pub not_ahead : created -ℤ now ≤ℤ pos 120

members_lem :
    (v : Value) {fs : Fields}
    → members v ≡ ok fs
    → (v ≡ dict fs) × (same_keys fs request_keys ≡ true)
members_lem (dict gs) {fs} h = ground arith
members_lem null h = cc
members_lem _ h = cc

typed_lem : (a b : Value) {d : Bool} {n : ℤ} → typed a b ≡ ok (d, n) → (a ≡ bool d) × (b ≡ num n)
typed_lem (bool x) (num m) h = (ground arith, ground arith)
typed_lem (bool x) v h = ground arith
typed_lem null v h = ground arith
typed_lem _ v h = ground arith

matching_lem :
    (test : String → Bool) (message : String) (v : Value) {s : String}
    → matching test message v ≡ ok s
    → (v ≡ text s) × (test s ≡ true)
matching_lem test message (text t) {s} h = ground arith
matching_lem test message null h = ground arith
matching_lem test message _ h = ground arith

fresh_lem :
    (now created : ℤ)
    → is_stale now created ≡ false
    → (now -ℤ created ≤ℤ pos 120) × (created -ℤ now ≤ℤ pos 120)
unfolding is_stale
fresh_lem now created h = ground arith

-- An accepted request is an object with exactly the seven keys; its version equals 1 as Python
-- compares, its task id and nonce have their forms, it names the service and the board of the supervisor, and the creation time that it states
-- is at most 120 seconds away from the time of the check, on either side.
pub validate_request-Valid :
    (c : Codec) (raw : List ℕ) (board : String) (now : ℤ) (r : Request)
    → validate_request c raw board now ≡ ok r
    → Valid c raw board now r
unfolding validate_request check_members
validate_request-Valid c raw board now r h =
    let (v, loaded, h1) = >>=-eq-ok (or_raise (c.loads raw) (rejected "malformed-json")) _ h in
    let (fs, object, h2) = >>=-eq-ok (members v) _ h1 in
    let (is_dict, keys) = members_lem v object in
    let (version, at_version, h3) = >>=-eq-ok (item "version" (dict fs)) _ h2 in
    let (dry, at_dry, h4) = >>=-eq-ok (item "dry_run" (dict fs)) _ h3 in
    let (created, at_created, h5) = >>=-eq-ok (item "created_at" (dict fs)) _ h4 in
    let (is_one, h6) =
      >>-eq-ok (reject_if (not (eq version (num (pos 1)))) "malformed-types") _ h5 in
    let ((d, n), types, h7) = >>=-eq-ok (typed dry created) _ h6 in
    let (task, at_task, h8) = >>=-eq-ok (item "task_id" (dict fs)) _ h7 in
    let (task_id, task_ok, h9) = >>=-eq-ok (matching is_task_id "malformed-task-id" task) _ h8 in
    let (secret, at_secret, h10) = >>=-eq-ok (item "nonce" (dict fs)) _ h9 in
    let (nonce, nonce_ok, h11) = >>=-eq-ok (matching is_nonce "malformed-nonce" secret) _ h10 in
    let (named, at_named, h12) = >>=-eq-ok (item "service" (dict fs)) _ h11 in
    let (right_service, h13) =
      >>-eq-ok (reject_if (not (eq named (text service))) "wrong-service") _ h12 in
    let (slug, at_slug, h14) = >>=-eq-ok (item "board" (dict fs)) _ h13 in
    let (right_board, h15) =
      >>-eq-ok (reject_if (not (eq slug (text board))) "wrong-board") _ h14 in
    let (fresh, h16) = >>-eq-ok (reject_if (is_stale now n) "stale-request") _ h15 in
    let (dry_is, created_is) = typed_lem dry created types in
    let (task_is, task_form) = matching_lem is_task_id "malformed-task-id" task task_ok in
    let (nonce_is, nonce_form) = matching_lem is_nonce "malformed-nonce" secret nonce_ok in
    let (old, ahead) = fresh_lem now n (ground arith) in
    subst (Valid c raw board now) (ok_injective _ _ h16) (record {
      members_read = fs;
      read = ground arith;
      keys = keys;
      version = version;
      version_found = at_version;
      version_one = ground arith;
      task = at_task ∙ ap ok task_is;
      task_form = task_form;
      nonce = at_secret ∙ ap ok nonce_is;
      nonce_form = nonce_form;
      dry = at_dry ∙ ap ok dry_is;
      of_service = at_named ∙ ap ok (eq-text named service (ground arith));
      of_board = at_slug ∙ ap ok (eq-text slug board (ground arith));
      created = n;
      at = at_created ∙ ap ok created_is;
      not_old = old;
      not_ahead = ahead;
    })

-- ===== src/Supervisor/Request.antt =====
-- `validate_request` of the supervisor.
use hermes_keel.Base.{
  ℕ, String, Bool, not, ◌||◌, ◌&&◌, List, [], ◌∷◌, ◌==◌, leb, all, codes, count, drop, has_prefix,
  if◌then◌else◌,
}
use hermes_keel.Base.Int.{ℤ, pos, ◌-ℤ◌, ltb_ℤ}
use hermes_keel.Base.Result.{Result, ok, err, rejected, or_raise, reject_if, ◌>>=◌, ◌>>◌}
use hermes_keel.Json.{Value, bool, num, text, dict, Fields, same_keys}
use hermes_keel.Json.Equality.{eq}
use hermes_keel.Json.Access.{item}
use hermes_keel.Json.Codec.{Codec}
use hermes_keel.Supervisor.State.{service}

abbrev pub request_keys : List String
request_keys = "version" ∷ "task_id" ∷ "nonce" ∷ "service" ∷ "board" ∷ "created_at" ∷ "dry_run" ∷ []

abbrev pub max_age : ℕ
max_age = 120

-- The members of a validated request that `handle` uses.
pub record Request : Type 0 where
  pub task_id : String
  pub nonce : String
  pub dry_run : Bool

abbrev in_range : ℕ → ℕ → ℕ → Bool
in_range low high n = leb low n && leb n high

abbrev is_lower_hex : ℕ → Bool
is_lower_hex n = in_range 48 57 n || in_range 97 102 n

-- `TASK_RE.fullmatch`: `t_` and eight lower hexadecimal digits
unfoldable pub is_task_id : String → Bool
is_task_id s = has_prefix "t_" s && count s == 10 && all is_lower_hex (drop 2 (codes s))

abbrev is_nonce_char : ℕ → Bool
is_nonce_char n = in_range 65 90 n || in_range 97 122 n || in_range 48 57 n || n == 95 || n == 45

-- `NONCE_RE.fullmatch`
unfoldable pub is_nonce : String → Bool
is_nonce s = in_range 32 128 (count s) && all is_nonce_char (codes s)

-- `not isinstance(req, dict) or set(req) != expected`
abbrev pub members : Value → Result Fields
members (dict fs) = if same_keys fs request_keys then ok fs else err (rejected "malformed-fields")
members _ = err (rejected "malformed-fields")

-- `type(req["dry_run"]) is not bool or type(req["created_at"]) is not int`
abbrev pub typed : Value → Value → Result (Bool × ℤ)
typed (bool b) (num n) = ok (b, n)
typed _ _ = err (rejected "malformed-types")

abbrev pub matching : (String → Bool) → String → Value → Result String
matching test message (text s) = if test s then ok s else err (rejected message)
matching test message _ = err (rejected message)

-- `abs(now - created) > MAX_AGE`
unfoldable pub is_stale : ℤ → ℤ → Bool
unfolding ◌-ℤ◌
is_stale now created = ltb_ℤ (pos max_age) (now -ℤ created) || ltb_ℤ (pos max_age) (created -ℤ now)

unfoldable pub check_members : Fields → String → ℤ → Result Request
unfolding eq is_task_id is_nonce is_stale
check_members fs board now = do
  version ← item "version" (dict fs)
  dry ← item "dry_run" (dict fs)
  created ← item "created_at" (dict fs)
  reject_if (not (eq version (num (pos 1)))) "malformed-types"
  (dry_run, created_at) ← typed dry created
  task ← item "task_id" (dict fs)
  task_id ← matching is_task_id "malformed-task-id" task
  secret ← item "nonce" (dict fs)
  nonce ← matching is_nonce "malformed-nonce" secret
  named ← item "service" (dict fs)
  reject_if (not (eq named (text service))) "wrong-service"
  slug ← item "board" (dict fs)
  reject_if (not (eq slug (text board))) "wrong-board"
  reject_if (is_stale now created_at) "stale-request"
  ok (record { task_id = task_id; nonce = nonce; dry_run = dry_run })

module _ (c : Codec) where
  unfoldable pub validate_request : List ℕ → String → ℤ → Result Request
  unfolding check_members
  validate_request raw board now = do
    req ← or_raise (c.loads raw) (rejected "malformed-json")
    fs ← members req
    check_members fs board now

-- ===== src/Bench/Gateway.antt =====
-- `verify_gateway_restart_v2`: whether a receipt shows a restart that went through.
use hermes_keel.Base.{String, Bool, false, not, ◌&&◌, none, some, List, ◌==◌, all, if◌then◌else◌}
use hermes_keel.Base.Int.{pos, leb_ℤ}
use hermes_keel.Base.Result.{Result, ok, err, raised, key_error, value_error, or_raise, ◌>>=◌}
use hermes_keel.Json.{Value, null, bool, num, text, dict, Fields, get, has_key}
use hermes_keel.Json.Equality.{eq}
use hermes_keel.Json.Access.{text_length_is}
use hermes_keel.Supervisor.State.{Unicode}

-- the members of the contract that the check reads
pub record Contract : Type 0 where
  pub required_fields : List String
  pub task_id : Value

abbrev pub get_value : String → Fields → Value
get_value k fs = elim (get k fs) [ none ↦ null | some v ↦ v ]

abbrev is_false : Value → Bool
is_false (bool b) = not b
is_false _ = false

-- `not missing`
abbrev pub has_all : List String → Fields → Bool
has_all names fs = all (λ k. has_key k fs) names

-- `a and b`, which does not ask `b` when `a` is false
abbrev both : Result Bool → Result Bool → Result Bool
both a b = a >>= λ x. if x then b else ok false

module _ (u : Unicode) where
  -- `str(v).isdigit() and int(v) > 0`; of what is no text, only integers without a sign are digits
  unfoldable pub pid_of_value : Value → Result Bool
  pid_of_value (text s) =
      if u.isdigit s
      then (or_raise (u.int s) (raised value_error) >>= λ n. ok (not (leb_ℤ n (pos 0))))
      else ok false
  pid_of_value (num n) = ok (not (leb_ℤ n (pos 0)))
  pid_of_value _ = ok false

  -- `"0"` stands in for a member that is not there, which is then read all the same
  unfoldable pub state_ok : Value → Result Bool
  unfolding pid_of_value eq
  state_ok (dict fs) =
      if eq (get_value "ActiveState" fs) (text "active")
        && eq (get_value "SubState" fs) (text "running")
      then elim (get "MainPID" fs) [
        | none ↦ if u.isdigit "0" then err (raised key_error) else ok false
        | some v ↦ pid_of_value v
      ]
      else ok false
  state_ok _ = ok false

  abbrev pub pid_value : Value → Value
  pid_value (dict fs) = get_value "MainPID" fs
  pid_value _ = null

  -- the first element of what the check returns; both states have a process id when they are compared
  unfoldable pub verify_gateway_restart : Fields → Contract → Result Bool
  verify_gateway_restart receipt contract =
      let pre = get_value "pre" receipt in
      let post = get_value "post" receipt in
      both (state_ok pre) (state_ok post) >>= λ states_ok. ok (
        has_all contract.required_fields receipt
        && eq (get_value "task_id" receipt) contract.task_id
        && eq (get_value "service" receipt) (text "hermes-gateway.service")
        && is_false (get_value "dry_run" receipt)
        && eq (get_value "exit_status" receipt) (num (pos 0))
        && eq (get_value "detail" receipt) (text "restart-complete")
        && text_length_is (λ n. n == 64) (get_value "nonce_sha256" receipt)
        && states_ok
        && not (eq (pid_value pre) (pid_value post)))

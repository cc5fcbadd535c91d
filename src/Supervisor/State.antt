-- ===== src/Supervisor/State.antt =====
-- `state`, `require_pre_state` and `classify_result`: what `systemctl show` says of the service.
use hermes_keel.Base.{
  ℕ, String, Bool, true, false, not, ◌&&◌, Option, none, some, List, [], ◌∷◌, ◌==◌, ◌<>◌, any,
  str_eq, if◌then◌else◌,
}
use Prim.Native.Char.{Char, code}
use hermes_keel.Base.Int.{ℤ, pos, leb_ℤ, eq_ℤ}
use hermes_keel.Base.Result.{
  Result, ok, err, rejected, raised, key_error, value_error, or_raise, reject_if, ◌>>=◌, ◌>>◌,
}
use hermes_keel.Json.{text, Fields, end, field}

abbrev pub service : String
service = "hermes-gateway.service"

-- Python's methods on a text that read the tables of Unicode, `int` of a text, and whether bytes
-- decode as `json.loads` decodes them.
pub record Unicode : Type 0 where
  pub lower : String → String
  pub isdigit : String → Bool
  pub int : String → Option ℤ
  pub decodes : List ℕ → Bool

-- How `subprocess.run` of the query ends: with its exit code and its output, or with an exception.
pub data Query : Type 0 where
  timed_out not_run : Query
  exited : ℤ → String → Query

-- The ends of lines of `str.splitlines()`, which takes `\r\n` as one.
abbrev is_break : ℕ → Bool
is_break n = any (λ b. n == b) (10 ∷ 11 ∷ 12 ∷ 13 ∷ 28 ∷ 29 ∷ 30 ∷ 133 ∷ 8232 ∷ 8233 ∷ [])

abbrev cons_char : Char → List String → List String
cons_char c [] = String.◌∷◌ c "" ∷ []
cons_char c (l ∷ ls) = String.◌∷◌ c l ∷ ls

-- `s.splitlines()`. The flag says that `\r` came just before.
unfoldable text_lines : Bool → String → List String
text_lines after_cr String.[] = []
text_lines after_cr (String.◌∷◌ c s) =
    let rest = text_lines false s in
    let rest_cr = text_lines true s in
    if after_cr && code c == 10
    then rest
    else if code c == 13
    then "" ∷ rest_cr
    else if is_break (code c)
    then "" ∷ rest
    else cons_char c rest

-- `line.split("=", 1)` of a line that has the sign
unfoldable split_equals : String → Option (String × String)
split_equals String.[] = none
split_equals (String.◌∷◌ c s) =
    let rest = split_equals s in
    if code c == 61
    then some ("", s)
    else elim rest [ none ↦ none | some (k, v) ↦ some (String.◌∷◌ c k, v) ]

abbrev pub Properties : Type 0
Properties = List (String × String)

abbrev pub property : String → Properties → Option String
property k [] = none
property k ((j, v) ∷ ps) = if str_eq j k then some v else property k ps

abbrev pub set_property : String → String → Properties → Properties
set_property k v [] = (k, v) ∷ []
set_property k v ((j, w) ∷ ps) = if str_eq j k then (j, v) ∷ ps else (j, w) ∷ set_property k v ps

abbrev pub properties_fields : Properties → Fields
properties_fields [] = end
properties_fields ((k, v) ∷ ps) = field k (text v) (properties_fields ps)

abbrev set_line : Option (String × String) → Properties → Properties
set_line none ps = ps
set_line (some (k, v)) ps = set_property k v ps

parse_lines : List String → Properties → Properties
unfolding split_equals
parse_lines [] ps = ps
parse_lines (l ∷ ls) ps = parse_lines ls (set_line (split_equals l) ps)

abbrev pub state_required : List String
state_required = "MainPID" ∷ "ActiveState" ∷ "SubState" ∷ "NRestarts" ∷ "ControlGroup" ∷ []

abbrev is_missing : Properties → String → Bool
is_missing ps k = elim (property k ps) [ none ↦ true | some v ↦ str_eq v "" ]

-- `state`
unfoldable pub service_state : Query → Result Properties
unfolding text_lines parse_lines
service_state timed_out = err (rejected "state-query-timeout")
service_state not_run = err (rejected "state-query-failed")
service_state (exited code output) = do
  reject_if (not (eq_ℤ code (pos 0))) "state-query-failed"
  let values = parse_lines (text_lines false output) []
  reject_if (any (is_missing values) state_required) "state-incomplete"
  ok values

abbrev pub property_is : String → String → Properties → Bool
property_is k v ps = elim (property k ps) [ none ↦ false | some w ↦ str_eq w v ]

-- `ActiveState` is `active` and `SubState` is `running`
abbrev pub is_active : Properties → Bool
is_active ps = property_is "ActiveState" "active" ps && property_is "SubState" "running" ps

module _ (u : Unicode) where
  -- `str(ps.get("MainPID", "0")).isdigit() and int(ps["MainPID"]) > 0`
  unfoldable pub has_pid : Properties → Result Bool
  has_pid ps = elim (property "MainPID" ps) [
    | none ↦ if u.isdigit "0" then err (raised key_error) else ok false
    | some s ↦
        if u.isdigit s
        then (or_raise (u.int s) (raised value_error) >>= λ n. ok (not (leb_ℤ n (pos 0))))
        else ok false
  ]

  unfoldable pub require_pre_state : Properties → Result (Unit {0})
  unfolding has_pid
  require_pre_state pre = do
    reject_if (not (is_active pre)) "service-not-active"
    alive ← has_pid pre
    reject_if (not alive) "service-not-active"

  -- the exit status and the detail
  unfoldable pub classify_post : Properties → Result (ℤ × String)
  unfolding has_pid
  classify_post post =
      if not (is_active post)
      then ok (pos 1, "post-state-not-active")
      else (has_pid post >>= λ alive.
          ok (if alive then (pos 0, "restart-complete") else (pos 1, "post-state-not-active")))

  unfoldable pub classify_restart : Option ℤ → Option Properties → Result (ℤ × String)
  unfolding classify_post
  classify_restart none post = ok (pos 1, "restart-not-attempted")
  classify_restart (some code) post =
      if not (eq_ℤ code (pos 0))
      then ok (code, "restart-failed")
      else elim post [ none ↦ ok (pos 1, "post-state-missing") | some ps ↦ classify_post ps ]

  unfoldable pub classify_result :
      Bool → Option ℤ → Option Properties → Option String → Result (ℤ × String)
  unfolding classify_restart
  classify_result true restart_exit post post_error = ok (pos 0, "dry-run-authorized")
  classify_result false restart_exit post (some e) = ok (pos 1, "post-state-" <> e)
  classify_result false restart_exit post none = classify_restart restart_exit post

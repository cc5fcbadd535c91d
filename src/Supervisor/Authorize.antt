-- ===== src/Supervisor/Authorize.antt =====
-- `authorize`: the task on the board that allows a restart.
use hermes_keel.Base.{
  ℕ, zero, suc, String, Bool, true, false, not, ◌||◌, ◌&&◌, Option, none, some, List, [], ◌∷◌, ◌<>◌,
  any, has_part, has_prefix, if◌then◌else◌,
}
use hermes_keel.Base.Result.{Result, ok, err, rejected, or_raise, reject_if, ◌>>=◌, ◌>>◌}
use hermes_keel.Json.{Value, null, text}
use hermes_keel.Json.Equality.{eq}
use hermes_keel.Supervisor.State.{Unicode, service}

pub record TaskRow : Type 0 where
  pub title : Option String
  pub body : Option String
  pub status : Value
  pub completed_at : Value

-- The database file, and the rows of the task; none where SQLite raises.
pub record TaskDb : Type 0 where
  pub symlink : Bool
  pub regular : Bool
  pub rows : Option (List TaskRow)

abbrev pub execute_markers : List String
execute_markers =
    "captain explicitly authorized" ∷ "explicitly authorized restarting"
    ∷ "authorized restarting the" ∷ "perform the actual gateway restart" ∷ []

abbrev pub execute_deny : List String
execute_deny =
    "do not perform the actual gateway restart" ∷ "supervisor only" ∷ "dry-run only"
    ∷ "establishes the supervisor only" ∷ []

abbrev or_empty : Option String → String
or_empty none = ""
or_empty (some s) = s

-- the word starts within the next `n` characters, or right after them
abbrev within : ℕ → String → String → Bool
within n word String.[] = has_prefix word ""
within zero word (String.◌∷◌ c s) = has_prefix word (String.◌∷◌ c s)
within (suc n) word (String.◌∷◌ c s) = has_prefix word (String.◌∷◌ c s) || within n word s

abbrev skip : ℕ → String → String
skip n String.[] = ""
skip zero (String.◌∷◌ c s) = String.◌∷◌ c s
skip (suc n) (String.◌∷◌ c s) = skip n s

-- `re.search(r"restart.{0,80}gateway", text, re.DOTALL)`
unfoldable pub restart_near_gateway : String → Bool
restart_near_gateway String.[] = false
restart_near_gateway (String.◌∷◌ c s) =
    (has_prefix "restart" (String.◌∷◌ c s) && within 80 "gateway" (skip 6 s))
    || restart_near_gateway s

abbrev pub mentions : List String → String → Bool
mentions words s = any (λ w. has_part w s) words

abbrev pub the_row : List TaskRow → Result TaskRow
the_row (row ∷ []) = ok row
the_row _ = err (rejected "missing-or-ambiguous-task")

abbrev pub is_none : Value → Bool
is_none null = true
is_none _ = false

-- the tests on the text, which is in lower case
unfoldable pub check_text : Bool → String → Result (Unit {0})
unfolding restart_near_gateway
check_text dry_run s = do
  reject_if (not (has_part "gateway restart" s) && not (restart_near_gateway s))
      "restart-not-authorized"
  reject_if (not (mentions (service ∷ "hermes gateway" ∷ "telegram gateway" ∷ []) s))
      "service-not-authorized"
  if dry_run
      then ok tt
      else (reject_if (mentions execute_deny s) "execute-not-authorized"
          >> reject_if (not (mentions execute_markers s)) "execute-not-authorized")

module _ (u : Unicode) where
  abbrev pub task_text : TaskRow → String
  task_text row = u.lower (or_empty row.title <> "\n" <> or_empty row.body)

  unfoldable pub authorize : TaskDb → Bool → Result (Unit {0})
  unfolding check_text eq
  authorize db dry_run = do
    reject_if (db.symlink || not db.regular) "unsafe-board-db"
    rows ← or_raise db.rows (rejected "board-read-failed")
    row ← the_row rows
    reject_if (not (eq row.status (text "running")) || not (is_none row.completed_at))
        "inactive-task"
    check_text dry_run (task_text row)

-- ===== src/Broker/Authority.antt =====
-- The Kanban board as the authority of a request (privileged_broker/core.py): `_open_bound_board`
-- and `_task_active_connection`. The rows are what the queries of the source return.
pub mod Laws
pub mod Drift
pub mod Tests
use hermes_keel.Base.{
  ℕ, String, ◌<>◌, Bool, true, false, not, ◌&&◌, ◌||◌, Option, none, some, List, [], ◌∷◌,
}
use hermes_keel.Base.{◌==◌, str_eq, has_part, contains_text, all, if◌then◌else◌}
use hermes_keel.Base.Int.{ℤ, eq_ℤ}
use hermes_keel.Base.Result.{Result, ok, err, raised, key_error, or_raise, ◌>>=◌, ◌>>◌, reject_if}
use hermes_keel.Json.{Value, null, num, text, dict, Fields, get}
use hermes_keel.Json.Equality.{eq}
use hermes_keel.Json.Access.{item}

-- A row of `tasks`. A body is a text or NULL; the other columns hold any value.
pub record Task : Type 0 where
  pub id : String
  pub status : Value
  pub completed_at : Value
  pub body : Option String
  pub block_kind : Value
  pub current_run_id : Value

-- A row of `task_runs`.
pub record Run : Type 0 where
  pub id : ℤ
  pub task_id : String
  pub status : Value
  pub ended_at : Value
  pub outcome : Value

-- A row of `task_comments`.
pub record Comment : Type 0 where
  pub task_id : String
  pub body : Option String

pub record Board : Type 0 where
  pub tasks : List Task
  pub runs : List Run
  pub comments : List Comment
  pub task_columns : List String
  pub run_columns : List String

find_task : String → List Task → Option Task
find_task id [] = none
find_task id (t ∷ ts) = if str_eq t.id id then some t else find_task id ts

find_run : String → ℤ → List Run → Option Run
find_run task id [] = none
find_run task id (r ∷ rs) =
    if str_eq r.task_id task && eq_ℤ r.id id then some r else find_run task id rs

-- `… from tasks t join task_runs r on r.task_id=t.id where t.id=? and r.id=?`, the first row
unfoldable pub joined : Board → String → ℤ → Option (Task × Run)
unfolding find_task find_run
joined b task run = elim (find_task task b.tasks) [
  | none ↦ none
  | some t ↦ elim (find_run task run b.runs) [ none ↦ none | some r ↦ some (t, r) ]
]

abbrev pub is_null : Value → Bool
is_null null = true
is_null _ = false

unfoldable pub is_status : String → Value → Bool
unfolding eq
is_status s v = eq v (text s)

-- `x or ""`
abbrev or_empty : Option String → String
or_empty none = ""
or_empty (some s) = s

bodies : String → List Comment → List String
bodies task [] = []
bodies task (k ∷ ks) =
    let rest = bodies task ks in if str_eq k.task_id task then or_empty k.body ∷ rest else rest

-- `"\n".join(parts)`
join : List String → String
join [] = ""
join (s ∷ []) = s
join (s ∷ t ∷ ts) = s <> "\n" <> join (t ∷ ts)

-- The text that has to hold the hash: the body of the task and those of its comments.
unfoldable pub canonical_text : Board → Task → String
unfolding bodies join
canonical_text b t = or_empty t.body <> "\n" <> join (bodies t.id b.comments)

unfoldable pub is_extended : Board → Bool
is_extended b =
    contains_text "block_kind" b.task_columns
    && contains_text "current_run_id" b.task_columns
    && contains_text "outcome" b.run_columns

unfoldable pub active_origin : Task → Run → Bool
unfolding is_status
active_origin t r =
    is_status "running" t.status
    && is_null t.completed_at
    && is_status "running" r.status
    && is_null r.ended_at

-- the run whose id a column holds, if it holds an integer and the run is one of the task
unfoldable pub successor : Board → Task → Option Run
unfolding find_run
successor b t = elim t.current_run_id [ num id ↦ find_run t.id id b.runs | _ ↦ none ]

unfoldable pub is_live_successor : ℤ → Option Run → Bool
unfolding is_status
is_live_successor run none = false
is_live_successor run (some s) =
    not (eq_ℤ s.id run) && is_status "running" s.status && is_null s.ended_at && is_null s.outcome

-- The run was parked at the human gate, and a live successor carries the task on.
unfoldable pub human_gate_continuation : Board → Task → Run → Bool
unfolding is_status is_extended successor is_live_successor
human_gate_continuation b t r =
    is_extended b
    && is_status "blocked" r.status
    && not (is_null r.ended_at)
    && is_status "blocked" r.outcome
    && is_status "running" t.status
    && is_null t.completed_at
    && is_status "needs_input" t.block_kind
    && is_live_successor r.id (successor b t)

check_row : Board → String → Option (Task × Run) → Result (Unit {0})
unfolding active_origin human_gate_continuation canonical_text
check_row b request_hash none = reject_if true "inactive-task-run"
check_row b request_hash (some (t, r)) = do
  reject_if (not (active_origin t r || human_gate_continuation b t r)) "inactive-task-run"
  reject_if (not (has_part request_hash (canonical_text b t))) "request-hash-not-canonical"

-- `_task_active_connection`
unfoldable pub task_active : Board → String → ℤ → String → Result (Unit {0})
unfolding check_row joined
task_active b task run request_hash = check_row b request_hash (joined b task run)

-- What opening the board file gives: whether `os.open` works, the file's type and owner, whether
-- SQLite connects and measures it, whether `begin immediate` gets the lock, the identity measured
-- before and after that, and the rows that the queries then see.
pub record BoardFile : Type 0 where
  pub openable : Bool
  pub regular : Bool
  pub owner : ℕ
  pub connectable : Bool
  pub identity : Fields
  pub lockable : Bool
  pub fenced : Fields
  pub board : Board

abbrev pub fixture_path : String
fixture_path = "/fixture/kanban.db"

abbrev pub bound_keys : List String
bound_keys = "path" ∷ "uid" ∷ "gid" ∷ "mode" ∷ "device" ∷ "inode" ∷ "schema_sha256" ∷ []

abbrev pub fence_keys : List String
fence_keys = "device" ∷ "inode" ∷ "schema_sha256" ∷ []

-- `a[key] != b[key]` for some of the keys, in their order
unfoldable pub check_drift : List String → Value → Value → Result (Unit {0})
unfolding eq
check_drift [] actual expected = ok tt
check_drift (k ∷ ks) actual expected =
    let rest = check_drift ks actual expected in
    do
      a ← item k actual
      e ← item k expected
      reject_if (not (eq a e)) "authoritative-board-drift"
      rest

abbrev sqlite_failure : Bool → String
sqlite_failure writable =
    if writable then "canonical-mutation-fence-unavailable" else "unsafe-board"

-- The lock and the second measurement of a writable board.
fence : BoardFile → Bool → Result Fields
unfolding check_drift
fence f false = ok f.identity
fence f true = do
  reject_if (not f.lockable) "canonical-mutation-fence-unavailable"
  check_drift fence_keys (dict f.fenced) (dict f.identity)
  ok f.fenced

check_identity : BoardFile → Value → Result (Unit {0})
unfolding eq check_drift
check_identity f expected = do
  path ← item "path" expected
  if eq path (text fixture_path) then ok tt else check_drift bound_keys (dict f.identity) expected

-- `_open_bound_board`: the identity that it returns. The connection is `f.board`.
unfoldable pub open_bound_board : ℕ → BoardFile → Value → String → ℤ → String → Bool → Result Fields
unfolding fence check_identity task_active
open_bound_board euid f req task run request_hash writable = do
  reject_if (not f.openable) "unsafe-board"
  reject_if (not (f.regular && (f.owner == 0 || f.owner == euid))) "unsafe-board"
  reject_if (not f.connectable) (sqlite_failure writable)
  pre ← item "expected_pre_state" req
  expected ← item "board_identity" pre
  check_identity f expected
  actual ← fence f writable
  task_active f.board task run request_hash
  ok actual

-- ===== src/Broker/Authority/Tests.antt =====
-- Boards, and the theorems about authority at them.
use hermes_keel.Base.{String, ◌≡◌, refl, inr, ◌↔◌, true, false, some, List, [], ◌∷◌}
use hermes_keel.Base.Int.{ℤ, pos}
use hermes_keel.Base.Result.{ok, err, rejected}
use hermes_keel.Json.{Value, null, num, text, dict, Fields, end, field}
use hermes_keel.Broker.Authority.{
  Board, BoardFile, Task, Run, task_active, joined, open_bound_board, fixture_path,
}
use hermes_keel.Broker.Authority.Laws.{Authorised, task_active_iff, task_active_of_closed}
use hermes_keel.Broker.Authority.Drift.{Fenced, open_bound_board-Fenced, open_bound_board_fixture}

abbrev task_row : Value → Value → Task
task_row status completed = record {
  id = "t_1";
  status = status;
  completed_at = completed;
  body = some "please";
  block_kind = text "needs_input";
  current_run_id = num (pos 8);
}

abbrev run_row : ℤ → Value → Value → Value → Run
run_row id status ended outcome = record {
  id = id;
  task_id = "t_1";
  status = status;
  ended_at = ended;
  outcome = outcome;
}

abbrev board_of : Task → List Run → Board
board_of t runs = record {
  tasks = t ∷ [];
  runs = runs;
  comments = record { task_id = "t_1"; body = some "approve abc123 now" } ∷ [];
  task_columns = "id" ∷ "block_kind" ∷ "current_run_id" ∷ [];
  run_columns = "id" ∷ "outcome" ∷ [];
}

abbrev pub running_board : Board
running_board =
    board_of (task_row (text "running") null) (run_row (pos 7) (text "running") null null ∷ [])

-- Run 7 is parked, run 8 carries the task on.
abbrev parked_board : Board
parked_board = board_of (task_row (text "running") null) (
    run_row (pos 7) (text "blocked") (num (pos 5)) (text "blocked")
    ∷ run_row (pos 8) (text "running") null null
    ∷ [])

abbrev done_board : Board
done_board =
    board_of (task_row (text "done") (num (pos 9)))
      (run_row (pos 7) (text "running") null null ∷ [])

runs_on_the_boards :
    (task_active running_board "t_1" (pos 7) "abc123" ≡ ok tt)
    × (task_active parked_board "t_1" (pos 7) "abc123" ≡ ok tt)
    × (task_active running_board "t_1" (pos 7) "abc124"
        ≡ err (rejected "request-hash-not-canonical"))
    × (task_active running_board "t_1" (pos 8) "abc123" ≡ err (rejected "inactive-task-run"))
    × (task_active done_board "t_1" (pos 7) "abc123" ≡ err (rejected "inactive-task-run"))
unfolding task_active
runs_on_the_boards = (refl, refl, refl, refl, refl)

running_board-Authorised : Authorised running_board "t_1" (pos 7) "abc123"
unfolding task_active
running_board-Authorised = (task_active_iff running_board "t_1" (pos 7) "abc123").0 refl

task_active_iff_example :
    (task_active parked_board "t_1" (pos 7) "abc123" ≡ ok tt)
    ↔ Authorised parked_board "t_1" (pos 7) "abc123"
task_active_iff_example = task_active_iff parked_board "t_1" (pos 7) "abc123"

done_board_refused :
    task_active done_board "t_1" (pos 7) "abc123" ≡ err (rejected "inactive-task-run")
unfolding joined
done_board_refused =
    task_active_of_closed done_board "t_1" (pos 7) "abc123" (task_row (text "done") (num (pos 9)))
      (run_row (pos 7) (text "running") null null) refl (inr (λ e. cc))

abbrev pub measured : String → Fields
measured path = field "path" (text path) (
    field "uid" (num (pos 0)) (
      field "gid" (num (pos 0)) (
        field "mode" (num (pos 384)) (
          field "device" (num (pos 1))
            (field "inode" (num (pos 1)) (field "schema_sha256" (text "s") end))))))

abbrev pub board_file : BoardFile
board_file = record {
  openable = true;
  regular = true;
  owner = 0;
  connectable = true;
  identity = measured "/k.db";
  lockable = true;
  fenced = measured "/k.db";
  board = running_board;
}

abbrev sealed_to : String → Value
sealed_to path =
    dict (field "expected_pre_state" (dict (field "board_identity" (dict (measured path)) end)) end)

open_bound_board-Fenced_example :
    Fenced 1000 board_file (sealed_to "/k.db") "t_1" (pos 7) "abc123"
    × (measured "/k.db" ≡ measured "/k.db")
unfolding open_bound_board
open_bound_board-Fenced_example =
    open_bound_board-Fenced 1000 board_file (sealed_to "/k.db") "t_1" (pos 7) "abc123"
      {actual = measured "/k.db"} refl

drifted :
    open_bound_board 1000 board_file (sealed_to "/other.db") "t_1" (pos 7) "abc123" true
    ≡ err (rejected "authoritative-board-drift")
unfolding open_bound_board
drifted = refl

fixture_unbound :
    open_bound_board 1000 board_file (sealed_to fixture_path) "t_1" (pos 7) "abc123" false
    ≡ ok (measured "/k.db")
fixture_unbound =
    open_bound_board_fixture 1000 board_file (sealed_to fixture_path)
      (dict (field "board_identity" (dict (measured fixture_path)) end))
      (dict (measured fixture_path)) "t_1" (pos 7) "abc123" refl refl refl refl refl refl refl
      running_board-Authorised

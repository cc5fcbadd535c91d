-- ===== src/Broker/Authority/Laws.antt =====
-- When the board gives authority: `task_active` against a description by propositions.
use hermes_keel.Base.{String, ◌≡◌, ◌≢◌, refl, ◌⊎◌, ◌↔◌, true, ◌||◌, Option, none, some}
use hermes_keel.Base.{arith, has_part}
use hermes_keel.Base.Int.{ℤ, eq_ℤ_iff}
use hermes_keel.Base.Result.{ok, err, rejected}
use hermes_keel.Json.{Value, null, text}
use hermes_keel.Json.Equality.{eq-text, eq-text_refl}
use hermes_keel.Broker.Authority.{
  Board, Task, Run, joined, is_status, is_null, is_extended, successor, is_live_successor,
  active_origin, human_gate_continuation, canonical_text, check_row, task_active,
}

is_status_iff : (s : String) (v : Value) → (is_status s v ≡ true) ↔ (v ≡ text s)
unfolding is_status
is_status_iff s v = (eq-text v s, λ e. rw e (eq-text_refl s))

is_null_iff : (v : Value) → (is_null v ≡ true) ↔ (v ≡ null)
is_null_iff null = ground arith
is_null_iff _ = ground arith

-- The task and the run are both under way.
pub record Origin (t : Task) (r : Run) : Type 0 where
  pub task_runs : t.status ≡ text "running"
  pub task_open : t.completed_at ≡ null
  pub run_runs : r.status ≡ text "running"
  pub run_open : r.ended_at ≡ null

-- The run ended blocked at a human gate of a task that is under way again in another, live run.
pub record Parked (b : Board) (t : Task) (r : Run) : Type 0 where
  pub extended : is_extended b ≡ true
  pub run_blocked : r.status ≡ text "blocked"
  pub run_ended : r.ended_at ≢ null
  pub run_outcome : r.outcome ≡ text "blocked"
  pub task_runs : t.status ≡ text "running"
  pub task_open : t.completed_at ≡ null
  pub gate : t.block_kind ≡ text "needs_input"
  pub next : Run
  pub next_found : successor b t ≡ some next
  pub next_other : next.id ≢ r.id
  pub next_runs : next.status ≡ text "running"
  pub next_open : next.ended_at ≡ null
  pub next_undecided : next.outcome ≡ null

pub record Authorised (b : Board) (task : String) (run : ℤ) (request_hash : String) : Type 0 where
  pub t : Task
  pub r : Run
  pub found : joined b task run ≡ some (t, r)
  pub live : Origin t r ⊎ Parked b t r
  pub named : has_part request_hash (canonical_text b t) ≡ true

active_origin_iff : (t : Task) (r : Run) → (active_origin t r ≡ true) ↔ Origin t r
unfolding active_origin
active_origin_iff t r = ground (
  arith,
  is_status_iff "running" t.status,
  is_status_iff "running" r.status,
  is_null_iff t.completed_at,
  is_null_iff r.ended_at,
)

-- What `is_live_successor` finds in a run.
abbrev Live : ℤ → Option Run → Type 0
Live run o =
    (s : Run) × (o ≡ some s)
    × (s.id ≢ run)
    × (s.status ≡ text "running")
    × (s.ended_at ≡ null)
    × (s.outcome ≡ null)

is_live_successor-Live : (run : ℤ) (o : Option Run) → is_live_successor run o ≡ true → Live run o
unfolding is_live_successor
is_live_successor-Live run none h = cc
is_live_successor-Live run (some s) h = (
  s,
  refl,
  ground (arith, eq_ℤ_iff s.id run),
  (is_status_iff "running" s.status).0 (ground arith),
  (is_null_iff s.ended_at).0 (ground arith),
  (is_null_iff s.outcome).0 (ground arith),
)

Live-is_live_successor : (run : ℤ) (o : Option Run) → Live run o → is_live_successor run o ≡ true
unfolding is_live_successor
Live-is_live_successor run o (s, e, other, runs, open_, undecided) = rw e (
    ground (
      arith,
      eq_ℤ_iff s.id run,
      is_status_iff "running" s.status,
      is_null_iff s.ended_at,
      is_null_iff s.outcome,
    ))

human_gate-Parked :
    (b : Board) (t : Task) (r : Run) → human_gate_continuation b t r ≡ true → Parked b t r
unfolding human_gate_continuation
human_gate-Parked b t r h =
    let (s, found, other, runs, still, undecided) =
      is_live_successor-Live r.id (successor b t) (ground arith) in
    record {
      extended = ground arith;
      run_blocked = (is_status_iff "blocked" r.status).0 (ground arith);
      run_ended = ground (arith, is_null_iff r.ended_at);
      run_outcome = (is_status_iff "blocked" r.outcome).0 (ground arith);
      task_runs = (is_status_iff "running" t.status).0 (ground arith);
      task_open = (is_null_iff t.completed_at).0 (ground arith);
      gate = (is_status_iff "needs_input" t.block_kind).0 (ground arith);
      next = s;
      next_found = found;
      next_other = other;
      next_runs = runs;
      next_open = still;
      next_undecided = undecided;
    }

Parked-human_gate :
    (b : Board) (t : Task) (r : Run) → Parked b t r → human_gate_continuation b t r ≡ true
unfolding human_gate_continuation
Parked-human_gate b t r p = ground (
  arith,
  Live-is_live_successor r.id (successor b t)
      (p.next, p.next_found, p.next_other, p.next_runs, p.next_open, p.next_undecided),
  is_status_iff "blocked" r.status,
  is_null_iff r.ended_at,
  is_status_iff "blocked" r.outcome,
  is_status_iff "running" t.status,
  is_null_iff t.completed_at,
  is_status_iff "needs_input" t.block_kind,
)

live_iff :
    (b : Board) (t : Task) (r : Run)
    → ((active_origin t r || human_gate_continuation b t r) ≡ true) ↔ (Origin t r ⊎ Parked b t r)
live_iff b t r =
    ground (arith, active_origin_iff t r, human_gate-Parked b t r, Parked-human_gate b t r)

check_row_lem :
    (b : Board) (h : String) (o : Option (Task × Run))
    → check_row b h o ≡ ok tt
    → (t : Task) × (r : Run) × (o ≡ some (t, r))
      × ((active_origin t r || human_gate_continuation b t r) ≡ true)
      × (has_part h (canonical_text b t) ≡ true)
unfolding check_row
check_row_lem b h none e = cc
check_row_lem b h (some (t, r)) e = (t, r, refl, ground arith, ground arith)

task_active-Authorised :
    (b : Board) (task : String) (run : ℤ) (h : String)
    → task_active b task run h ≡ ok tt
    → Authorised b task run h
unfolding task_active
task_active-Authorised b task run h e =
    let (t, r, found, live, named) = check_row_lem b h (joined b task run) e in
    record { t = t; r = r; found = found; live = (live_iff b t r).0 live; named = named }

Authorised-task_active :
    (b : Board) (task : String) (run : ℤ) (h : String)
    → Authorised b task run h
    → task_active b task run h ≡ ok tt
unfolding task_active check_row
Authorised-task_active b task run h a = rw (a.found, (live_iff b a.t a.r).1 a.live, a.named)

-- The check passes exactly when the request's task and run are on the board, either both under way
-- or the run parked at a human gate and carried on by another live run, and the request's hash
-- stands in the task's body or comments.
pub task_active_iff :
    (b : Board) (task : String) (run : ℤ) (request_hash : String)
    → (task_active b task run request_hash ≡ ok tt) ↔ Authorised b task run request_hash
task_active_iff b task run h =
    (task_active-Authorised b task run h, Authorised-task_active b task run h)

-- A task that has completed, or whose status is not `running`, gives no authority to any of its runs.
pub task_active_of_closed :
    (b : Board) (task : String) (run : ℤ) (request_hash : String) (t : Task) (r : Run)
    → joined b task run ≡ some (t, r)
    → (t.status ≢ text "running") ⊎ (t.completed_at ≢ null)
    → task_active b task run request_hash ≡ err (rejected "inactive-task-run")
unfolding task_active check_row active_origin human_gate_continuation
task_active_of_closed b task run h t r found closed =
    rw found (ground (arith, is_status_iff "running" t.status, is_null_iff t.completed_at))

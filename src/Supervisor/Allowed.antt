-- ===== src/Supervisor/Allowed.antt =====
-- The tasks that `authorize` lets restart the service.
use hermes_keel.Base.{
  String, ◌≡◌, ◌↔◌, Bool, true, false, not, ◌||◌, some, List, [], ◌∷◌, arith, has_part,
}
use hermes_keel.Base.Result.{ok, rejected, or_raise, reject_if, >>=-eq-ok, >>-eq-ok}
use hermes_keel.Json.{Value, null, text}
use hermes_keel.Json.Equality.{eq, eq-text}
use hermes_keel.Supervisor.State.{Unicode, service}
use hermes_keel.Supervisor.Authorize.{
  TaskRow, TaskDb, execute_markers, execute_deny, restart_near_gateway, mentions, the_row, is_none,
  check_text, task_text, authorize,
}

-- The text asks for a restart of the gateway, and for a live one only in the right words.
pub record Named (dry_run : Bool) (s : String) : Type 0 where
  pub asks : (has_part "gateway restart" s || restart_near_gateway s) ≡ true
  pub serves : mentions (service ∷ "hermes gateway" ∷ "telegram gateway" ∷ []) s ≡ true
  pub undenied : dry_run ≡ false → mentions execute_deny s ≡ false
  pub marked : dry_run ≡ false → mentions execute_markers s ≡ true

pub record Allowed (u : Unicode) (db : TaskDb) (dry_run : Bool) : Type 0 where
  pub row : TaskRow
  pub rows : db.rows ≡ some (row ∷ [])
  pub no_link : db.symlink ≡ false
  pub is_file : db.regular ≡ true
  pub runs : row.status ≡ text "running"
  pub undone : row.completed_at ≡ null
  pub named : Named dry_run (task_text u row)

check_text-Named : (dry_run : Bool) (s : String) → check_text dry_run s ≡ ok tt → Named dry_run s
unfolding check_text
check_text-Named dry_run s h = record {
  asks = ground arith;
  serves = ground arith;
  undenied = λ live. ground arith;
  marked = λ live. ground arith;
}

Named-check_text : (dry_run : Bool) (s : String) → Named dry_run s → check_text dry_run s ≡ ok tt
unfolding check_text
Named-check_text dry_run s n =
    let asks = n.asks in
    let serves = n.serves in let undenied = n.undenied in let marked = n.marked in ground arith

is_none_iff : (v : Value) → (is_none v ≡ true) ↔ (v ≡ null)
is_none_iff null = ground arith
is_none_iff _ = ground arith

the_row_lem : (rows : List TaskRow) {row : TaskRow} → the_row rows ≡ ok row → rows ≡ row ∷ []
the_row_lem [] h = cc
the_row_lem (r ∷ []) h = cc
the_row_lem (r ∷ s ∷ rows) h = cc

authorize-Allowed :
    (u : Unicode) (db : TaskDb) (dry_run : Bool)
    → authorize u db dry_run ≡ ok tt
    → Allowed u db dry_run
unfolding authorize
authorize-Allowed u db dry_run h =
    let (safe, h1) = >>-eq-ok (reject_if (db.symlink || not db.regular) "unsafe-board-db") _ h in
    let (rows, read, h2) = >>=-eq-ok (or_raise db.rows (rejected "board-read-failed")) _ h1 in
    let (row, single, h3) = >>=-eq-ok (the_row rows) _ h2 in
    let (active, h4) =
      >>-eq-ok
        (reject_if (not (eq row.status (text "running")) || not (is_none row.completed_at))
          "inactive-task")
        _ h3 in
    let only : rows ≡ row ∷ [] = the_row_lem rows single in
    record {
      row = row;
      rows = ground arith;
      no_link = ground arith;
      is_file = ground arith;
      runs = eq-text row.status "running" (ground arith);
      undone = (is_none_iff row.completed_at).0 (ground arith);
      named = check_text-Named dry_run (task_text u row) h4;
    }

Allowed-authorize :
    (u : Unicode) (db : TaskDb) (dry_run : Bool)
    → Allowed u db dry_run
    → authorize u db dry_run ≡ ok tt
unfolding authorize
Allowed-authorize u db dry_run a =
    rw (a.no_link, a.is_file, a.rows, a.runs, a.undone)
      (Named-check_text dry_run (task_text u a.row) a.named)

-- A task authorises a request exactly when the database is a plain file that holds it once, running
-- and not completed, its title and body in lower case ask for a restart of the gateway and name the
-- service, and, unless the request is a dry run, hold none of the denying phrases and one at least of
-- the authorising ones.
pub authorize_iff :
    (u : Unicode) (db : TaskDb) (dry_run : Bool)
    → (authorize u db dry_run ≡ ok tt) ↔ Allowed u db dry_run
authorize_iff u db dry_run = (authorize-Allowed u db dry_run, Allowed-authorize u db dry_run)

-- ===== src/Supervisor/Tests.antt =====
-- Runs of the supervisor on a small host, and the theorems at them.
use hermes_keel.Base.{
  ℕ, ◌||◌, ◌≡◌, ◌↔◌, refl, true, false, none, some, Option, String, List, [], ◌∷◌, ◌++◌, ◌==◌,
  str_eq, if◌then◌else◌,
}
use hermes_keel.Base.Int.{pos}
use hermes_keel.Base.Result.{Result, ok, err, rejected, raised, os_error}
use hermes_keel.Base.Writing.{Writing}
use hermes_keel.Json.{Value, null, bool, num, text, dict, fields}
use hermes_keel.Json.Equality.{eq}
use hermes_keel.Json.Order.{key_ltb}
use hermes_keel.Json.Normal.{normal, insert}
use hermes_keel.Json.Codec.{Codec, ReadsBack}
use hermes_keel.Supervisor.State.{
  Unicode, exited, Properties, service, service_state, require_pre_state, classify_result,
}
use hermes_keel.Supervisor.Request.{validate_request}
use hermes_keel.Supervisor.Authorize.{TaskRow, TaskDb, authorize, restart_near_gateway}
use hermes_keel.Supervisor.Receipts.{Log, absent, plain, load_nonces, append_receipt, is_used}
use hermes_keel.Supervisor.Handle
use hermes_keel.Supervisor.Handle.{
  Host, World, Caller, Act, recorded, restarted, Plan, next, request_record, handle,
}
use hermes_keel.Supervisor.Classify.{Restarted, classify_result_iff}
use hermes_keel.Supervisor.Allowed.{Allowed, authorize_iff}
use hermes_keel.Supervisor.Spent.{request_record_spends}
use hermes_keel.Supervisor.Once.{IsOnce, Admitted, handle-IsOnce}
use hermes_keel.Supervisor.Ended.{Through, handle_ok}
use hermes_keel.Supervisor.Valid.{Valid, validate_request-Valid}

abbrev pub unicode : Unicode
unicode = record {
  lower = λ s. s;
  isdigit = λ s. str_eq s "42" || str_eq s "43" || str_eq s "0";
  int = λ s. some (if str_eq s "42" then pos 42 else if str_eq s "43" then pos 43 else pos 0);
  decodes = λ _. true;
}

abbrev pub caller : Caller
caller = record { uid = pos 1000; pid = pos 7; board = "zer0" }

abbrev secret : String
secret = "abcdefghijklmnopqrstuvwxyz_12345"

abbrev pub running : Properties
running =
    ("MainPID", "42")
    ∷ ("ActiveState", "active")
    ∷ ("SubState", "running")
    ∷ ("NRestarts", "0")
    ∷ ("ControlGroup", "/c")
    ∷ []

abbrev live_plan : Plan
live_plan = record {
  request = record { task_id = "t_0123abcd"; nonce = secret; dry_run = false };
  nonce_hash = "d";
  pre = running;
}

abbrev live_receipt : Codec → Value
live_receipt c = request_record c unicode caller live_plan (pos 1000)

abbrev live_request : Value
live_request = dict (
    fields (
      ("version", num (pos 1))
      ∷ ("task_id", text "t_0123abcd")
      ∷ ("nonce", text secret)
      ∷ ("service", text service)
      ∷ ("board", text "zer0")
      ∷ ("created_at", num (pos 950))
      ∷ ("dry_run", bool false)
      ∷ []))

abbrev pub blank : Codec
blank = record {
  dumps = λ _. [];
  loads = λ _. none;
  str = λ _. "1";
  encode = λ _. [];
  sha256 = λ _. "d";
  hmac = λ _ _. "6";
  hmac_digest = λ _ _. [];
}

-- one byte is read as the request, another as the receipt, which all receipts are written as
abbrev read : List ℕ → Option Value
read (b ∷ []) =
    if b == 1
    then some live_request
    else if b == 50
    then some (normal (live_receipt blank))
    else none
read _ = none

abbrev coded : Codec
coded = record blank { dumps = λ _. 50 ∷ []; loads = read }

abbrev output : String
output = "MainPID=42\nActiveState=active\nSubState=running\nNRestarts=0\nControlGroup=/c\n"

queries :
    (service_state (exited (pos 0) output) ≡ ok running)
    × (service_state (exited (pos 1) output) ≡ err (rejected "state-query-failed"))
    × (service_state (exited (pos 0) "MainPID=42\r\nActiveState=")
        ≡ err (rejected "state-incomplete"))
    × (require_pre_state unicode running ≡ ok tt)
    × (restart_near_gateway "please restart the hermes gateway now" ≡ true)
    × (restart_near_gateway "the gateway wants a restart" ≡ false)
unfolding service_state require_pre_state restart_near_gateway
queries = (refl, refl, refl, refl, refl, refl)

abbrev task : TaskRow
task = record {
  title = some "gateway restart";
  body = some "captain explicitly authorized hermes gateway";
  status = text "running";
  completed_at = null;
}

abbrev db : TaskDb
db = record { symlink = false; regular = true; rows = some (task ∷ []) }

abbrev writing : List ℕ → Writing
writing counts = record { opens = true; counts = counts; syncs = true }

abbrev host : Writing → Host
host how = record {
  State = ℕ;
  time = λ s. (pos 1000, s);
  task = λ _ s. (db, s);
  query = λ s. (exited (pos 0) output, s);
  restart = λ s. (Handle.exited (pos 0), s);
  writing = λ s. (how, s);
}

abbrev start : (how : Writing) → Log → World (host how)
start how log = record { state = 0; log = log; acts = [] }

-- a live run, whose writes come in two parts, and one whose first write stops
runs :
    ((handle coded unicode caller {h = host (writing (1 ∷ 1 ∷ []))}
        (1 ∷ [])
        (start (writing (1 ∷ 1 ∷ [])) absent)).1.log
      ≡ plain (50 ∷ 10 ∷ 50 ∷ 10 ∷ []))
    × (handle coded unicode caller {h = host (writing (1 ∷ []))}
          (1 ∷ [])
          (start (writing (1 ∷ [])) absent)
        ≡ (
          err (raised os_error),
          record (start (writing (1 ∷ [])) absent) { log = plain (50 ∷ []) },
        ))
unfolding handle next
runs = (refl, refl)

live_request-ok : validate_request coded (1 ∷ []) "zer0" (pos 1000) ≡ ok live_plan.request
unfolding validate_request
live_request-ok = refl

validate_request-Valid_example : Valid coded (1 ∷ []) "zer0" (pos 1000) live_plan.request
validate_request-Valid_example =
    validate_request-Valid coded (1 ∷ []) "zer0" (pos 1000) live_plan.request live_request-ok

classify_result_iff_example :
    (((detail : String) × (classify_result unicode false (some (pos 0)) (some running) none
          ≡ ok (pos 0, detail)))
      → Restarted unicode (some (pos 0)) (some running) none)
    × (Restarted unicode (some (pos 0)) (some running) none
        → classify_result unicode false (some (pos 0)) (some running) none
          ≡ ok (pos 0, "restart-complete"))
classify_result_iff_example = classify_result_iff unicode (some (pos 0)) (some running) none

authorize_iff_example : (authorize unicode db false ≡ ok tt) ↔ Allowed unicode db false
authorize_iff_example = authorize_iff unicode db false

task-ok : authorize unicode db false ≡ ok tt
unfolding authorize
task-ok = refl

live_receipt-ReadsBack : ReadsBack coded (live_receipt coded)
unfolding request_record
live_receipt-ReadsBack = record { loads-dumps = refl; dumps_line = (λ e. cc, refl) }

request_record_spends_example :
    (load_nonces coded unicode
        (append_receipt coded (writing (2 ∷ [])) (live_receipt coded) absent).1
      ≡ ok ([] ++ text "d" ∷ []))
    × (is_used "d" ([] ++ text "d" ∷ []) ≡ true)
unfolding load_nonces append_receipt
request_record_spends_example =
    request_record_spends coded unicode caller live_plan (pos 1000) (writing (2 ∷ [])) absent []
      live_receipt-ReadsBack tt refl refl

abbrev used_log : Log
used_log = plain (50 ∷ 10 ∷ [])

replay_refused :
    handle coded unicode caller {h = host (writing [])} (1 ∷ []) (start (writing []) used_log)
    ≡ (err (rejected "replayed-nonce"), start (writing []) used_log)
unfolding handle validate_request load_nonces normal insert request_record key_ltb eq next
replay_refused = refl

abbrev result_of : Result (Value × Value) → Value × Value
result_of (ok r) = r
result_of (err e) = (null, null)

abbrev live_run : Result (Value × Value) × World (host (writing (2 ∷ [])))
live_run =
    handle coded unicode caller {h = host (writing (2 ∷ []))} (1 ∷ [])
      (start (writing (2 ∷ [])) absent)

handle-IsOnce_example :
    IsOnce coded unicode caller
      (Admitted coded unicode caller (1 ∷ []) (pos 1000) (start (writing (2 ∷ [])) absent))
      live_run.1.acts
handle-IsOnce_example =
    handle-IsOnce coded unicode caller {h = host (writing (2 ∷ []))} (1 ∷ [])
      (start (writing (2 ∷ [])) absent) refl

handle_ok_example : Through (result_of live_run.0).0 (result_of live_run.0).1 [] live_run.1.acts
unfolding handle next
handle_ok_example =
    handle_ok coded unicode caller {h = host (writing (2 ∷ []))} (1 ∷ [])
      (start (writing (2 ∷ [])) absent) refl

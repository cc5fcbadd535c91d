-- ===== src/Broker/Execute/Once/Tests.antt =====
-- Two runs of one request on one ledger.
use hermes_keel.Base.{ℕ, ◌+◌, ◌≡◌, refl, ap, ◌∙◌, true, false, some, List, [], ◌∷◌, ◌++◌}
use hermes_keel.Base.Int.{ℤ, pos}
use hermes_keel.Base.Result.{Result, ok}
use hermes_keel.Json.{Value, null, bool, num, text, dict, Fields, fields}
use hermes_keel.Json.Codec.{Codec}
use hermes_keel.Json.Prefix.Lawful.{
  prefix_codec, prefix_codec-IsLawful, digits, prefix_dumps, prefix_loads,
}
use hermes_keel.Broker.Authority.{Board, open_bound_board}
use hermes_keel.Broker.Authority.Tests.{running_board, board_file}
use hermes_keel.Broker.Request.{validate_request, sealed_package, fixture_pre_state, request}
use hermes_keel.Broker.Ledger.Append.{append_chain}
use hermes_keel.Broker.Ledger.Chain.{Ledger, verify_chain}
use hermes_keel.Broker.Ledger.Tests.{written, file_of, new_ledger}
use hermes_keel.Broker.Execute.World.{Host, World, lift, ◌>>=◌}
use hermes_keel.Broker.Execute.Run.{execute, job_of, execute_job}
use hermes_keel.Broker.Execute.Steps.{Job, append_phase, append_result, validate_fence}
use hermes_keel.Broker.Execute.Once.{here, ran, IsRefused, execute_once}
use hermes_keel.Broker.Execute.Covered.{is_unmutated}
use hermes_keel.Broker.Ledger.File.{records}
use hermes_keel.Json.Normal.{insert, normal}
use hermes_keel.Json.Order.{key_ltb}
use hermes_keel.Broker.Execute.Approval.{find_approval, is_spent}

abbrev approval_fields : Fields
approval_fields =
    fields
      (("request_sha256", text digits) ∷ ("expires_at", num (pos 500)) ∷ ("mac", text digits) ∷ [])

abbrev approved_board : Board
approved_board = record running_board {
  comments = record { task_id = "t_1"; body = some digits } ∷ [];
}

-- The state counts the calls of the clock.
abbrev host : Host
host = record {
  State = ℕ;
  euid = 0;
  time = λ s. (pos 100, s + 1);
  monotonic = λ s. (5, s);
  lock = λ s. (ok tt, s);
  approvals = λ s. (some (file_of (prefix_codec.dumps (dict approval_fields) ++ 10 ∷ [])), s);
  board = λ s. (record board_file { board = approved_board }, s);
  rows = λ s. (approved_board, s);
  outcome = λ s. (written, s);
  check_pre = λ _ s. (ok tt, s);
  mutate = λ _ s. (ok tt, s);
  health = λ _ s. (ok (fields (("ok", bool true) ∷ [])), s);
  rollback = λ _ s. (ok null, s);
  name = λ _. "E";
  message = λ _. "m";
}

abbrev req : Value
req =
    request prefix_codec "t_1" (pos 7) "abcdefghijklmnopqrstuvwxyz012345" (pos 100) (pos 1800)
      fixture_pre_state
      (sealed_package (text "/fixture/package")
        (text "2222222222222222222222222222222222222222222222222222222222222222"))

abbrev at_ledger : Ledger → World host
at_ledger l = record { state = 0; ledger = l; trace = [] }

abbrev job : Job
job = record {
  request = req;
  task = "t_1";
  run = pos 7;
  nonce = "abcdefghijklmnopqrstuvwxyz012345";
  operation_id = text "ollama-system-runtime-switch-v2:t_1:0:abcdefghijklmnopqrstuvwxyz012345";
}

abbrev first : Result Fields × World host
first = execute prefix_codec [] {h = host} req (pos 100) (at_ledger new_ledger)

execute_of_valid :
    (c : Codec) (key : List ℕ) {h : Host} (req : Value) (now : ℤ) (j : Job) (w : World h)
    → validate_request c req now ≡ ok tt
    → job_of req ≡ ok j
    → execute c key req now w ≡ execute_job c key j now w
unfolding execute ◌>>=◌ lift
execute_of_valid c key req now j w valid found = rw (valid, found) refl

req_valid : validate_request prefix_codec req (pos 100) ≡ ok tt
unfolding validate_request request fixture_pre_state
req_valid = refl

req_job : job_of req ≡ ok job
unfolding job_of request
req_job = refl

abbrev first_of_job : Result Fields × World host
first_of_job = execute_job prefix_codec [] job {h = host} (pos 100) (at_ledger new_ledger)

first_of_job_mutates : is_unmutated first_of_job.1.trace ≡ false
unfolding execute_job validate_request request ◌>>=◌ fixture_pre_state records prefix_dumps normal
    insert key_ltb prefix_loads find_approval verify_chain is_spent open_bound_board append_phase
    append_chain validate_fence append_result
first_of_job_mutates = refl

first_mutates : is_unmutated first.1.trace ≡ false
first_mutates =
    ap (λ (x : Result Fields × World host). is_unmutated x.1.trace)
      (execute_of_valid prefix_codec [] req (pos 100) job (at_ledger new_ledger) req_valid req_job)
    ∙ first_of_job_mutates

-- the ledger after the second run, which is to be refused too
abbrev second : Result Fields × World host
second = execute prefix_codec [] {h = host} req (pos 101) (at_ledger first.1.ledger)

execute_once_example :
    IsRefused
      (at_ledger second.1.ledger)
      (execute prefix_codec [] {h = host} req (pos 102) (at_ledger second.1.ledger))
execute_once_example =
    execute_once prefix_codec [] [] req req (pos 100) (pos 102) (at_ledger new_ledger)
      (at_ledger second.1.ledger) prefix_codec-IsLawful refl first_mutates
      (ran [] req (pos 101) (at_ledger first.1.ledger) here) refl

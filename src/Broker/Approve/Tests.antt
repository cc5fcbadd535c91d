-- ===== src/Broker/Approve/Tests.antt =====
-- An approval on the small ledger's codec, and the theorem at it.
use hermes_keel.Base.{ℕ, ◌++◌, ◌≡◌, refl, true, none, some, Option, List, [], ◌∷◌}
use hermes_keel.Base.Int.{pos}
use hermes_keel.Base.Result.{Result, ok, err, raised, os_error}
use hermes_keel.Base.Writing.{Writing, write_all}
use hermes_keel.Json.{dict, Fields, end}
use hermes_keel.Broker.Authority.{open_bound_board}
use hermes_keel.Broker.Authority.Tests.{board_file}
use hermes_keel.Broker.Request.{validate_request, request, fixture_pre_state}
use hermes_keel.Broker.Ledger.Tests.{toy, file_of}
use hermes_keel.Broker.Execute.Run.{job_of}
use hermes_keel.Broker.Execute.Tests.{small_request}
use hermes_keel.Broker.Approve.{Queueing, Desk, durable_append, approve, extended}
use hermes_keel.Broker.Approve.Signed.{Signed, approve-Signed}

abbrev writing : List ℕ → Writing
writing counts = record { opens = true; counts = counts; syncs = true }

abbrev empty_desk : Desk
empty_desk = record { approvals = none; queue = none }

abbrev queueing : Option Queueing
queueing = some (record { makes = true; count = 9; renames = true; dir_syncs = true })

abbrev record_of : Result Fields → Fields
record_of (ok r) = r
record_of (err e) = end

abbrev run : List ℕ → Result Fields × Desk
run counts =
    approve toy [] 0 board_file (writing counts) true queueing small_request (pos 1000) (pos 100)
      empty_desk

-- a write in full, and one that stops
runs :
    ((run (9 ∷ [])).1
      ≡ record { approvals = some (file_of (50 ∷ 10 ∷ [])); queue = some (10 ∷ []) })
    × (run [] ≡ (err (raised os_error), record { approvals = some (file_of []); queue = none }))
unfolding approve validate_request request fixture_pre_state job_of open_bound_board durable_append
    write_all
runs = (refl, refl)

approve-Signed_example :
    Signed toy [] board_file small_request (pos 1000) (pos 100) (record_of (run (9 ∷ [])).0)
    × ((run (9 ∷ [])).1.approvals
        ≡ extended 0 none (toy.dumps (dict (record_of (run (9 ∷ [])).0)) ++ 10 ∷ []))
unfolding approve validate_request request fixture_pre_state job_of open_bound_board durable_append
    write_all
approve-Signed_example =
    approve-Signed toy [] 0 board_file (writing (9 ∷ [])) true queueing small_request (pos 1000)
      (pos 100) empty_desk (record_of (run (9 ∷ [])).0) refl

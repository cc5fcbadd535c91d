-- ===== src/Lib.antt =====
-- A verification library for Hermes Keel: the broker that switches one privileged runtime under a
-- captain's approval, and the records that it keeps.
--
-- Files:
--   Base         names, tests on numbers and texts, integers, and Python's exceptions as values
--   Json         values as `json` reads and writes them: equality, access, the sorted normal form, and
--                the digests and the codec as a record of functions with laws (Json/Codec), and a
--                codec that has them (Json/Prefix)
--   Broker/Config, Broker/Request
--                privileged_broker/core.py, the constants, `make_request` and `validate_request`, one
--                check for each `raise`
--   Broker/Authority
--                `_open_bound_board` and `_task_active_connection`: a board is its rows and what
--                opening its file gives
--   Broker/Ledger
--                `_records` (File), `verify_chain` (Chain) and `append_chain` with `_atomic_write`
--                (Append), on the bytes of a file
--   Broker/Execute
--                `execute`: World is the state and the host, Steps the calls on the ledger and the
--                fence, Run the function itself with each handler and `finally`
--   Broker/Approve
--                `approve` and `_durable_append`, with the loop over `os.write` in Base/Writing
--   Broker/Backend
--                `OllamaBackend`: Captured (the captured state, `_assert_local_unique`), Machine (the
--                drop-in and the calls of the system), Checks (the tests of `rollback`) and Operations
--                (`check_pre`, `mutate`, `rollback`)
--   Package      privileged_broker/package_v2.py: Manifest (the rows of a manifest), Verify (`verify`),
--                Build (`build`) and Rehearse (`rehearse`, with the calls that may fail)
--   Bootstrap    privileged_broker/phase0_bootstrap.py: Binding (`_read_binding`), Fence
--                (`_open_ceremony_fence`), Source (`_open_source`, `_seal`) and Run (`main`)
--   Supervisor   supervisor/gateway_restart_supervisor.py: State (`state`, `require_pre_state`,
--                `classify_result`), Request (`validate_request`), Authorize (`authorize`), Receipts
--                (`load_nonces`, `append_receipt`) and Handle (`handle` and the reply of `serve`)
--   Bench        benchmarks/level0b/run.py: Manifest (`load_manifest`), Oracle (`Ledger`) and Gateway
--                (`verify_gateway_restart_v2`)
--
-- How the parts meet: `execute` validates the request, reads the approvals and the ledger, opens
-- and locks the board, and then appends a phase to the ledger before and after each call of the
-- backend. The state is passed on explicitly. The host supplies the clocks, the lock, the files,
-- how each write ends and the four methods of the backend, so that a theorem about a run holds
-- whatever they answer. `handle` of the supervisor reads its log of receipts, asks the board and
-- the service, and restarts between two receipts; the benchmark reads the second of them. The
-- ceremony of the bootstrap checks a source by the manifest that `build` writes and `verify`
-- reads, and emits the request that `make_request` makes. A directory is what its names open as, a
-- trial or a scene says which calls of the file system fail. Of install.sh a scene says whether it
-- succeeds and, where it does not, whether it leaves an authority installed.
--
-- Integers are Python's, unbounded (Base/Int). A float is a numerator over a power of two. There
-- is no fuel in the model: every loop of the modelled code runs over a list or a text. The reader
-- of Json/Prefix has the length of its input as fuel, which is more than any value written there
-- is deep. Python's tables of Unicode (`lower`, `isdigit`) are parameters.
--
-- Not modelled: how the backend captures a state and measures its health, which read systemd,
-- `/proc` and HTTP, and the command lines (privileged_broker/broker.py and
-- supervisor/gateway_restart_client.py), which run other programs; verify_level0.py, the checks of
-- a fixed packet of evidence; install.sh, which the bootstrap calls; and the benchmark's probe of
-- the router, its other case kinds and its reports.
pub mod Base
pub mod Json
pub mod Broker
pub mod Supervisor
pub mod Bench
pub mod Package
pub mod Bootstrap

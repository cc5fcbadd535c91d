-- ===== src/Bootstrap/Fence.antt =====
-- `_open_ceremony_fence`: the lock on the board and the authority of the ceremony.
use hermes_keel.Base.{
  String, Bool, true, false, not, ◌&&◌, ◌||◌, Option, none, some, has_part, if◌then◌else◌,
}
use hermes_keel.Base.Result.{Result, ok, err, raised, os_error, other, reject_if, ◌>>◌}
use hermes_keel.Json.{Value, dict, Fields}
use hermes_keel.Json.Equality.{eq}
use hermes_keel.Broker.Authority.{
  Task, Run, Board, joined, is_null, is_status, active_origin, canonical_text,
}
use hermes_keel.Broker.Ledger.Chain.{get_value}
use hermes_keel.Bootstrap.Binding.{Binding}

-- What opening the board for the ceremony gives: whether `os.open` works, whether SQLite connects and
-- `begin immediate` gets the lock, the identity measured under it and the rows.
pub record CeremonyBoard : Type 0 where
  pub openable : Bool
  pub lockable : Bool
  pub identity : Fields
  pub board : Board

-- `human_gate`
unfoldable pub waits_at_gate : Task → Run → Bool
unfolding is_status
waits_at_gate t r =
    is_status "blocked" t.status
    && is_null t.completed_at
    && is_status "needs_input" t.block_kind
    && is_status "blocked" r.status
    && not (is_null r.ended_at)
    && is_status "blocked" r.outcome

-- The row of the query; `running` is the test that the broker makes of an active run.
unfoldable pub is_authorised : Board → String → Option (Task × Run) → Bool
unfolding waits_at_gate active_origin canonical_text
is_authorised b hash none = false
is_authorised b hash (some (t, r)) =
    (active_origin t r || waits_at_gate t r) && has_part hash (canonical_text b t)

abbrev is_object : Value → Bool
is_object (dict fs) = true
is_object _ = false

-- The connection that it returns is `f.board` under the lock.
unfoldable pub open_fence : Bool → Binding → CeremonyBoard → Result (Unit {0})
unfolding is_authorised joined eq
open_fence fixture b f = do
  if f.openable then ok tt else err (raised os_error)
  if f.lockable then ok tt else err (raised (other "OperationalError"))
  reject_if (not (is_object (get_value "board_identity" b.packet))) "bad-board-identity"
  reject_if (not fixture && not (eq (dict f.identity) (get_value "board_identity" b.packet)))
      "binding-board-drift"
  reject_if (not (is_authorised f.board b.hash (joined f.board b.task b.run)))
      "inactive-or-unauthorized-binding"

-- ===== src/Broker/Backend/Tests.antt =====
-- A small machine, and the theorems about the backend at it.
use hermes_keel.Base.{ℕ, ◌≡◌, ◌≢◌, ◌↔◌, refl, true, none, some, Option, [], ◌∷◌}
use hermes_keel.Base.Int.{pos}
use hermes_keel.Base.Result.{Result, Error, ok, err}
use hermes_keel.Json.{Value, null, dict, fields, end}
use hermes_keel.Json.Codec.{Codec}
use hermes_keel.Json.Prefix.Lawful.{prefix_codec, digits}
use hermes_keel.Broker.Config.{old_binary, old_sha256, old_version, new_sha256}
use hermes_keel.Broker.Ledger.File.{File, regular}
use hermes_keel.Broker.Backend.Captured.{Captured, state_value, assert_local_unique, IsLocalUnique}
use hermes_keel.Broker.Backend.Machine.{Machine, World, write_raised, ◌>>=◌}
use hermes_keel.Broker.Backend.Checks.{made_file, dropin_bytes}
use hermes_keel.Broker.Backend.Operations.{rollback, mutate}
use hermes_keel.Broker.Backend.Unique.{assert_local_unique_iff}
use hermes_keel.Broker.Backend.Removed.{Unseals, rollback-Unseals}
use hermes_keel.Broker.Backend.Restored.{IsRolledBack, rollback-IsRolledBack}
use hermes_keel.Broker.Backend.Partial.{rollback_partial}

-- The digest of no bytes differs from that of some.
abbrev codec : Codec
codec = record prefix_codec { sha256 = λ bs. elim bs [ [] ↦ "00" | _ ↦ digits ] }

abbrev captured : Captured
captured = record {
  active = true;
  fragment = "/f";
  fragment_sha256 = digits;
  dropins = [];
  exec_start = [];
  environment = end;
  main_pid = pos 42;
  process_executable = old_binary;
  process_sha256 = old_sha256;
  version = old_version;
  daemon_pids = pos 42 ∷ [];
  listeners = record { address = "::1"; port = pos 11434; pid = pos 42 } ∷ [];
  model_store_manifest_sha256 = digits;
  board_identity = null;
}

abbrev exposed : Captured
exposed = record captured {
  listeners = record { address = "0.0.0.0"; port = pos 11434; pid = pos 42 } ∷ [];
}

abbrev machine : Machine
machine = record {
  State = ℕ;
  hostname = λ s. ("groot", s);
  hash_new = λ s. (ok new_sha256, s);
  capture = λ _ s. (ok captured, s);
  run = λ _ s. (ok (record { status = pos 0; stdout = ""; stderr = "" }), s);
  open_parent = λ s. (ok tt, s);
  open_dropin = λ s. (ok tt, s);
  write = λ s. (write_raised, s);
  unlink = λ s. (ok tt, s);
  sync = λ s. (ok tt, s);
}

abbrev sealed_request : Value
sealed_request = dict (fields (("expected_pre_state", state_value captured) ∷ []))

abbrev with_file : Option File → World machine
with_file f = record { state = 0; dropin = f; commands = [] }

abbrev sealed_file : File
sealed_file = record {
  kind = regular;
  owner = 0;
  mode = 420;
  content = dropin_bytes codec (λ _. "");
}

abbrev rolled : Result Value × World machine
rolled = rollback codec (λ _. "") {m = machine} sealed_request (with_file (some sealed_file))

abbrev evidence_of : Result Value → Value
evidence_of (ok v) = v
evidence_of (err e) = null

assert_local_unique_iff_example :
    (assert_local_unique exposed old_binary old_sha256 old_version ≡ ok tt)
    ↔ IsLocalUnique exposed old_binary old_sha256 old_version
assert_local_unique_iff_example = assert_local_unique_iff exposed old_binary old_sha256 old_version

rolled_returns : rolled ≡ (ok (evidence_of rolled.0), rolled.1)
unfolding rollback ◌>>=◌
rolled_returns = refl

rollback-IsRolledBack_example :
    IsRolledBack codec (λ _. "") machine sealed_request (with_file (some sealed_file)) rolled.1
rollback-IsRolledBack_example =
    rollback-IsRolledBack codec (λ _. "") {m = machine} sealed_request
      (with_file (some sealed_file)) rolled.1 (evidence_of rolled.0) rolled_returns

rollback-Unseals_example :
    Unseals codec (λ _. "") sealed_request (with_file (some sealed_file)) rolled
rollback-Unseals_example =
    rollback-Unseals codec (λ _. "") {m = machine} sealed_request (with_file (some sealed_file))

-- the write of `mutate` raises, and the rollback that follows can not remove the empty file
abbrev torn : World machine
torn = (mutate codec (λ _. "") {m = machine} sealed_request (with_file none)).1

torn_file : torn.dropin ≡ some (made_file codec (λ _. "") 0)
unfolding mutate ◌>>=◌
torn_file = refl

empty_differs : codec.sha256 [] ≢ codec.sha256 (dropin_bytes codec (λ _. ""))
empty_differs e = cc

rollback_partial_example :
    ((rollback codec (λ _. "") sealed_request torn).1.dropin ≡ torn.dropin)
    × ((e : Error) × ((rollback codec (λ _. "") sealed_request torn).0 ≡ err e))
rollback_partial_example =
    rollback_partial codec (λ _. "") {m = machine} sealed_request 0 torn torn_file empty_differs

-- ===== src/Broker/Ledger/Tests.antt =====
-- A ledger on a codec with constant digests, and the theorems at it.
use hermes_keel.Base.{
  true, ℕ, ◌+◌, ◌-◌, ◌≡◌, refl, ◌⊎◌, false, none, some, Option, String, List, [], ◌∷◌,
}
use hermes_keel.Base.{ltb, ◌==◌, if◌then◌else◌, str_eq}
use hermes_keel.Base.Int.{pos}
use hermes_keel.Base.Result.{ok, err, rejected, raised, os_error}
use hermes_keel.Json.{Value, null, num, text, dict, Fields, fields}
use hermes_keel.Json.Codec.{Codec}
use hermes_keel.Broker.Ledger.File.{File, regular, symlink}
use hermes_keel.Broker.Ledger.Chain.{Ledger, no_hash, verify_chain, get_value}
use hermes_keel.Broker.Ledger.Append.{Outcome, append_chain, sealed_record, chain_body}
use hermes_keel.Broker.Ledger.Verified.{IsSealed, verify_chain-IsSealed}
use hermes_keel.Broker.Ledger.Atomic.{IsAtomic, append_chain-IsAtomic}
use hermes_keel.Broker.Ledger.RoundTrip.{IsRecorded, append_chain-IsRecorded}
use hermes_keel.Json.Prefix.Lawful.{prefix_codec, prefix_codec-IsLawful}

abbrev digits : String
digits = "abc123"

abbrev nat_of : Value → ℕ
nat_of (num (pos n)) = n
nat_of _ = 0

-- A record is written as one byte by its place, a tip as another.
abbrev write : Value → List ℕ
write (dict fs) = elim (get_value "type" fs) [
  | text s ↦
      if str_eq s "ledger-snapshot-tip"
      then (100 + nat_of (get_value "sequence" fs)) ∷ []
      else (50 + nat_of (get_value "sequence" fs)) ∷ []
  | _ ↦ []
]
write _ = []

abbrev pub read_record : ℕ → Fields
read_record n = fields (
    ("type", text "operation-phase")
    ∷ ("sequence", num (pos n))
    ∷ ("previous_hash", text (if n == 1 then no_hash else digits))
    ∷ ("record_hash", text digits)
    ∷ ("request_sha256", text digits)
    ∷ ("phase", text "consumed")
    ∷ ("mac", text "6")
    ∷ [])

abbrev read_tip : ℕ → Fields
read_tip n = fields (
    ("type", text "ledger-snapshot-tip")
    ∷ ("version", num (pos 2))
    ∷ ("generation", num (pos n))
    ∷ ("ledger_id", text digits)
    ∷ ("sequence", num (pos n))
    ∷ ("terminal_record_hash", text digits)
    ∷ ("request_sha256", text digits)
    ∷ ("task", null)
    ∷ ("run", null)
    ∷ ("nonce_sha256", null)
    ∷ ("state", text "consumed")
    ∷ ("mac", text "6")
    ∷ [])

abbrev pub approval_record : Fields
approval_record =
    fields
      (("request_sha256", text digits) ∷ ("expires_at", num (pos 500)) ∷ ("mac", text "6") ∷ [])

abbrev read : List ℕ → Option Value
read (b ∷ []) =
    if b == 7
    then some (dict approval_record)
    else if ltb 100 b
    then some (dict (read_tip (b - 100)))
    else if ltb 50 b
    then some (dict (read_record (b - 50)))
    else none
read _ = none

abbrev pub toy : Codec
toy = record {
  dumps = write;
  loads = read;
  str = λ _. "1";
  encode = λ _. [];
  sha256 = λ _. digits;
  hmac = λ _ _. "6";
  hmac_digest = λ _ _. [];
}

-- The loop writes two bytes, then the rest.
abbrev pub written : Outcome
written = record {
  creates = true;
  counts = 2 ∷ 100000 ∷ [];
  syncs = true;
  renames = true;
  dir_syncs = true;
  unlinks = true;
}

-- the second write raises
abbrev pub cut_short : Outcome
cut_short = record written { counts = 2 ∷ [] }

abbrev unsynced : Outcome
unsynced = record written { dir_syncs = false }

abbrev pub file_of : List ℕ → File
file_of bytes = record { kind = regular; owner = 0; mode = 384; content = bytes }

abbrev pub ledger_of : Option File → Ledger
ledger_of f = record { path = "/ledger"; file = f; has_checkpoint = false }

abbrev pub new_ledger : Ledger
new_ledger = ledger_of none

abbrev pub one_record : Ledger
one_record = ledger_of (some (file_of (51 ∷ 10 ∷ 101 ∷ 10 ∷ [])))

abbrev body : Fields
body = fields (
    ("type", text "operation-phase")
    ∷ ("request_sha256", text digits)
    ∷ ("phase", text "consumed")
    ∷ [])

-- a chain, a chain without its tip, a record out of place, a partial frame, a link
ledgers_read :
    (verify_chain toy 0 new_ledger [] ≡ ok [])
    × (verify_chain toy 0 one_record [] ≡ ok (dict (read_record 1) ∷ []))
    × (verify_chain toy 0 (ledger_of (some (file_of (51 ∷ 10 ∷ [])))) []
        ≡ err (rejected "ledger-checkpoint-mismatch"))
    × (verify_chain toy 0 (ledger_of (some (file_of (52 ∷ 10 ∷ 102 ∷ 10 ∷ [])))) []
        ≡ err (rejected "ledger-chain-corrupt"))
    × (verify_chain toy 0 (ledger_of (some (file_of (51 ∷ 10 ∷ 101 ∷ [])))) []
        ≡ err (rejected "partial-ledger-frame"))
    × (verify_chain toy 0
          (ledger_of (some (record { kind = symlink; owner = 0; mode = 384; content = [] })))
          []
        ≡ err (rejected "malformed-ledger"))
unfolding verify_chain
ledgers_read = (refl, refl, refl, refl, refl, refl)

-- a first and a second record, a failed write, and a write that only the sync of the directory fails
appends :
    ((append_chain toy 0 written new_ledger [] body).1 ≡ one_record)
    × ((append_chain toy 0 written one_record [] body).1
        ≡ ledger_of (some (file_of (51 ∷ 10 ∷ 52 ∷ 10 ∷ 102 ∷ 10 ∷ []))))
    × (append_chain toy 0 cut_short one_record [] body ≡ (err (raised os_error), one_record))
    × (append_chain toy 0 unsynced new_ledger [] body ≡ (err (raised os_error), one_record))
unfolding append_chain verify_chain
appends = (refl, refl, refl, refl)

verify_chain-IsSealed_example :
    ((one_record.file ≡ none)
      × (one_record.has_checkpoint ≡ false)
      × (dict (read_record 1) ∷ [] ≡ []))
    ⊎ IsSealed toy 0 one_record [] (dict (read_record 1) ∷ [])
unfolding verify_chain
verify_chain-IsSealed_example =
    verify_chain-IsSealed toy 0 one_record [] (dict (read_record 1) ∷ []) refl

append_chain-IsAtomic_example :
    IsAtomic toy 0 written one_record [] body (append_chain toy 0 written one_record [] body)
append_chain-IsAtomic_example = append_chain-IsAtomic toy 0 written one_record [] body

abbrev chained : Fields
chained = sealed_record prefix_codec [] (chain_body prefix_codec [] (text no_hash) body)

append_returns :
    append_chain prefix_codec 0 written new_ledger [] body
    ≡ (ok chained, (append_chain prefix_codec 0 written new_ledger [] body).1)
unfolding append_chain hermes_keel.Json.Prefix.Lawful.prefix_dumps hermes_keel.Json.Normal.normal
    hermes_keel.Json.Normal.insert hermes_keel.Json.Order.key_ltb
    hermes_keel.Json.Prefix.Lawful.prefix_loads
append_returns = refl

append_chain-IsRecorded_example :
    IsRecorded prefix_codec 0 new_ledger
      (append_chain prefix_codec 0 written new_ledger [] body).1
      []
      body
      chained
append_chain-IsRecorded_example =
    append_chain-IsRecorded prefix_codec 0 written new_ledger
      (append_chain prefix_codec 0 written new_ledger [] body).1 [] body chained
      prefix_codec-IsLawful append_returns

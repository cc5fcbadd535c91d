-- ===== src/Broker/Ledger/Chain.antt =====
-- `verify_chain`: the chain of records, and the tip that authenticates its end.
use hermes_keel.Base.{
  ℕ, suc, String, Bool, not, ◌&&◌, ◌||◌, Option, none, some, List, [], ◌∷◌, codes,
}
use hermes_keel.Base.{str_eq, is_ascii, get_last?, if◌then◌else◌}
use hermes_keel.Base.Int.{pos}
use hermes_keel.Base.Result.{
  Result, ok, err, rejected, raised, type_error, attribute_error, ◌>>=◌, ◌>>◌, reject_if,
}
use hermes_keel.Json.{Value, null, num, text, dict, Fields, fields, get, put, without}
use hermes_keel.Json.Equality.{eq}
use hermes_keel.Json.Access.{item}
use hermes_keel.Json.Codec.{Codec}
use hermes_keel.Broker.Ledger.File.{File, records}

-- The path of a ledger, the file there, and whether the legacy checkpoint file exists.
pub record Ledger : Type 0 where
  pub path : String
  pub file : Option File
  pub has_checkpoint : Bool

abbrev pub no_hash : String
no_hash = "0000000000000000000000000000000000000000000000000000000000000000"

-- `d.get(k)`, with Python's `None` for a key that is not there
abbrev pub get_value : String → Fields → Value
get_value k fs = elim (get k fs) [ none ↦ null | some v ↦ v ]

-- `hmac.compare_digest` of two texts, which refuses any that is not ASCII
abbrev pub compare_digest : String → String → Result Bool
compare_digest a b = if is_ascii a && is_ascii b then ok (str_eq a b) else err (raised type_error)

abbrev pub split_last {ℓ} : {A : Type ℓ} → List A → Option (List A × A)
split_last [] = none
split_last (x ∷ xs) = elim (split_last xs) [ none ↦ some ([], x) | some (ys, y) ↦ some (x ∷ ys, y) ]

module _ (c : Codec) where
  -- `digest`
  abbrev pub digest : Value → String
  digest v = c.sha256 (c.dumps v)

  abbrev pub receipt_mac : List ℕ → Fields → String
  receipt_mac key body = c.hmac key (c.dumps (dict body))

  abbrev pub checkpoint_key : List ℕ → List ℕ
  checkpoint_key key = c.hmac_digest key (codes "keel-ledger-checkpoint-v1")

  -- `str(d.get("mac", ""))`
  unfoldable pub mac_text : Fields → String
  mac_text fs = elim (get "mac" fs) [ none ↦ "" | some (text s) ↦ s | some v ↦ c.str v ]

  abbrev pub record_body : Fields → Fields
  record_body = without ("record_hash" ∷ "mac" ∷ [])

  abbrev pub record_digest : Fields → String
  record_digest fs = digest (dict (record_body fs))

  unfoldable pub check_mac : List ℕ → Fields → Result (Unit {0})
  unfolding mac_text
  check_mac key fs = do
    let h = record_digest fs
    same ←
        compare_digest (mac_text fs) (receipt_mac key (put "record_hash" (text h) (record_body fs)))
    reject_if (not same) "ledger-chain-corrupt"

  -- One round of the loop: the record's digest is the next `previous`.
  unfoldable pub check_record : List ℕ → ℕ → String → Value → Result String
  unfolding check_mac eq
  check_record key sequence previous (dict fs) = do
    reject_if
        (not (eq (get_value "sequence" fs) (num (pos sequence)))
          || not (eq (get_value "previous_hash" fs) (text previous)))
        "ledger-chain-corrupt"
    reject_if (not (eq (get_value "record_hash" fs) (text (record_digest fs))))
        "ledger-chain-corrupt"
    check_mac key fs
    ok (record_digest fs)
  check_record key sequence previous _ = err (rejected "ledger-chain-corrupt")

  unfoldable pub check_records : List ℕ → ℕ → String → List Value → Result (Unit {0})
  unfolding check_record
  check_records key sequence previous [] = ok tt
  check_records key sequence previous (r ∷ rs) =
      check_record key sequence previous r >>= λ h. check_records key (suc sequence) h rs

  -- The tip that belongs to a terminal record, without its MAC.
  unfoldable pub tip : String → Value → Value → Fields → Fields
  tip path sequence record_hash fs = fields (
      ("type", text "ledger-snapshot-tip")
      ∷ ("version", num (pos 2))
      ∷ ("generation", sequence)
      ∷ ("ledger_id", text (c.sha256 (c.encode path)))
      ∷ ("sequence", sequence)
      ∷ ("terminal_record_hash", record_hash)
      ∷ ("request_sha256", get_value "request_sha256" fs)
      ∷ ("task", get_value "task" fs)
      ∷ ("run", get_value "run" fs)
      ∷ ("nonce_sha256", get_value "nonce_sha256" fs)
      ∷ ("state", elim (get "phase" fs) [ none ↦ get_value "type" fs | some v ↦ v ])
      ∷ [])

  -- `snapshot[-1].get("type") == "ledger-snapshot-tip"`
  unfoldable pub is_tip : Value → Result Bool
  unfolding eq
  is_tip (dict fs) = ok (eq (get_value "type" fs) (text "ledger-snapshot-tip"))
  is_tip _ = err (raised attribute_error)

  -- the records and the tip, if the last line is one
  unfoldable pub split_snapshot : List Value → Result (List Value × Option Fields)
  unfolding is_tip
  split_snapshot snapshot = elim (split_last snapshot) [
    | none ↦ ok ([], none)
    | some (rs, last) ↦ do
      found ← is_tip last
      ok (elim last [
        | dict fs ↦ if found then (rs, some fs) else (snapshot, none)
        | _ ↦ (snapshot, none)
      ])
  ]

  unfoldable pub check_tip : String → List ℕ → Value → Fields → Result (Unit {0})
  unfolding mac_text tip eq
  check_tip path key terminal found = do
    let body = without ("mac" ∷ []) found
    same ← compare_digest (mac_text found) (receipt_mac (checkpoint_key key) body)
    reject_if (not same) "ledger-checkpoint-corrupt"
    sequence ← item "sequence" terminal
    record_hash ← item "record_hash" terminal
    elim terminal [
      | dict fs ↦
          reject_if (not (eq (dict body) (dict (tip path sequence record_hash fs))))
            "ledger-checkpoint-mismatch"
      | _ ↦ err (raised attribute_error)
    ]

  -- What follows the loop, by the last record and the tip.
  unfoldable pub check_closing : String → List ℕ → Option Value → Option Fields → Result (Unit {0})
  unfolding check_tip
  check_closing path key none found = err (rejected "ledger-checkpoint-mismatch")
  check_closing path key (some terminal) none = err (rejected "ledger-checkpoint-mismatch")
  check_closing path key (some terminal) (some fs) = check_tip path key terminal fs

  unfoldable pub verify_file : ℕ → String → List ℕ → File → Result (List Value)
  unfolding records split_snapshot check_records check_closing
  verify_file euid path key f = do
    snapshot ← records c euid f
    (rs, found) ← split_snapshot snapshot
    check_records key 1 no_hash rs
    check_closing path key (get_last? rs) found
    ok rs

  unfoldable pub verify_chain : ℕ → Ledger → List ℕ → Result (List Value)
  unfolding verify_file
  verify_chain euid l key = elim l.file [
    | none ↦ (reject_if l.has_checkpoint "ledger-checkpoint-mismatch" >> ok [])
    | some f ↦ verify_file euid l.path key f
  ]

-- ===== src/Supervisor/Receipts.antt =====
-- `load_nonces` and `append_receipt`: the log of receipts, and its nonces.
use hermes_keel.Base.{
  ℕ, String, Bool, true, false, not, ◌&&◌, Option, none, some, List, [], ◌∷◌, ◌++◌, ◌==◌,
  cons_first, str_eq, any, if◌then◌else◌,
}
use hermes_keel.Base.Result.{
  Result, ok, err, rejected, raised, os_error, type_error, unicode_error, or_raise, reject_if,
  ◌>>=◌, ◌>>◌,
}
use hermes_keel.Base.Writing.{Writing, write_all}
use hermes_keel.Json.{Value, text, arr, dict, Fields, get, same_keys}
use hermes_keel.Json.Equality.{eq}
use hermes_keel.Json.Access.{item}
use hermes_keel.Json.Codec.{Codec}
use hermes_keel.Supervisor.State.{Unicode}

-- What stands at the path of the log: nothing, a link to nothing, something that is no plain file, or
-- a file with its bytes.
pub data Log : Type 0 where
  absent dangling odd : Log
  plain : List ℕ → Log

abbrev pub request_receipt_keys : List String
request_receipt_keys =
    "type" ∷ "timestamp" ∷ "caller_uid" ∷ "caller_pid" ∷ "task_id" ∷ "nonce_sha256" ∷ "dry_run"
    ∷ "service" ∷ "pre" ∷ []

abbrev pub result_receipt_keys : List String
result_receipt_keys =
    "type" ∷ "timestamp" ∷ "caller_uid" ∷ "caller_pid" ∷ "task_id" ∷ "nonce_sha256" ∷ "dry_run"
    ∷ "service" ∷ "pre" ∷ "post" ∷ "exit_status" ∷ "detail" ∷ []

-- `RECEIPT_TYPES.get(kind)`; a list or a dict has no hash
unfoldable pub receipt_keys : Value → Result (Option (List String))
receipt_keys (text s) = ok (
    if str_eq s "gateway-restart-request"
    then some request_receipt_keys
    else if str_eq s "gateway-restart-result"
    then some result_receipt_keys
    else none)
receipt_keys (arr vs) = err (raised type_error)
receipt_keys (dict fs) = err (raised type_error)
receipt_keys _ = ok none

-- `for line in stream`, without the ends of the lines, which `json.loads` skips
unfoldable pub log_lines : List ℕ → List (List ℕ)
log_lines [] = []
log_lines (b ∷ bs) = let rest = log_lines bs in if b == 10 then [] ∷ rest else cons_first b rest

-- `used.add(v)` needs a hash
abbrev hashable : Value → Result Value
hashable (arr vs) = err (raised type_error)
hashable (dict fs) = err (raised type_error)
hashable v = ok v

abbrev has_members : Option (List String) → Fields → Bool
has_members none fs = false
has_members (some names) fs = same_keys fs names

-- the nonce of one record
unfoldable pub receipt_nonce : Value → Result Value
unfolding receipt_keys
receipt_nonce (dict fs) = do
  kind ← or_raise (get "type" fs) (rejected "malformed-receipt")
  expected ← receipt_keys kind
  reject_if (not (has_members expected fs)) "malformed-receipt"
  nonce ← item "nonce_sha256" (dict fs)
  hashable nonce
receipt_nonce _ = err (rejected "malformed-receipt")

abbrev pub is_used : String → List Value → Bool
is_used nonce_hash used = any (λ v. eq v (text nonce_hash)) used

abbrev pub extend : Log → List ℕ → Log
extend absent bytes = plain bytes
extend (plain old) bytes = plain (old ++ bytes)
extend dangling bytes = dangling
extend odd bytes = odd

-- `O_NOFOLLOW` refuses a link, and what is no file is not written
abbrev pub writable : Log → Bool
writable absent = true
writable (plain old) = true
writable _ = false

module _ (c : Codec) where
  module _ (u : Unicode) where
    unfoldable pub line_nonce : List ℕ → Result Value
    unfolding receipt_nonce
    line_nonce line =
        or_raise (c.loads line)
          (if u.decodes line then rejected "malformed-receipt" else raised unicode_error)
        >>= receipt_nonce

    unfoldable pub lines_nonces : List (List ℕ) → Result (List Value)
    unfolding line_nonce
    lines_nonces [] = ok []
    lines_nonces (l ∷ ls) = line_nonce l >>= λ nonce. lines_nonces ls >>= λ rest. ok (nonce ∷ rest)

    unfoldable pub load_nonces : Log → Result (List Value)
    unfolding lines_nonces log_lines
    load_nonces absent = ok []
    load_nonces dangling = ok []
    load_nonces odd = err (rejected "unsafe-receipt-log")
    load_nonces (plain bytes) = lines_nonces (log_lines bytes)

  abbrev write_result : Bool → Bool → Result (Unit {0})
  write_result complete syncs = if complete && syncs then ok tt else err (raised os_error)

  unfoldable pub append_receipt : Writing → Value → Log → Result (Unit {0}) × Log
  unfolding write_all
  append_receipt w receipt log =
      if w.opens && writable log
      then (let (written, complete) = write_all w.counts (c.dumps receipt ++ 10 ∷ []) in
          (write_result complete w.syncs, extend log written))
      else (err (raised os_error), log)

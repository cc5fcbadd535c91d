-- ===== src/Broker/Backend/Checks.antt =====
-- The tests of `OllamaBackend` on captured states and on the file, which call nothing.
use hermes_keel.Base.{
  ℕ, ◌+◌, String, Bool, true, false, not, ◌&&◌, ◌||◌, Option, none, some, List, [], ◌∷◌, map, ◌==◌,
  str_eq, length, take, if◌then◌else◌,
}
use hermes_keel.Base.Int.{ℤ, eq_ℤ, ltb_ℤ}
use hermes_keel.Base.Result
use hermes_keel.Base.Result.{Result, ok, err, reject_if, rejected, raised, type_error, os_error}
use hermes_keel.Json.{Value, num, text, arr, dict, Items, nil, cons, fields}
use hermes_keel.Json.Equality.{eq}
use hermes_keel.Json.Order.{key_ltb}
use hermes_keel.Json.Access.{item}
use hermes_keel.Json.Codec.{Codec}
use hermes_keel.Broker.Config.{dropin, dropin_text}
use hermes_keel.Broker.Ledger.File.{File, Kind, regular, symlink, special}
use hermes_keel.Broker.Ledger.Chain.{digest}
use hermes_keel.Broker.Backend.Captured.{
  Captured, Member, Listener, members_value, state_fields, state_value,
}

abbrev other_dropins : List Member → List Member
other_dropins [] = []
other_dropins (d ∷ ds) =
    let rest = other_dropins ds in if str_eq d.path dropin then rest else d ∷ rest

-- `if current[k] != expected[k]`
abbrev expect : String → Value → Value → String → Result (Unit {0})
expect k v expected message = Result.◌>>=◌ (item k expected) λ w. reject_if (not (eq v w)) message

abbrev drift : String
drift = "rollback-target-drift"

-- the four comparisons of one `if`, which stops at the first that differs
unfoldable pub check_target : Captured → Value → Result (Unit {0})
unfolding eq
check_target current expected =
    Result.◌>>◌ (expect "fragment" (text current.fragment) expected drift) (
      Result.◌>>◌ (expect "fragment_sha256" (text current.fragment_sha256) expected drift) (
        Result.◌>>◌
          (expect "dropins" (members_value (other_dropins current.dropins)) expected drift)
          (expect "model_store_manifest_sha256" (text current.model_store_manifest_sha256) expected
            drift)))

-- `all(restored[key] == expected[key] for key in …)`
unfoldable pub all_same : List String → Value → Value → Result Bool
unfolding eq
all_same [] v expected = ok true
all_same (k ∷ ks) v expected =
    let rest = all_same ks v expected in
    Result.◌>>=◌ (item k v)
      λ a. Result.◌>>=◌ (item k expected) λ b. if eq a b then rest else ok false

abbrev Endpoint : Type 0
Endpoint = String × ℤ

-- `(x["address"], x["port"])`; what is no text or no integer counts as a `TypeError`
abbrev endpoint : Value → Result Endpoint
endpoint x = Result.◌>>=◌ (item "address" x) λ a. Result.◌>>=◌ (item "port" x) λ p. elim a [
  | text s ↦ elim p [ num n ↦ ok (s, n) | _ ↦ err (raised type_error) ]
  | _ ↦ err (raised type_error)
]

abbrev endpoints : Items → Result (List Endpoint)
endpoints nil = ok []
endpoints (cons x xs) =
    let rest = endpoints xs in Result.◌>>=◌ (endpoint x) λ e. Result.◌>>=◌ rest λ es. ok (e ∷ es)

abbrev pub listed : Value → Result (List Endpoint)
listed expected =
    Result.◌>>=◌ (item "listeners" expected)
      λ v. elim v [ arr xs ↦ endpoints xs | _ ↦ err (raised type_error) ]

abbrev endpoint_leb : Endpoint → Endpoint → Bool
endpoint_leb (s, m) (t, n) = key_ltb s t || (str_eq s t && not (ltb_ℤ n m))

abbrev insert : Endpoint → List Endpoint → List Endpoint
insert e [] = e ∷ []
insert e (f ∷ fs) = let rest = insert e fs in if endpoint_leb e f then e ∷ f ∷ fs else f ∷ rest

-- `sorted`
abbrev sort : List Endpoint → List Endpoint
sort [] = []
sort (e ∷ es) = insert e (sort es)

abbrev same_endpoints : List Endpoint → List Endpoint → Bool
same_endpoints [] [] = true
same_endpoints ((s, m) ∷ es) ((t, n) ∷ fs) = str_eq s t && eq_ℤ m n && same_endpoints es fs
same_endpoints _ _ = false

-- `PRE_STATE_KEYS - {"main_pid", "daemon_pids", "listeners"}`
abbrev pub stable_keys : List String
stable_keys =
    "service" ∷ "active" ∷ "fragment" ∷ "fragment_sha256" ∷ "dropins" ∷ "exec_start" ∷ "environment"
    ∷ "process_executable" ∷ "process_sha256" ∷ "version" ∷ "model_store"
    ∷ "model_store_manifest_sha256" ∷ "board_identity" ∷ []

abbrev pub is_some : {A : Type 0} → Option A → Bool
is_some none = false
is_some (some a) = true

abbrev pub is_regular_file : Kind → Bool
is_regular_file regular = true
is_regular_file symlink = false
is_regular_file special = false

-- `decode` is `bytes.decode()` of ASCII.
module _ (c : Codec) (decode : List ℕ → String) where
  abbrev pub dropin_bytes : List ℕ
  dropin_bytes = c.encode dropin_text

  -- `Rejected(canonical(…).decode())`
  abbrev pub report : List (String × Value) → Result.Error
  report fs = rejected (decode (c.dumps (dict (fields fs))))

  unfoldable pub check_restored : Captured → Value → Result (Unit {0})
  unfolding all_same state_fields key_ltb
  check_restored restored expected =
      Result.◌>>=◌ (all_same stable_keys (state_value restored) expected) λ stable.
        Result.◌>>=◌ (listed expected) λ before.
          let after = map (λ (l : Listener). (l.address, l.port)) restored.listeners in
          if not stable || not (same_endpoints (sort after) (sort before))
          then err (
              report (
                ("failure", text "rollback-post-state-mismatch")
                ∷ ("expected_sha256", text (digest c expected))
                ∷ ("actual_sha256", text (digest c (state_value restored)))
                ∷ []))
          else ok tt

  -- the file that `os.open` makes and `os.write` fills
  abbrev pub made_file : ℕ → File
  made_file n = record { kind = regular; owner = 0; mode = 420; content = take n dropin_bytes }

  unfoldable pub check_owner : File → Result (Unit {0})
  check_owner f =
      reject_if (not (is_regular_file f.kind) || not (f.owner == 0)) "rollback-dropin-identity"

  -- the digest of `os.read(fd, len(DROPIN_BYTES) + 1)`
  unfoldable pub check_content : File → Result (Unit {0})
  check_content f =
      reject_if
        (not (str_eq (c.sha256 (take (length dropin_bytes + 1) f.content)) (c.sha256 dropin_bytes)))
        "rollback-dropin-unsealed"

-- ===== src/Broker/Backend/Captured.antt =====
-- The state that `capture_pre_state` gives, and `_assert_local_unique`.
use hermes_keel.Base.{
  String, ◌≡◌, ◌≢◌, Bool, true, false, not, ◌&&◌, ◌||◌, List, [], ◌∷◌, map, ◌==◌, str_eq,
  contains_text, any, if◌then◌else◌, length,
}
use hermes_keel.Base.Int.{ℤ, pos, eq_ℤ}
use hermes_keel.Base.Result.{Result, ◌>>◌, reject_if}
use hermes_keel.Json.{Value, bool, num, text, arr, dict, Fields, fields, items}
use hermes_keel.Broker.Config.{service, port, model_store}

-- A row of `_listeners`.
pub record Listener : Type 0 where
  pub address : String
  pub port : ℤ
  pub pid : ℤ

pub record Member : Type 0 where
  pub path : String
  pub sha256 : String

-- The members of the dict that are not constant.
pub record Captured : Type 0 where
  pub active : Bool
  pub fragment : String
  pub fragment_sha256 : String
  pub dropins : List Member
  pub exec_start : List String
  pub environment : Fields
  pub main_pid : ℤ
  pub process_executable : String
  pub process_sha256 : String
  pub version : String
  pub daemon_pids : List ℤ
  pub listeners : List Listener
  pub model_store_manifest_sha256 : String
  pub board_identity : Value

abbrev member_value : Member → Value
member_value m = dict (fields (("path", text m.path) ∷ ("sha256", text m.sha256) ∷ []))

abbrev listener_value : Listener → Value
listener_value l =
    dict (fields (("address", text l.address) ∷ ("port", num l.port) ∷ ("pid", num l.pid) ∷ []))

abbrev pub members_value : List Member → Value
members_value ms = arr (items (map member_value ms))

-- the dict itself
unfoldable pub state_fields : Captured → Fields
state_fields s = fields (
    ("service", text service)
    ∷ ("active", bool s.active)
    ∷ ("fragment", text s.fragment)
    ∷ ("fragment_sha256", text s.fragment_sha256)
    ∷ ("dropins", members_value s.dropins)
    ∷ ("exec_start", arr (items (map text s.exec_start)))
    ∷ ("environment", dict s.environment)
    ∷ ("main_pid", num s.main_pid)
    ∷ ("process_executable", text s.process_executable)
    ∷ ("process_sha256", text s.process_sha256)
    ∷ ("version", text s.version)
    ∷ ("daemon_pids", arr (items (map num s.daemon_pids)))
    ∷ ("listeners", arr (items (map listener_value s.listeners)))
    ∷ ("model_store", text model_store)
    ∷ ("model_store_manifest_sha256", text s.model_store_manifest_sha256)
    ∷ ("board_identity", s.board_identity)
    ∷ [])

abbrev pub state_value : Captured → Value
state_value s = dict (state_fields s)

abbrev pub eq_ints : List ℤ → List ℤ → Bool
eq_ints [] [] = true
eq_ints (a ∷ as_) (b ∷ bs) = eq_ℤ a b && eq_ints as_ bs
eq_ints _ _ = false

abbrev pub is_foreign : ℤ → Listener → Bool
is_foreign main_pid l =
    not (contains_text l.address ("127.0.0.1" ∷ "::1" ∷ []))
    || not (eq_ℤ l.port (pos port))
    || not (eq_ℤ l.pid main_pid)

abbrev pub is_empty : {A : Type 0} → List A → Bool
is_empty [] = true
is_empty _ = false

-- the elements without those that come again later: `len` of it is the size of the set
abbrev pub distinct : List ℤ → List ℤ
distinct [] = []
distinct (a ∷ as_) = let rest = distinct as_ in if any (eq_ℤ a) as_ then rest else a ∷ rest

-- `not state["active"] or state["process_executable"] != executable or …`
abbrev pub is_other : Captured → String → String → String → Bool
is_other s executable sha256 version =
    not s.active
    || not (str_eq s.process_executable executable)
    || not (str_eq s.process_sha256 sha256)
    || not (str_eq s.version version)

unfoldable pub assert_local_unique : Captured → String → String → String → Result (Unit {0})
assert_local_unique s executable sha256 version = do
  reject_if (is_other s executable sha256 version) "runtime-identity-mismatch"
  reject_if (not (eq_ints s.daemon_pids (s.main_pid ∷ []))) "duplicate-or-unknown-daemon"
  reject_if (is_empty s.listeners || any (is_foreign s.main_pid) s.listeners)
      "listener-exposure-or-owner-mismatch"
  reject_if (not (length (distinct (map (λ (l : Listener). l.pid) s.listeners)) == 1))
      "duplicate-daemon"

-- A listener on a loopback address, at the port, of the process.
pub record IsLocal (pid : ℤ) (l : Listener) : Type 0 where
  pub loopback : contains_text l.address ("127.0.0.1" ∷ "::1" ∷ []) ≡ true
  pub at_port : l.port ≡ pos port
  pub owned : l.pid ≡ pid

abbrev pub All {ℓ} : {A : Type 0} → (A → Type ℓ) → List A → Type ℓ
All P [] = Unit
All P (x ∷ xs) = P x × All P xs

-- One active daemon of the identity, and its listeners only.
pub record IsLocalUnique (s : Captured) (executable sha256 version : String) : Type 0 where
  pub active_unit : s.active ≡ true
  pub same_executable : s.process_executable ≡ executable
  pub same_sha256 : s.process_sha256 ≡ sha256
  pub same_version : s.version ≡ version
  pub one_daemon : s.daemon_pids ≡ s.main_pid ∷ []
  pub listening : s.listeners ≢ []
  pub all_local : All (IsLocal s.main_pid) s.listeners

-- ===== src/Bootstrap/Binding.antt =====
-- `_read_binding`: the packet that binds one ceremony.
use hermes_keel.Base.{
  ℕ, String, Bool, false, not, ◌&&◌, ◌||◌, Option, none, some, List, [], ◌∷◌, ltb, ◌==◌,
  if◌then◌else◌, length, all, bytes_eq, codes, count, has_prefix,
}
use hermes_keel.Base.Int.{ℤ, pos, ◌-ℤ◌, leb_ℤ, ltb_ℤ}
use hermes_keel.Base.Result.{
  Result, ok, err, rejected, raised, os_error, or_raise, reject_if, ◌>>=◌, ◌>>◌,
}
use hermes_keel.Json.{Value, num, text, dict, Fields, without}
use hermes_keel.Json.Equality.{eq}
use hermes_keel.Json.Access.{as_dict, as_text, as_int, str_has_prefix, text_length_is}
use hermes_keel.Json.Codec.{Codec}
use hermes_keel.Broker.Ledger.File.{File, symlink, writable_by_others}
use hermes_keel.Broker.Ledger.Chain.{digest, get_value}
use hermes_keel.Broker.Request.{has_shape, is_hex}
use hermes_keel.Package.Verify.{is_regular, split_slash}

-- `BOARD`
abbrev pub board_path : String
board_path = "/home/kvn/.hermes/kanban/boards/zer0-company/kanban.db"

-- `HOST`
abbrev pub ceremony_host : String
ceremony_host = "groot"

-- `ACTION`
abbrev pub ceremony_action : String
ceremony_action = "ollama-system-runtime-switch-v2"

-- `keys`
abbrev pub binding_keys : List String
binding_keys =
    "schema" ∷ "task" ∷ "run" ∷ "board" ∷ "board_identity" ∷ "host" ∷ "source" ∷ "manifest_sha256"
    ∷ "action" ∷ "nonce" ∷ "created_at" ∷ "expires_at" ∷ "packet_sha256" ∷ []

-- What `_read_binding` returns, with the members of the packet that `main` reads.
pub record Binding : Type 0 where
  pub packet : Fields
  pub hash : String
  pub task : String
  pub run : ℤ
  pub source : String
  pub manifest_sha256 : String

-- The bytes of the binding's file, which `O_NOFOLLOW` does not follow.
unfoldable pub read_file : ℕ → Option File → Result (List ℕ)
unfolding writable_by_others
read_file owner none = err (raised os_error)
read_file owner (some f) = do
  elim f.kind [ symlink ↦ err (raised os_error) | _ ↦ ok tt ]
  reject_if (not (is_regular f.kind) || not (f.owner == owner) || writable_by_others f.mode)
      "unsafe-binding"
  reject_if (ltb 65536 (length f.content)) "binding-too-large"
  ok f.content

-- `type(v) is int and v > 0`
abbrev pub is_positive : Value → Bool
is_positive (num n) = ltb_ℤ (pos 0) n
is_positive _ = false

abbrev pub are_times : ℤ → Value → Value → Bool
are_times now (num created) (num expires) =
    leb_ℤ created now
    && ltb_ℤ now expires
    && ltb_ℤ created expires
    && leb_ℤ (expires -ℤ created) (pos 3600)
are_times now _ _ = false

-- the parts of a path that `Path` keeps
abbrev path_parts : List (List ℕ) → List (List ℕ)
path_parts [] = []
path_parts (p ∷ ps) =
    let rest = path_parts ps in if bytes_eq p [] || bytes_eq p (46 ∷ []) then rest else p ∷ rest

-- a path of exactly two leading slashes has another root
abbrev has_other_root : List ℕ → Bool
has_other_root (a ∷ b ∷ []) = a == 47 && b == 47
has_other_root (a ∷ b ∷ d ∷ bs) = a == 47 && b == 47 && not (d == 47)
has_other_root _ = false

abbrev is_below_var_tmp : List (List ℕ) → Bool
is_below_var_tmp (a ∷ b ∷ d ∷ []) = bytes_eq a (codes "var") && bytes_eq b (codes "tmp")
is_below_var_tmp _ = false

-- `Path(p).parent == Path("/var/tmp")` of an absolute path
unfoldable pub stands_in_var_tmp : String → Bool
stands_in_var_tmp p =
    not (has_other_root (codes p)) && is_below_var_tmp (path_parts (split_slash (codes p)))

abbrev pub is_source : Bool → Value → Bool
is_source fixture (text p) = has_prefix "/" p && (fixture || stands_in_var_tmp p)
is_source fixture _ = false

abbrev pub is_manifest_hash : Value → Bool
is_manifest_hash (text m) = count m == 64 && all is_hex (codes m)
is_manifest_hash _ = false

-- the conditions of the last check, none of which may fail
abbrev pub conditions : Bool → ℤ → Fields → Bool
conditions fixture now fs =
    eq (get_value "host" fs) (text ceremony_host)
    && eq (get_value "action" fs) (text ceremony_action)
    && (fixture || eq (get_value "board" fs) (text board_path))
    && is_positive (get_value "run" fs)
    && str_has_prefix "t_" (get_value "task" fs)
    && text_length_is (λ n. not (ltb n 32)) (get_value "nonce" fs)
    && are_times now (get_value "created_at" fs) (get_value "expires_at" fs)
    && is_source fixture (get_value "source" fs)
    && is_manifest_hash (get_value "manifest_sha256" fs)

-- a member by its type, which `is_valid` has tested
abbrev pub member_of {ℓ} : {A : Type ℓ} → Option A → Result A
member_of v = or_raise v (rejected "invalid-binding")

module _ (c : Codec) where
  -- the object and its schema
  unfoldable pub read_packet : List ℕ → Result Fields
  unfolding eq
  read_packet raw = do
    v ← or_raise (c.loads raw) (rejected "bad-binding-json")
    reject_if (not (has_shape binding_keys v)) "bad-binding-schema"
    fs ← or_raise (as_dict v) (rejected "bad-binding-schema")
    reject_if (not (eq (get_value "schema" fs) (text "keel.phase0-binding.v1")))
        "bad-binding-schema"
    ok fs

  -- `_sha(_canonical(body))`
  abbrev pub packet_hash : Fields → String
  packet_hash fs = digest c (dict (without ("packet_sha256" ∷ []) fs))

  unfoldable pub read_binding : Bool → ℤ → ℕ → Option File → Result Binding
  unfolding read_file read_packet eq stands_in_var_tmp is_hex ◌-ℤ◌
  read_binding fixture now owner file = do
    raw ← read_file owner file
    fs ← read_packet raw
    reject_if (not (eq (get_value "packet_sha256" fs) (text (packet_hash fs))))
        "binding-hash-mismatch"
    reject_if (not (conditions fixture now fs)) "invalid-binding"
    task ← member_of (as_text (get_value "task" fs))
    run ← member_of (as_int (get_value "run" fs))
    source ← member_of (as_text (get_value "source" fs))
    manifest ← member_of (as_text (get_value "manifest_sha256" fs))
    ok (record {
      packet = fs;
      hash = packet_hash fs;
      task = task;
      run = run;
      source = source;
      manifest_sha256 = manifest;
    })

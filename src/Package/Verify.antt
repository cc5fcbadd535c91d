-- ===== src/Package/Verify.antt =====
-- `verify` of package_v2.py on a directory as it is found.
use hermes_keel.Base.{
  ℕ, ◌*◌, String, Bool, true, false, not, ◌||◌, Option, none, some, List, [], ◌∷◌, ltb, ◌==◌,
  if◌then◌else◌, length, any, cons_first, bytes_eq, codes, str_eq, has_prefix,
}
use hermes_keel.Base.Result.{
  Result, ok, err, raised, os_error, key_error, or_raise, reject_if, ◌>>=◌, ◌>>◌,
}
use hermes_keel.Json.Codec.{Codec}
use hermes_keel.Broker.Config.{new_sha256}
use hermes_keel.Broker.Ledger.File.{Kind, regular, symlink, special, writable_by_others}
use hermes_keel.Package.Manifest.{Rows, members, find_row, read_manifest}

-- What opening a name in the directory finds; `special` is what opens and is no regular file.
pub record Entry : Type 0 where
  pub kind : Kind
  pub owner : ℕ
  pub mode : ℕ
  pub content : List ℕ
  pub size : ℕ
  pub device : ℕ
  pub inode : ℕ

pub record Directory : Type 0 where
  pub owner : ℕ
  pub mode : ℕ
  pub entries : String → Option Entry

-- `identities[name]`
pub record Identity : Type 0 where
  pub sha256 : String
  pub size : ℕ
  pub device : ℕ
  pub inode : ℕ

-- what `verify` returns
pub record Evidence : Type 0 where
  pub manifest_sha256 : String
  pub identities : List (String × Identity)

-- `Path(name).parts`, as far as `..` goes
abbrev pub split_slash : List ℕ → List (List ℕ)
split_slash [] = [] ∷ []
split_slash (b ∷ bs) = let rest = split_slash bs in if b == 47 then [] ∷ rest else cons_first b rest

abbrev pub is_unsafe_name : String → Bool
is_unsafe_name name = has_prefix "/" name || any (bytes_eq (codes "..")) (split_slash (codes name))

abbrev pub is_regular : Kind → Bool
is_regular regular = true
is_regular symlink = false
is_regular special = false

-- `os.open(…, O_NOFOLLOW)`
abbrev pub open_entry : Directory → String → Result Entry
open_entry dir name = elim (dir.entries name) [
  | none ↦ err (raised os_error)
  | some e ↦ elim e.kind [ symlink ↦ err (raised os_error) | _ ↦ ok e ]
]

unfoldable pub open_member : Directory → String → Result Entry
unfolding writable_by_others
open_member dir name = do
  reject_if (is_unsafe_name name) "unsafe-member"
  e ← open_entry dir name
  reject_if (not (is_regular e.kind) || writable_by_others e.mode) "unsafe-member-identity"
  ok e

abbrev pub wrong_owner : Directory → Option ℕ → Bool
wrong_owner dir none = false
wrong_owner dir (some uid) = not (dir.owner == uid)

module _ (c : Codec) where
  -- one round of the loop over `MEMBERS`
  unfoldable pub verify_member : Directory → Rows → String → Result Identity
  unfolding open_member
  verify_member dir rows name = do
    e ← open_member dir name
    expected ← or_raise (find_row (codes name) rows) (raised key_error)
    reject_if (not (bytes_eq (codes (c.sha256 e.content)) expected)) "member-hash-mismatch"
    ok (record { sha256 = c.sha256 e.content; size = e.size; device = e.device; inode = e.inode })

  unfoldable pub verify_members : Directory → Rows → List String → Result (List (String × Identity))
  unfolding verify_member
  verify_members dir rows [] = ok []
  verify_members dir rows (name ∷ names) = verify_member dir rows name >>= λ i.
      verify_members dir rows names >>= λ rest. ok ((name, i) ∷ rest)

  -- the bytes of the manifest, once they are known to be the expected ones
  unfoldable pub check_manifest_hash : Directory → String → Result (List ℕ)
  unfolding open_member
  check_manifest_hash dir expected = do
    m ← open_member dir "MANIFEST"
    reject_if (ltb (64 * 1024) (length m.content)) "manifest-too-large"
    reject_if (not (str_eq (c.sha256 m.content) expected)) "manifest-hash-mismatch"
    ok m.content

  -- `none` is a path that does not open as a directory.
  unfoldable pub verify : Option Directory → String → Option ℕ → Result Evidence
  unfolding check_manifest_hash read_manifest verify_members
  verify opened expected allowed_uid = do
    dir ← or_raise opened (raised os_error)
    reject_if (wrong_owner dir allowed_uid) "wrong-package-owner"
    raw ← check_manifest_hash dir expected
    rows ← read_manifest raw
    identities ← verify_members dir rows members
    runtime ← or_raise (find_row (codes "runtime/ollama") rows) (raised key_error)
    reject_if (not (bytes_eq runtime (codes new_sha256))) "wrong-runtime"
    ok (record { manifest_sha256 = c.sha256 raw; identities = identities })

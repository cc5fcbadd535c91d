-- ===== src/Package/Sealed.antt =====
-- What `verify` establishes.
use hermes_keel.Base.{
  ℕ, ◌*◌, ◌≤◌, String, ◌≡◌, refl, ap, sym, ◌∙◌, true, false, not, ◌||◌, Option, some, List, [], ◌∷◌,
  arith, ltb, length, bytes_eq, bytes_eq_iff, codes, str_eq, eq_iff,
}
use hermes_keel.Base.Result.{
  ok, raised, os_error, key_error, or_raise, reject_if, >>=-eq-ok, >>-eq-ok, ok_injective,
}
use hermes_keel.Json.Codec.{Codec}
use hermes_keel.Broker.Config.{new_sha256}
use hermes_keel.Broker.Ledger.File.{regular, writable_by_others}
use hermes_keel.Package.Manifest.{Rows, members, find_row, read_manifest}
use hermes_keel.Package.Verify.{
  Entry, Directory, Identity, Evidence, is_unsafe_name, is_regular, open_entry, open_member,
  verify_member, verify_members, check_manifest_hash, wrong_owner, verify,
}

-- A name that opens as a regular file which only its owner may write.
pub record IsPlain (dir : Directory) (name : String) (e : Entry) : Type 0 where
  pub found : dir.entries name ≡ some e
  pub kind : e.kind ≡ regular
  pub mode : writable_by_others e.mode ≡ false

open_entry_lem :
    (dir : Directory) (name : String) {e : Entry}
    → open_entry dir name ≡ ok e
    → dir.entries name ≡ some e
open_entry_lem dir name h = ground arith

is_regular_lem : (e : Entry) → is_regular e.kind ≡ true → e.kind ≡ regular
is_regular_lem e h = ground arith

pub open_member-IsPlain :
    (dir : Directory) (name : String) {e : Entry} → open_member dir name ≡ ok e → IsPlain dir name e
unfolding open_member
open_member-IsPlain dir name {e} h =
    let (_, h1) = >>-eq-ok (reject_if (is_unsafe_name name) "unsafe-member") _ h in
    let (d, opened, h2) = >>=-eq-ok (open_entry dir name) _ h1 in
    let (good, h3) =
      >>-eq-ok
        (reject_if (not (is_regular d.kind) || writable_by_others d.mode) "unsafe-member-identity")
        _ h2 in
    rw (← ok_injective d e h3) (record {
      found = open_entry_lem dir name opened;
      kind = is_regular_lem d (ground arith);
      mode = ground arith;
    })

module _ (c : Codec) where
  -- A member as the manifest's row and the returned identity describe it.
  pub record IsSealedMember (dir : Directory) (rows : Rows) (name : String) (i : Identity)
      : Type 0 where
    pub entry : Entry
    pub plain : IsPlain dir name entry
    pub row : find_row (codes name) rows ≡ some (codes (c.sha256 entry.content))
    pub identity : i ≡ record {
      sha256 = c.sha256 entry.content;
      size = entry.size;
      device = entry.device;
      inode = entry.inode;
    }

  -- the identities of the names, in their order
  abbrev pub AreSealed : Directory → Rows → List String → List (String × Identity) → Type 0
  AreSealed dir rows [] [] = Unit
  AreSealed dir rows [] (i ∷ found) = ⊥
  AreSealed dir rows (n ∷ ns) [] = ⊥
  AreSealed dir rows (n ∷ ns) ((m, i) ∷ found) =
      (m ≡ n) × IsSealedMember dir rows n i × AreSealed dir rows ns found

  pub record IsSealed (dir : Directory) (expected : String) (e : Evidence) : Type 0 where
    pub manifest : Entry
    pub manifest_plain : IsPlain dir "MANIFEST" manifest
    pub manifest_small : length manifest.content ≤ 64 * 1024
    pub manifest_hash : c.sha256 manifest.content ≡ expected
    pub rows : Rows
    pub rows_read : read_manifest manifest.content ≡ ok rows
    pub sealed : AreSealed dir rows members e.identities
    pub runtime : find_row (codes "runtime/ollama") rows ≡ some (codes new_sha256)
    pub reported : e.manifest_sha256 ≡ expected

  verify_member-IsSealedMember :
      (dir : Directory) (rows : Rows) (name : String) {i : Identity}
      → verify_member c dir rows name ≡ ok i
      → IsSealedMember dir rows name i
  unfolding verify_member
  verify_member-IsSealedMember dir rows name {i} h =
      let (e, opened, h1) = >>=-eq-ok (open_member dir name) _ h in
      let (digest, found, h2) =
        >>=-eq-ok (or_raise (find_row (codes name) rows) (raised key_error)) _ h1 in
      let (same, h3) =
        >>-eq-ok
          (reject_if (not (bytes_eq (codes (c.sha256 e.content)) digest)) "member-hash-mismatch") _
          h2 in
      record {
        entry = e;
        plain = open_member-IsPlain dir name opened;
        row = ground (arith, bytes_eq_iff (codes (c.sha256 e.content)) digest);
        identity = sym (ok_injective _ i h3);
      }

  verify_members-AreSealed :
      (dir : Directory) (rows : Rows) (names : List String) {found : List (String × Identity)}
      → verify_members c dir rows names ≡ ok found
      → AreSealed dir rows names found
  unfolding verify_members
  verify_members-AreSealed dir rows [] {found} h = rw (← ok_injective [] found h) tt
  verify_members-AreSealed dir rows (n ∷ ns) {found} h =
      let (i, first, h1) = >>=-eq-ok (verify_member c dir rows n) _ h in
      let (rest, later, h2) = >>=-eq-ok (verify_members c dir rows ns) _ h1 in
      rw (← ok_injective ((n, i) ∷ rest) found h2) (
        refl,
        verify_member-IsSealedMember dir rows n first,
        verify_members-AreSealed dir rows ns later,
      )

  check_manifest_hash_lem :
      (dir : Directory) (expected : String) {raw : List ℕ}
      → check_manifest_hash c dir expected ≡ ok raw
      → (m : Entry) × IsPlain dir "MANIFEST" m
        × (length m.content ≤ 64 * 1024)
        × (c.sha256 m.content ≡ expected)
        × (m.content ≡ raw)
  unfolding check_manifest_hash
  check_manifest_hash_lem dir expected {raw} h =
      let (m, opened, h1) = >>=-eq-ok (open_member dir "MANIFEST") _ h in
      let (small, h2) =
        >>-eq-ok (reject_if (ltb (64 * 1024) (length m.content)) "manifest-too-large") _ h1 in
      let (same, h3) =
        >>-eq-ok (reject_if (not (str_eq (c.sha256 m.content) expected)) "manifest-hash-mismatch") _
          h2 in
      (
        m,
        open_member-IsPlain dir "MANIFEST" opened,
        ground arith,
        (eq_iff (c.sha256 m.content) expected).0 (ground arith),
        ok_injective m.content raw h3,
      )

  -- If `verify` returns, the directory belongs to the allowed user, if one is named, and it is sealed:
  -- the manifest has the expected digest and at most 64 KiB, and it and every member are regular
  -- files that only their owner may write; the manifest's row of each member is the digest of its
  -- content, that of the runtime is the reviewed one; and the evidence tells the digest of the manifest
  -- and the identity of each member.
  pub verify-IsSealed :
      (opened : Option Directory) (expected : String) (uid : Option ℕ) (e : Evidence)
      → verify c opened expected uid ≡ ok e
      → (dir : Directory) × (opened ≡ some dir)
        × (wrong_owner dir uid ≡ false)
        × IsSealed dir expected e
  unfolding verify
  verify-IsSealed opened expected uid e h =
      let (dir, is_open, h1) = >>=-eq-ok (or_raise opened (raised os_error)) _ h in
      let (owned, h2) = >>-eq-ok (reject_if (wrong_owner dir uid) "wrong-package-owner") _ h1 in
      let (raw, hashed, h3) = >>=-eq-ok (check_manifest_hash c dir expected) _ h2 in
      let (m, plain, small, digest, same) = check_manifest_hash_lem dir expected hashed in
      let (rows, read, h4) = >>=-eq-ok (read_manifest raw) _ h3 in
      let (identities, verified, h5) = >>=-eq-ok (verify_members c dir rows members) _ h4 in
      let (runtime, at_runtime, h6) =
        >>=-eq-ok (or_raise (find_row (codes "runtime/ollama") rows) (raised key_error)) _ h5 in
      let (right, h7) =
        >>-eq-ok (reject_if (not (bytes_eq runtime (codes new_sha256))) "wrong-runtime") _ h6 in
      let made = ok_injective _ e h7 in
      let reviewed : runtime ≡ codes new_sha256 =
        (bytes_eq_iff runtime (codes new_sha256)).0 (ground arith) in
      let found : find_row (codes "runtime/ollama") rows ≡ some runtime = ground arith in
      (
        dir,
        ground arith,
        ground arith,
        rw (← made) (record {
          manifest = m;
          manifest_plain = plain;
          manifest_small = small;
          manifest_hash = digest;
          rows = rows;
          rows_read = rw same read;
          sealed = verify_members-AreSealed dir rows members verified;
          runtime = found ∙ ap (λ r. some r) reviewed;
          reported = rw (← same) digest;
        }),
      )

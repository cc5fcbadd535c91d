-- ===== src/Package/Built.antt =====
-- Builds from good sources.
use mathlib.Core.Path.{subst}
use hermes_keel.Base.{
  ℕ, ◌+◌, ◌*◌, ◌≤◌, String, ◌≡◌, refl, ap, ◌∙◌, true, false, none, some, List, [], ◌∷◌, ◌++◌, arith,
  ==_iff, length, length-append, codes, eq_iff, eq_refl, bytes_eq_iff,
}
use hermes_keel.Base.Result.{ok}
use hermes_keel.Json.Codec.{Codec}
use hermes_keel.Broker.Config.{action, new_sha256, new_binary}
use hermes_keel.Broker.Ledger.File.{regular, writable_by_others}
use hermes_keel.Package.Manifest.{members, Rows, find_row}
use hermes_keel.Package.Verify.{
  Entry, Directory, Identity, Evidence, is_unsafe_name, open_member, verify_member, verify_members,
  check_manifest_hash, verify,
}
use hermes_keel.Package.Addressed.{content_at}
use hermes_keel.Package.Build.{
  Workplace, Built, source_of, copy_entry, copy_all, new_entry, manifest_text, manifest_of,
  sealed_directory, check_runtime, assemble, manifest_hash, finish_build, after_assembly, build,
}
use hermes_keel.Package.Written.{IsHexDigest, rows_of, digest_of, read_manifest-manifest_text}

module _ (c : Codec) (w : Workplace) (content : String → List ℕ) where
  -- A member whose copy succeeds: a regular file with the content.
  pub record IsSource (n : String) : Type 0 where
    pub entry : Entry
    pub found : source_of c w n ≡ some entry
    pub kind : entry.kind ≡ regular
    pub has_content : entry.content ≡ content n
    pub copies : w.copies n ≡ true

  abbrev pub AreSources : List String → Type 0
  AreSources [] = Unit
  AreSources (n ∷ ns) = IsSource n × AreSources ns

  -- What a build needs: a new absolute output, the reviewed runtime, and a regular file for each member.
  pub record IsReady : Type 0 where
    pub absolute : w.is_absolute ≡ true
    pub creates : w.creates ≡ true
    pub stores : w.stores ≡ true
    pub marks : w.marks ≡ true
    pub sources : AreSources members
    pub runtime_hash : c.sha256 (content "runtime/ollama") ≡ new_sha256

  abbrev pub copied : List String → List (String × Entry)
  copied [] = []
  copied (n ∷ ns) = (n, new_entry c w n regular (content n)) ∷ copied ns

  copy_entry_lem :
      (n : String) → IsSource n → copy_entry c w n ≡ ok (new_entry c w n regular (content n))
  unfolding copy_entry
  copy_entry_lem n s =
      ground (arith, s.found, s.kind, s.copies, ap (new_entry c w n regular) s.has_content)

  copy_all-copied : (ns : List String) → AreSources ns → copy_all c w ns ≡ ok (copied ns)
  unfolding copy_all
  copy_all-copied [] h = refl
  copy_all-copied (n ∷ ns) (s, more) = rw (copy_entry_lem n s, copy_all-copied ns more) refl

  check_runtime_lem : IsReady → check_runtime c w ≡ ok tt
  unfolding check_runtime
  check_runtime_lem ready =
      let (_, (_, (_, (_, (_, (_, (s, _))))))) = ready.sources in
      let same =
        (eq_iff (c.sha256 s.entry.content) new_sha256).1
          (ap c.sha256 s.has_content ∙ ready.runtime_hash) in
      ground (arith, s.found, s.kind, same)

  -- what `identities` holds of a copied member
  abbrev pub identity_of : String → Identity
  identity_of n = record {
    sha256 = c.sha256 (content n);
    size = length (content n);
    device = (w.stat n).0;
    inode = (w.stat n).1;
  }

  abbrev pub identities_of : List String → List (String × Identity)
  identities_of [] = []
  identities_of (n ∷ ns) = (n, identity_of n) ∷ identities_of ns

  -- The sealed output of the copies.
  abbrev pub output : Directory
  output = sealed_directory c w (copied members)

  open_member-output :
      (n : String)
      → is_unsafe_name n ≡ false
      → output.entries n ≡ some (new_entry c w n regular (content n))
      → open_member output n ≡ ok (new_entry c w n regular (content n))
  unfolding open_member writable_by_others
  open_member-output n safe found = ground (arith, found)

  verify_member_lem :
      (rows : Rows) (n : String)
      → is_unsafe_name n ≡ false
      → output.entries n ≡ some (new_entry c w n regular (content n))
      → find_row (codes n) rows ≡ some (codes (c.sha256 (content n)))
      → verify_member c output rows n ≡ ok (identity_of n)
  unfolding verify_member
  verify_member_lem rows n safe found row =
      rw (open_member-output n safe found, row)
        (ground (arith, bytes_eq_iff (codes (c.sha256 (content n))) (codes (c.sha256 (content n)))))

  -- Each name opens as its copy and has the row of its digest.
  abbrev ArePlaced : Rows → List String → Type 0
  ArePlaced rows [] = Unit
  ArePlaced rows (n ∷ ns) =
      (is_unsafe_name n ≡ false)
      × (output.entries n ≡ some (new_entry c w n regular (content n)))
      × (find_row (codes n) rows ≡ some (codes (c.sha256 (content n))))
      × ArePlaced rows ns

  verify_members_lem :
      (rows : Rows) (ns : List String)
      → ArePlaced rows ns
      → verify_members c output rows ns ≡ ok (identities_of ns)
  unfolding verify_members
  verify_members_lem rows [] h = refl
  verify_members_lem rows (n ∷ ns) (safe, found, row, more) =
      rw (verify_member_lem rows n safe found row, verify_members_lem rows ns more) refl

  assemble-output : IsReady → assemble c w ≡ ok output
  unfolding assemble
  assemble-output ready = rw (copy_all-copied members ready.sources, ready.stores) refl

  check_manifest_hash-ok :
      (dir : Directory) (m : Entry)
      → open_member dir "MANIFEST" ≡ ok m
      → length m.content ≤ 64 * 1024
      → check_manifest_hash c dir (c.sha256 m.content) ≡ ok m.content
  unfolding check_manifest_hash
  check_manifest_hash-ok dir m is_open small =
      rw is_open (ground (arith, eq_refl (c.sha256 m.content)))

  open_manifest :
      open_member output "MANIFEST"
      ≡ ok (new_entry c w "MANIFEST" regular (manifest_of c w (copied members)))
  unfolding open_member writable_by_others
  open_manifest = refl

  -- the length of the manifest
  abbrev manifest_length : List String → ℕ
  manifest_length [] = 0
  manifest_length (n ∷ ns) = 67 + length (codes n) + manifest_length ns

  abbrev pub evidence : Evidence
  evidence = record {
    manifest_sha256 = c.sha256 (manifest_text c content members);
    identities = identities_of members;
  }

  -- The output holds the content of each of the names.
  abbrev pub HasContent : List String → Type 0
  HasContent [] = Unit
  HasContent (n ∷ ns) = (content_at output n ≡ some (content n)) × HasContent ns

  module _ (law : IsHexDigest c) where
    length-manifest_text :
        (ns : List String) → length (manifest_text c content ns) ≡ manifest_length ns
    unfolding manifest_text
    length-manifest_text [] = refl
    length-manifest_text (n ∷ ns) =
        let digest = codes (c.sha256 (content n)) in
        let line = 32 ∷ 32 ∷ (codes n ++ (10 ∷ [])) in
        omega (
          arith,
          length-append (digest ++ line) (manifest_text c content ns),
          length-append digest line,
          length-append (codes n) (10 ∷ []),
          law.sha256_length (content n),
          length-manifest_text ns,
        )

    output_manifest : manifest_of c w (copied members) ≡ manifest_text c content members
    unfolding manifest_text
    output_manifest = refl

    members_length : manifest_length members ≤ 64 * 1024
    members_length = omega arith

    manifest_small : length (manifest_of c w (copied members)) ≤ 64 * 1024
    manifest_small =
        omega (arith, ap length output_manifest, length-manifest_text members, members_length)

    check_manifest_hash_lem :
        check_manifest_hash c output (manifest_hash c w output)
        ≡ ok (manifest_text c content members)
    check_manifest_hash_lem =
        check_manifest_hash-ok output
          (new_entry c w "MANIFEST" regular (manifest_of c w (copied members))) open_manifest
          manifest_small
        ∙ ap ok output_manifest

    members_placed : ArePlaced (rows_of (digest_of c law content) members) members
    members_placed = (
      refl,
      refl,
      refl,
      (
        refl,
        refl,
        refl,
        (
          refl,
          refl,
          refl,
          (refl, refl, refl, (refl, refl, refl, (refl, refl, refl, (refl, refl, refl, tt)))),
        ),
      ),
    )

    pub verify-output :
        IsReady → verify c (some output) (manifest_hash c w output) (some w.euid) ≡ ok evidence
    unfolding verify
    verify-output ready =
        let same =
          (bytes_eq_iff (codes (c.sha256 (content "runtime/ollama"))) (codes new_sha256)).1
            (ap codes ready.runtime_hash) in
        rw
          (
            (==_iff w.euid w.euid).1 refl,
            check_manifest_hash_lem,
            read_manifest-manifest_text c law content,
            verify_members_lem (rows_of (digest_of c law content) members) members members_placed,
          )
          (rw same refl)

    -- `build` into a new absolute path succeeds, if every member is a regular file whose copy and
    -- digests are written, and the runtime has the reviewed digest. The output then holds the content of
    -- every member, and `verify` accepts it for the digest of its manifest and returns the evidence of
    -- the build. Digests are 64 plain characters.
    pub build_accepted :
        IsReady
        → (b : Built) × (build c w none ≡ (ok b, some output))
          × (verify c (some output) b.evidence.manifest_sha256 (some w.euid) ≡ ok b.evidence)
          × HasContent members
    unfolding build after_assembly finish_build
    build_accepted ready =
        let hash = ap c.sha256 output_manifest in
        let verified = verify-output ready in
        (
          record {
            evidence = evidence;
            schema = "keel.sealed-package.v2";
            action = action;
            runtime_install_path = new_binary;
          },
          rw (ready.absolute, check_runtime_lem ready, ready.creates, assemble-output ready)
              (rw (ready.marks, verified) refl),
          subst (λ h. verify c (some output) h (some w.euid) ≡ ok evidence) hash verified,
          (refl, (refl, (refl, (refl, (refl, (refl, (refl, tt))))))),
        )

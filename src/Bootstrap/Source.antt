-- ===== src/Bootstrap/Source.antt =====
-- `_open_source` and `_seal`: the members of the source, checked against the manifest and copied.
use hermes_keel.Base.{
  ℕ, String, ◌<>◌, Bool, true, false, not, ◌||◌, Option, none, some, List, [], ◌∷◌, ◌++◌, ◌==◌,
  if◌then◌else◌, take, bytes_eq, codes, str_eq,
}
use hermes_keel.Base.Result.{
  Result, ok, err, raised, os_error, key_error, or_raise, reject_if, ◌>>=◌, ◌>>◌,
}
use hermes_keel.Json.Codec.{Codec}
use hermes_keel.Broker.Ledger.File.{writable_by_others}
use hermes_keel.Package.Manifest.{
  members, Rows, find_row, has_row, decode_ascii, ascii_lines, partition, names_members,
}
use hermes_keel.Package.Verify.{Directory, is_regular, open_entry}

-- `blobs`: the bytes of each member, the manifest first
abbrev pub Blobs : Type 0
Blobs = List (String × List ℕ)

-- `_read_regular`
unfoldable pub read_regular : ℕ → Directory → String → Result (List ℕ)
unfolding writable_by_others
read_regular owner dir name = do
  e ← open_entry dir name
  reject_if (not (is_regular e.kind) || not (e.owner == owner) || writable_by_others e.mode)
      ("unsafe-source-member:" <> name)
  ok e.content

-- one round of the loop over the manifest's lines
unfoldable pub read_source_row : Rows → List ℕ → Result Rows
unfolding partition
read_source_row rows line =
    let (digest, marker, name) = partition line in
    reject_if (not marker || has_row name rows) "bad-manifest" >> ok (rows ++ (name, digest) ∷ [])

unfoldable pub read_source_rows : Rows → List (List ℕ) → Result Rows
unfolding read_source_row
read_source_rows rows [] = ok rows
read_source_rows rows (line ∷ lines) =
    read_source_row rows line >>= λ more. read_source_rows more lines

-- `MEMBERS[1:]` are the members that `package_v2.py` names.
unfoldable pub read_source_manifest : List ℕ → Result Rows
unfolding ascii_lines read_source_rows
read_source_manifest raw = do
  characters ← decode_ascii raw
  rows ← read_source_rows [] (ascii_lines false characters)
  reject_if (not (names_members rows)) "manifest-members-mismatch"
  ok rows

module _ (c : Codec) where
  unfoldable pub read_blob : ℕ → Directory → Rows → String → Result (List ℕ)
  unfolding read_regular
  read_blob owner dir rows name = do
    content ← read_regular owner dir name
    expected ← or_raise (find_row (codes name) rows) (raised key_error)
    reject_if (not (bytes_eq (codes (c.sha256 content)) expected)) ("member-hash-mismatch:" <> name)
    ok content

  unfoldable pub read_blobs : ℕ → Directory → Rows → List String → Result Blobs
  unfolding read_blob
  read_blobs owner dir rows [] = ok []
  read_blobs owner dir rows (n ∷ ns) = read_blob owner dir rows n >>= λ content.
      read_blobs owner dir rows ns >>= λ rest. ok ((n, content) ∷ rest)

  unfoldable pub open_source : ℕ → String → Option Directory → Result Blobs
  unfolding read_regular read_source_manifest read_blobs
  open_source owner manifest_sha256 opened = do
    dir ← or_raise opened (raised os_error)
    reject_if (not (dir.owner == owner) || writable_by_others dir.mode) "unsafe-source-root"
    manifest ← read_regular owner dir "MANIFEST"
    reject_if (not (str_eq (c.sha256 manifest) manifest_sha256)) "manifest-hash-mismatch"
    rows ← read_source_manifest manifest
    blobs ← read_blobs owner dir rows members
    ok (("MANIFEST", manifest) ∷ blobs)

-- the second reading, before publication
unfoldable pub reread : ℕ → Directory → Blobs → Result (Unit {0})
unfolding read_regular
reread owner dir [] = ok tt
reread owner dir ((name, content) ∷ blobs) =
    let rest = reread owner dir blobs in
    read_regular owner dir name >>= λ current.
    reject_if (not (bytes_eq current content)) ("source-drift:" <> name) >> rest

-- `trusted_root` and the stage beside it, where something stands there.
pub record Staging : Type 0 where
  pub trusted : Option Blobs
  pub stage : Option Blobs

-- How the copying goes: whether the directories and files of the stage are made, how many bytes the one
-- `os.write` of a member takes, what the source holds at the second reading, and whether the final
-- `os.replace` works. `is_root` tells who runs it.
pub record Copying : Type 0 where
  pub makes : Bool
  pub takes : String → ℕ
  pub later : Directory
  pub replaces : Bool
  pub is_root : Bool

-- what the stage holds after the copies
abbrev pub copies : (String → ℕ) → Blobs → Blobs
copies takes [] = []
copies takes ((name, content) ∷ blobs) = (name, take (takes name) content) ∷ copies takes blobs

abbrev pub is_taken : Option Blobs → Bool
is_taken none = false
is_taken (some b) = true

abbrev pub is_failure : Option String → String → Bool
is_failure none point = false
is_failure (some f) point = str_eq f point

-- the checks of the `try` up to the change of the modes
unfoldable pub stage_blobs : ℕ → Option String → Copying → Staging → Blobs → Result (Unit {0})
unfolding reread
stage_blobs owner fail how s blobs = do
  reject_if (is_taken s.trusted || is_taken s.stage) "trusted-staging-collision"
  if how.makes then ok tt else err (raised os_error)
  reject_if (is_failure fail "sealed-copy") "injected-sealed-copy"
  reread owner how.later blobs

-- `os.replace(stage, trusted_root)`. If it fails, only root removes the stage, whose mode is 0o500 by then.
abbrev pub publish_stage : Copying → Staging → Blobs → Result (Unit {0}) × Staging
publish_stage how s blobs =
    if how.replaces
    then (ok tt, record { trusted = some (copies how.takes blobs); stage = none })
    else (
      err (raised os_error),
      record s { stage = if how.is_root then none else some (copies how.takes blobs) },
    )

-- `rmtree(stage)` in the handler removes what stands there, whoever made it.
abbrev pub after_staging :
    Copying → Staging → Blobs → Result (Unit {0}) → Result (Unit {0}) × Staging
after_staging how s blobs (err e) = (err e, record s { stage = none })
after_staging how s blobs (ok _) = publish_stage how s blobs

abbrev pub after_source :
    ℕ → Option String → Copying → Staging → Result Blobs → Result (Unit {0}) × Staging
after_source owner fail how s (err e) = (err e, s)
after_source owner fail how s (ok blobs) =
    after_staging how s blobs (stage_blobs owner fail how s blobs)

-- `_seal`
unfoldable pub seal :
    Codec
    → ℕ
    → String
    → Option String
    → Option Directory
    → Copying
    → Staging
    → Result (Unit {0}) × Staging
unfolding open_source stage_blobs
seal c owner manifest_sha256 fail source how s =
    after_source owner fail how s (open_source c owner manifest_sha256 source)

-- ===== src/Package/Build.antt =====
-- `build` of package_v2.py: a new directory with copies of the members and the manifest of their
-- digests, sealed and verified.
use hermes_keel.Base.{
  ℕ, String, Bool, not, Option, none, some, List, [], ◌∷◌, ◌++◌, ◌==◌, if◌then◌else◌, length, codes,
  str_eq,
}
use hermes_keel.Base.Result.{
  Result, ok, err, rejected, raised, os_error, or_raise, reject_if, ◌>>=◌, ◌>>◌,
}
use hermes_keel.Json.Codec.{Codec}
use hermes_keel.Broker.Config.{action, new_sha256, new_binary}
use hermes_keel.Broker.Ledger.File.{Kind, regular, symlink, special}
use hermes_keel.Package.Manifest.{members}
use hermes_keel.Package.Verify.{Entry, Directory, Evidence, is_regular, verify}

-- What the caller names and how the file system answers. `linked` is what reading through the copy of a
-- symlink gives, `copies` whether the copy of a member comes to its end, `stores` and `marks` whether
-- the manifest and its digest are written, `stat` the device and inode of a new file.
pub record Workplace : Type 0 where
  pub euid : ℕ
  pub source : String → Option Entry
  pub runtime : Option Entry
  pub is_absolute : Bool
  pub creates : Bool
  pub linked : String → Option (List ℕ)
  pub copies : String → Bool
  pub stores : Bool
  pub marks : Bool
  pub stat : String → ℕ × ℕ

-- what `build` returns
pub record Built : Type 0 where
  pub evidence : Evidence
  pub schema : String
  pub action : String
  pub runtime_install_path : String

-- `f"{digest}  {name}\n"`
abbrev pub line_of : List ℕ → List ℕ → List ℕ
line_of digest name = digest ++ (32 ∷ 32 ∷ (name ++ (10 ∷ [])))

-- `0o444`
abbrev pub read_only : ℕ
read_only = 292

module _ (c : Codec) where
  unfoldable pub manifest_text : (String → List ℕ) → List String → List ℕ
  manifest_text content [] = []
  manifest_text content (n ∷ ns) =
      line_of (codes (c.sha256 (content n))) (codes n) ++ manifest_text content ns

  module _ (w : Workplace) where
    -- `src` of a member: the runtime stands at its own path
    abbrev pub source_of : String → Option Entry
    source_of name = if str_eq name "runtime/ollama" then w.runtime else w.source name

    -- a new file of the builder
    abbrev pub new_entry : String → Kind → List ℕ → Entry
    new_entry name kind content = record {
      kind = kind;
      owner = w.euid;
      mode = read_only;
      content = content;
      size = length content;
      device = (w.stat name).0;
      inode = (w.stat name).1;
    }

    -- `shutil.copyfile(src, dst, follow_symlinks=False)` and `dst.chmod(0o444)`, which follows a link
    unfoldable pub copy_entry : String → Result Entry
    copy_entry name = elim (source_of name) [
      | none ↦ err (raised os_error)
      | some e ↦
          if w.copies name
          then (elim e.kind [
            | regular ↦ ok (new_entry name regular e.content)
            | symlink ↦ elim (w.linked name) [
              | none ↦ err (raised os_error)
              | some content ↦ ok (new_entry name symlink content)
            ]
            | special ↦ err (raised os_error)
          ])
          else err (raised os_error)
    ]

    -- the loop over `MEMBERS`: what stands in the output after it
    unfoldable pub copy_all : List String → Result (List (String × Entry))
    unfolding copy_entry
    copy_all [] = ok []
    copy_all (n ∷ ns) = copy_entry n >>= λ e. copy_all ns >>= λ rest. ok ((n, e) ∷ rest)

    abbrev pub entry_at : List (String × Entry) → String → Option Entry
    entry_at [] name = none
    entry_at ((n, e) ∷ es) name = if str_eq n name then some e else entry_at es name

    -- what reading a copied member gives
    abbrev pub content_of : List (String × Entry) → String → List ℕ
    content_of es name = elim (entry_at es name) [ none ↦ [] | some e ↦ e.content ]

    abbrev pub manifest_of : List (String × Entry) → List ℕ
    manifest_of es = manifest_text (content_of es) members

    -- the output once it is sealed, `MANIFEST` and `MANIFEST.sha256` in it
    abbrev pub sealed_directory : List (String × Entry) → Directory
    sealed_directory es =
        let manifest = manifest_of es in
        record {
          owner = w.euid;
          mode = 365;
          entries = entry_at (
              ("MANIFEST", new_entry "MANIFEST" regular manifest)
              ∷ (
                "MANIFEST.sha256",
                new_entry "MANIFEST.sha256" regular (codes (c.sha256 manifest) ++ (10 ∷ [])),
              )
              ∷ es);
        }

    -- the block of the first `try`
    unfoldable pub check_runtime : Result (Unit {0})
    check_runtime = do
      r ← or_raise w.runtime (raised os_error)
      if is_regular r.kind then ok tt else err (raised os_error)
      reject_if (not (str_eq (c.sha256 r.content) new_sha256)) "wrong-runtime"

    unfoldable pub assemble : Result Directory
    unfolding copy_all
    assemble = do
      es ← copy_all members
      if w.stores then ok tt else err (raised os_error)
      ok (sealed_directory es)

    abbrev pub manifest_hash : Directory → String
    manifest_hash dir = elim (dir.entries "MANIFEST") [ none ↦ "" | some e ↦ c.sha256 e.content ]

    -- `shutil.rmtree(output, ignore_errors=True)` once the output is sealed: only root removes anything
    -- from a directory of mode 0o555
    abbrev pub remove_sealed : Directory → Option Directory
    remove_sealed dir = if w.euid == 0 then none else some dir

    unfoldable pub finish_build : Directory → Result Evidence → Result Built × Option Directory
    finish_build dir (err e) = (err e, remove_sealed dir)
    finish_build dir (ok evidence) = (
      ok (record {
        evidence = evidence;
        schema = "keel.sealed-package.v2";
        action = action;
        runtime_install_path = new_binary;
      }),
      some dir,
    )

    -- the same before `MANIFEST.sha256` is written, when only the mode of `runtime` is 0o555
    abbrev pub remove_unmarked : Directory → Option Directory
    remove_unmarked dir =
        let rest = record dir {
          mode = 493;
          entries = λ name. if str_eq name "runtime/ollama" then dir.entries name else none;
        } in
        if w.euid == 0 then none else some rest

    unfoldable pub after_assembly : Result Directory → Result Built × Option Directory
    unfolding finish_build
    after_assembly (err e) = (err e, none)
    after_assembly (ok dir) =
        if w.marks
        then finish_build dir (verify c (some dir) (manifest_hash dir) (some w.euid))
        else (err (raised os_error), remove_unmarked dir)

    abbrev pub after_runtime : Result (Unit {0}) → Result Built × Option Directory
    after_runtime (err e) = (err e, none)
    after_runtime (ok tt) =
        if w.creates then after_assembly assemble else (err (raised os_error), none)

    -- what `build` returns or raises, and what stands at the output's path afterwards
    unfoldable pub build : Option Directory → Result Built × Option Directory
    unfolding check_runtime assemble after_assembly
    build (some standing) = (err (rejected "output-must-be-new-absolute"), some standing)
    build none =
        if w.is_absolute
        then after_runtime check_runtime
        else (err (rejected "output-must-be-new-absolute"), none)

-- ===== src/Package/Tests.antt =====
-- A package of seven small files, and the theorems at it.
use hermes_keel.Base.{
  arith, ℕ, String, ◌≡◌, refl, ◌⊎◌, Bool, true, false, Option, none, some, List, [], ◌∷◌, codes,
  length, all, str_eq, ◌==◌, if◌then◌else◌,
}
use hermes_keel.Base.Result.{Result, ok, err, raised, os_error}
use hermes_keel.Json.Codec.{Codec, Collision}
use hermes_keel.Broker.Config.{new_sha256, old_sha256}
use hermes_keel.Broker.Ledger.File.{regular, symlink, writable_by_others}
use hermes_keel.Package.Manifest.{
  is_line_end, ascii_lines, partition, read_row, read_rows, members, read_manifest,
}
use hermes_keel.Package.Verify.{
  Entry, Directory, Evidence, wrong_owner, check_manifest_hash, open_member, verify_member,
  verify_members, verify,
}
use hermes_keel.Package.Sealed.{IsSealed, verify-IsSealed}
use hermes_keel.Package.Addressed.{HoldSame, verify-HoldSame}
use hermes_keel.Package.Build.{
  Workplace, Built, build, manifest_text, manifest_hash, check_runtime, assemble, after_assembly,
  finish_build, copy_all, copy_entry,
}
use hermes_keel.Package.Written.{
  IsHexDigest, is_plain, rows_of, digest_of, read_manifest-manifest_text,
}
use hermes_keel.Package.Built.{
  IsSource, IsReady, output, evidence, verify-output, HasContent, build_accepted,
}
use hermes_keel.Package.Failed.{IsLeft, build_failed}
use hermes_keel.Package.Rehearse.{
  copy_tree, Place, prepare_stage, fill_stage, copy_package, Target, library, launcher,
  state_directory, policy, absent, published, Root, Trial, rehearse, after_verify, publish, inject,
  attempt, make_stage, ◌>>◌, conclude,
}
use hermes_keel.Package.Published.{IsUninjected, rehearse_succeeds}

-- What begins with `R` has the digest of the new runtime, all else that of the old one.
abbrev digest : List ℕ → String
digest [] = old_sha256
digest (b ∷ bs) = if b == 82 then new_sha256 else old_sha256

abbrev codec : Codec
codec = record {
  dumps = λ v. [];
  loads = λ bs. none;
  str = λ v. "";
  encode = codes;
  sha256 = digest;
  hmac = λ key bs. "";
  hmac_digest = λ key bs. [];
}

length-digest : (bs : List ℕ) → length (codes (digest bs)) ≡ 64
length-digest [] = refl
length-digest (b ∷ bs) =
    elim (b == 82) as (λ t. length (codes (if t then new_sha256 else old_sha256)) ≡ 64) [
      | true ↦ refl
      | false ↦ refl
    ]

digest-ArePlain : (bs : List ℕ) → all is_plain (codes (digest bs)) ≡ true
unfolding is_line_end
digest-ArePlain [] = refl
digest-ArePlain (b ∷ bs) =
    elim (b == 82) as (λ t. all is_plain (codes (if t then new_sha256 else old_sha256)) ≡ true) [
      | true ↦ refl
      | false ↦ refl
    ]

codec-IsHexDigest : IsHexDigest codec
codec-IsHexDigest = record { sha256_length = length-digest; sha256_plain = digest-ArePlain }

abbrev content : String → List ℕ
content name = if str_eq name "runtime/ollama" then codes "Runtime" else codes name

abbrev file : String → Entry
file name = record {
  kind = regular;
  owner = 1000;
  mode = 420;
  content = content name;
  size = 9;
  device = 1;
  inode = 2;
}

abbrev workplace : ℕ → Bool → Workplace
workplace euid links = record {
  euid = euid;
  source = λ name. some (if links then record (file name) { kind = symlink } else file name);
  runtime = some (file "runtime/ollama");
  is_absolute = true;
  creates = true;
  linked = λ name. some (content name);
  copies = λ name. true;
  stores = true;
  marks = true;
  stat = λ name. (1, 3);
}

abbrev place : Workplace
place = workplace 1000 false

source :
    (euid : ℕ) (n : String)
    → str_eq n "runtime/ollama" ≡ false
    → IsSource codec (workplace euid false) content n
source euid n h = record {
  entry = file n;
  found = ground (arith, h);
  kind = refl;
  has_content = refl;
  copies = refl;
}

runtime : (euid : ℕ) → IsSource codec (workplace euid false) content "runtime/ollama"
runtime euid = record {
  entry = file "runtime/ollama";
  found = refl;
  kind = refl;
  has_content = refl;
  copies = refl;
}

ready : (euid : ℕ) → IsReady codec (workplace euid false) content
ready euid = record {
  absolute = refl;
  creates = refl;
  stores = refl;
  marks = refl;
  sources = (
    source euid _ refl,
    (
      source euid _ refl,
      (
        source euid _ refl,
        (source euid _ refl, (source euid _ refl, (source euid _ refl, (runtime euid, tt)))),
      ),
    ),
  );
  runtime_hash = refl;
}

abbrev sealed : Directory
sealed = output codec place content

abbrev hash : String
hash = manifest_hash codec place sealed

abbrev found : Evidence
found = evidence codec place content

accepted : verify codec (some sealed) hash (some 1000) ≡ ok found
accepted = verify-output codec place content codec-IsHexDigest (ready 1000)

verify-IsSealed_example :
    (dir : Directory) × (Option.some sealed ≡ some dir)
    × (wrong_owner dir (some 1000) ≡ false)
    × IsSealed codec dir hash found
verify-IsSealed_example = verify-IsSealed codec (some sealed) hash (some 1000) found accepted

-- the same package, built by root
abbrev root_place : Workplace
root_place = workplace 0 false

abbrev root_sealed : Directory
root_sealed = output codec root_place content

root_accepted :
    verify codec (some root_sealed) hash (some 0) ≡ ok (evidence codec root_place content)
unfolding manifest_text
root_accepted = verify-output codec root_place content codec-IsHexDigest (ready 0)

verify-HoldSame_example : HoldSame sealed root_sealed members ⊎ Collision codec
verify-HoldSame_example =
    verify-HoldSame codec sealed root_sealed hash (some 1000) (some 0) found
      (evidence codec root_place content) accepted root_accepted

read_manifest-manifest_text_example :
    read_manifest (manifest_text codec content members)
    ≡ ok (rows_of (digest_of codec codec-IsHexDigest content) members)
read_manifest-manifest_text_example = read_manifest-manifest_text codec codec-IsHexDigest content

build_accepted_example :
    (b : Built) × (build codec place none ≡ (ok b, some sealed))
    × (verify codec (some sealed) b.evidence.manifest_sha256 (some 1000) ≡ ok b.evidence)
    × HasContent codec place content members
build_accepted_example = build_accepted codec place content codec-IsHexDigest (ready 1000)

-- a build whose sources are links: the copies are links, which `verify` refuses to open
abbrev linked_place : Workplace
linked_place = workplace 1000 true

linked_fails :
    build codec linked_place none ≡ (err (raised os_error), (build codec linked_place none).1)
unfolding build check_runtime assemble after_assembly finish_build copy_all copy_entry verify
    check_manifest_hash open_member writable_by_others read_manifest ascii_lines is_line_end
    read_rows read_row partition manifest_text verify_members verify_member
linked_fails = refl

build_failed_example :
    ((build codec linked_place none).1 ≡ none)
    ⊎ IsLeft codec linked_place (build codec linked_place none).1
build_failed_example =
    build_failed codec linked_place none (raised os_error) (build codec linked_place none).1
      linked_fails

abbrev free : Root
free = record { stage = absent; at = λ x. absent; published = [] }

-- a trial on which every call returns, with a failure injected or none
abbrev trial : Option String → Trial
trial point = record { works = λ k. true; truncates = false; seals = false; fail_at = point }

-- a copy that raises with a directory sealed leaves its stage to a user, not to root
abbrev torn_copy : Trial
torn_copy = record {
  works = λ k. elim k [ copy_tree ↦ false | _ ↦ true ];
  truncates = false;
  seals = true;
  fail_at = none;
}

torn_copy_stays : (after_verify torn_copy 1000 (ok found) free).1.stage ≡ Place.sealed
unfolding publish prepare_stage make_stage fill_stage copy_package inject attempt ◌>>◌ conclude
torn_copy_stays = refl

torn_copy_goes : (after_verify torn_copy 0 (ok found) free).1.stage ≡ absent
unfolding publish prepare_stage make_stage fill_stage copy_package inject attempt ◌>>◌ conclude
torn_copy_goes = refl

is_injected_none : IsUninjected (trial none)
is_injected_none point h = refl

rehearse_succeeds_example :
    (left : Root) × (rehearse (trial none) codec 1000 (some sealed) hash free
      ≡ (ok (found, library ∷ launcher ∷ state_directory ∷ policy ∷ []), left))
    × ((x : Target) → left.at x ≡ published)
    × (left.stage ≡ absent)
rehearse_succeeds_example =
    rehearse_succeeds (trial none) codec 1000 (some sealed) hash free found accepted (λ x. refl)
      refl (λ k. refl) is_injected_none

-- ===== src/Package/Rehearse.antt =====
-- `rehearse` of package_v2.py: the publications of an installation under a root, and what undoes them.
use hermes_keel.Base.{
  ℕ, String, Bool, true, false, not, ◌&&◌, ◌==◌, Option, none, some, List, [], ◌∷◌, ◌++◌,
  if◌then◌else◌, str_eq,
}
use hermes_keel.Base.Result.{Result, ok, err, Error, rejected, raised, os_error}
use hermes_keel.Json.Codec.{Codec}
use hermes_keel.Package.Verify.{Directory, Evidence, verify}

-- the four paths that are published
pub data Target : Type 0 where
  library launcher state_directory policy : Target

abbrev pub same_target : Target → Target → Bool
same_target library library = true
same_target launcher launcher = true
same_target state_directory state_directory = true
same_target policy policy = true
same_target _ _ = false

-- What stands at a path. `partial` is a file whose copy was cut short, `sealed` a tree with a directory
-- of mode 0o555, from which only root can remove a file.
pub data Place : Type 0 where
  absent empty_directory occupied sealed published partial : Place

-- `published` is the list that the handler undoes.
pub record Root : Type 0 where
  pub stage : Place
  pub at : Target → Place
  pub published : List Target

-- The calls that can raise for reasons of the file system.
pub data Call : Type 0 where
  stage_mkdir stage_chmod copy_tree open_library open_runtime arrange : Call
  library_parent library_replace library_chmod launcher_parent : Call
  launcher_symlink state_mkdir key_write policy_parent policy_copy : Call

-- `works` tells which calls return; `truncates` whether a copy of the policy that raises has left a
-- part of the file behind, `seals` whether a copy of the package that raises has set the modes of a
-- directory already. `fail_at` is the argument that injects a failure.
pub record Trial : Type 0 where
  pub works : Call → Bool
  pub truncates : Bool
  pub seals : Bool
  pub fail_at : Option String

abbrev pub Rehearsal : Type 0
Rehearsal = Root → Result (Unit {0}) × Root

abbrev pub and_then : Result (Unit {0}) × Root → Rehearsal → Result (Unit {0}) × Root
and_then (ok tt, r) next = next r
and_then (err e, r) next = (err e, r)

infixl 5 ◌>>◌
unfoldable pub ◌>>◌ : Rehearsal → Rehearsal → Rehearsal
(first >> next) r = and_then (first r) next

abbrev pub set_place : Target → Place → Root → Root
set_place t p r = record r { at = λ u. if same_target u t then p else r.at u }

-- `published.append(path)`
abbrev pub list_target : Target → Root → Root
list_target t r = record r { published = r.published ++ t ∷ [] }

abbrev pub is_sealed : Place → Bool
is_sealed sealed = true
is_sealed _ = false

abbrev pub is_absent : Place → Bool
is_absent absent = true
is_absent _ = false

-- `os.replace` of a directory: its new name may be free or an empty directory.
abbrev pub is_replaceable : Place → Bool
is_replaceable absent = true
is_replaceable empty_directory = true
is_replaceable _ = false

-- `shutil.copyfile`: its destination may be free or a file, which is overwritten.
abbrev pub is_writable : Place → Bool
is_writable empty_directory = false
is_writable _ = true

-- the handler: each path in the list is removed, the last one first
unfoldable pub remove_all : List Target → Root → Root
remove_all [] r = r
remove_all (x ∷ xs) r = set_place x absent (remove_all xs r)

-- a call that raises and leaves the first root, or returns and leaves the second
abbrev pub raise_if : Bool → Error → Root → Root → Result (Unit {0}) × Root
raise_if true e left done = (err e, left)
raise_if false e left done = (ok tt, done)

-- `fail_at == point`
abbrev pub is_injected : Option String → String → Bool
is_injected none point = false
is_injected (some p) point = str_eq p point

module _ (t : Trial) where
  -- `if fail_at == point: raise PackageRejected("injected-" + point)`
  unfoldable pub inject : String → String → Rehearsal
  inject point message r = raise_if (is_injected t.fail_at point) (rejected message) r r

  -- calls that change nothing that is published
  unfoldable pub attempt : Call → Rehearsal
  attempt c r = raise_if (not (t.works c)) (raised os_error) r r

  -- `stage.mkdir(parents=True)`
  unfoldable pub make_stage : Rehearsal
  make_stage r =
      raise_if (not (t.works stage_mkdir && is_absent r.stage)) (raised os_error) r
        (record r { stage = occupied })

  abbrev pub set_stage : Place → Root → Root
  set_stage p r = record r { stage = p }

  -- `shutil.copytree` of the sealed package, which copies the modes of its directories too
  unfoldable pub copy_package : Rehearsal
  copy_package r =
      raise_if (not (t.works copy_tree)) (raised os_error)
        (set_stage (if t.seals then sealed else occupied) r) (set_stage sealed r)

  -- the `chmod` of the last directory that was sealed
  unfoldable pub unseal : Rehearsal
  unseal r = raise_if (not (t.works open_runtime)) (raised os_error) r (set_stage occupied r)

  unfoldable pub prepare_stage : Rehearsal
  unfolding ◌>>◌ make_stage attempt inject
  prepare_stage = make_stage >> attempt stage_chmod >> inject "stage" "injected-stage"

  -- `arrange` moves the runtime to the name of its digest
  unfoldable pub fill_stage : Rehearsal
  unfolding ◌>>◌ copy_package unseal attempt inject
  fill_stage =
      copy_package
      >> attempt open_library
      >> unseal
      >> attempt arrange
      >> inject "copy" "injected-copy"

  -- a call that creates the path if the test on what stands there passes, with no entry in the list yet
  unfoldable pub create : Call → Target → (Place → Bool) → Rehearsal
  create c x test r =
      raise_if (not (t.works c && test (r.at x))) (raised os_error) r (set_place x published r)

  unfoldable pub append_published : Target → Rehearsal
  append_published x r = (ok tt, list_target x r)

  -- `shutil.copyfile` of the policy
  unfoldable pub copy_policy : Rehearsal
  copy_policy r =
      raise_if (not (t.works policy_copy && is_writable (r.at policy))) (raised os_error)
        (if t.truncates && is_writable (r.at policy) then set_place policy partial r else r)
        (set_place policy published r)

  unfoldable pub publish_library : Rehearsal
  unfolding ◌>>◌ inject attempt create append_published
  publish_library =
      attempt library_parent
      >> create library_replace library is_replaceable
      >> attempt library_chmod
      >> append_published library
      >> inject "library" "injected-library"

  unfoldable pub publish_launcher : Rehearsal
  unfolding ◌>>◌ inject attempt create append_published
  publish_launcher =
      attempt launcher_parent
      >> create launcher_symlink launcher is_absent
      >> append_published launcher
      >> inject "launcher" "injected-launcher"

  unfoldable pub publish_state : Rehearsal
  unfolding ◌>>◌ inject attempt create append_published
  publish_state =
      create state_mkdir state_directory is_absent
      >> append_published state_directory
      >> attempt key_write
      >> inject "state" "injected-state"

  unfoldable pub publish_policy : Rehearsal
  unfolding ◌>>◌ inject attempt copy_policy append_published
  publish_policy =
      attempt policy_parent
      >> copy_policy
      >> append_published policy
      >> inject "policy" "injected-policy"

  -- the block of the `try`
  unfoldable pub publish : Rehearsal
  unfolding ◌>>◌ prepare_stage fill_stage publish_library publish_launcher publish_state
      publish_policy
  publish =
      prepare_stage >> fill_stage >> publish_library >> publish_launcher >> publish_state
      >> publish_policy

  -- `finally`: `rmtree` passes over what it may not remove
  abbrev pub remove_stage : ℕ → Root → Root
  remove_stage euid r =
      if is_sealed r.stage && not (euid == 0) then r else record r { stage = absent }

  unfoldable pub conclude :
      ℕ → Evidence → Result (Unit {0}) × Root → Result (Evidence × List Target) × Root
  unfolding remove_all
  conclude euid evidence (ok tt, r) = (ok (evidence, r.published), remove_stage euid r)
  conclude euid evidence (err e, r) = (err e, remove_stage euid (remove_all r.published r))

  abbrev pub after_verify : ℕ → Result Evidence → Root → Result (Evidence × List Target) × Root
  after_verify euid (err e) r = (err e, r)
  after_verify euid (ok evidence) r = conclude euid evidence (publish (record r { published = [] }))

  unfoldable pub rehearse :
      Codec → ℕ → Option Directory → String → Root → Result (Evidence × List Target) × Root
  unfolding publish conclude
  rehearse c euid pkg manifest_hash r = after_verify euid (verify c pkg manifest_hash (some euid)) r

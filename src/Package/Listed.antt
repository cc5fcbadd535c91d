-- ===== src/Package/Listed.antt =====
-- The publications of a rehearsal, and the list that its handler undoes.

use hermes_keel.Base.{
  String, ◌≡◌, refl, ◌⊎◌, Bool, true, false, not, ◌&&◌, ◌||◌, List, [], ◌∷◌, ◌++◌, arith,
  if◌then◌else◌,
}
use hermes_keel.Base.Result.{Result, ok, err, Error, rejected, raised, os_error}
use hermes_keel.Package.Rehearse.{
  Target, library, launcher, state_directory, policy, same_target, Place, absent, published, Root,
  Call, stage_mkdir, library_chmod, Trial, Rehearsal, and_then, ◌>>◌, set_place, list_target,
  library_parent, library_replace, is_replaceable, launcher_parent, launcher_symlink, state_mkdir,
  key_write, policy_parent, stage_chmod, copy_tree, open_library, open_runtime, arrange, sealed,
  set_stage, copy_package, unseal, prepare_stage, fill_stage, is_absent, raise_if, is_injected,
  is_writable, partial, occupied, policy_copy, inject, attempt, make_stage, create,
  append_published, copy_policy, publish_library, publish_launcher, publish_state, publish_policy,
  publish, remove_all,
}

abbrev pub is_listed : Target → List Target → Bool
is_listed x [] = false
is_listed x (y ∷ ys) = same_target x y || is_listed x ys

-- Every path that is not free is in the list, but for those of `late`, which are about to be.
abbrev pub AreListed : List Target → Root → Type 0
AreListed late r =
    (x : Target) → (r.at x ≡ absent) ⊎ ((is_listed x late || is_listed x r.published) ≡ true)

is_listed-append :
    (x : Target) (xs ys : List Target) → is_listed x (xs ++ ys) ≡ (is_listed x xs || is_listed x ys)
is_listed-append x [] ys = refl
is_listed-append x (y ∷ xs) ys = ground (arith, is_listed-append x xs ys)

pub remove_all-absent :
    (x : Target) (xs : List Target) (r : Root)
    → (r.at x ≡ absent) ⊎ (is_listed x xs ≡ true)
    → (remove_all xs r).at x ≡ absent
unfolding remove_all
remove_all-absent x [] r h = ground arith
remove_all-absent x (y ∷ ys) r h = ground (arith, remove_all-absent x ys r)

abbrev pub Post : List Target → Result (Unit {0}) × Root → Type 0
Post late (ok tt, r) = AreListed late r
Post late (err e, r) = AreListed [] r

-- Run where all but the first paths are listed, a rehearsal returns where all but the second are, or
-- it raises where all are.
pub record Keeps (before after : List Target) (m : Rehearsal) : Type 0 where
  pub holds : (r : Root) → AreListed before r → Post after (m r)

infixl 5 ◌>>>◌
◌>>>◌ : {a b c : List Target} {m n : Rehearsal} → Keeps a b m → Keeps b c n → Keeps a c (m >> n)
unfolding ◌>>◌
◌>>>◌ {a} {b} {c} {m} {n} first second = record { holds = λ r h. both (m r) (first.holds r h) }
  where
    both : (p : Result (Unit {0}) × Root) → Post b p → Post c (and_then p n)
    both (ok tt, q) h = second.holds q h
    both (err e, q) h = h

raise_if-Post :
    (b : Bool) (e : Error) (late : List Target) (left done : Root)
    → (b ≡ true → AreListed [] left)
    → AreListed late done
    → Post late (raise_if b e left done)
raise_if-Post true e late left done h k = h refl
raise_if-Post false e late left done h k = k

set_place-AreListed :
    (x : Target) (p : Place) (r : Root) → AreListed [] r → AreListed (x ∷ []) (set_place x p r)
set_place-AreListed x p r h y = ground (arith, h y)

list_target-AreListed :
    (x : Target) (r : Root) → AreListed (x ∷ []) r → AreListed [] (list_target x r)
list_target-AreListed x r h y = ground (arith, h y, is_listed-append y r.published (x ∷ []))

module _ (t : Trial) where
  inject-Keeps : (point message : String) → Keeps [] [] (inject t point message)
  unfolding inject
  inject-Keeps point message = record {
    holds = λ r h. raise_if-Post (is_injected t.fail_at point) (rejected message) [] r r (λ _. h) h;
  }

  attempt-Keeps : (c : Call) → Keeps [] [] (attempt t c)
  unfolding attempt
  attempt-Keeps c = record {
    holds = λ r h. raise_if-Post (not (t.works c)) (raised os_error) [] r r (λ _. h) h;
  }

  attempt_works-Keeps :
      (c : Call) (late : List Target) → t.works c ≡ true → Keeps late late (attempt t c)
  unfolding attempt
  attempt_works-Keeps c late works = record {
    holds = λ r h.
        raise_if-Post (not (t.works c)) (raised os_error) late r r (λ e. absurd (works_not e)) h;
  }
    where
      works_not : not (t.works c) ≡ true → ⊥
      works_not e = ground arith

  make_stage-Keeps : Keeps [] [] (make_stage t)
  unfolding make_stage
  make_stage-Keeps = record {
    holds = λ r h.
        raise_if-Post (not (t.works stage_mkdir && is_absent r.stage)) (raised os_error) [] r
          (record r { stage = occupied }) (λ _. h) h;
  }

  prepare_stage-Keeps : Keeps [] [] (prepare_stage t)
  unfolding prepare_stage
  prepare_stage-Keeps =
      make_stage-Keeps >>> attempt-Keeps stage_chmod >>> inject-Keeps "stage" "injected-stage"

  copy_package-Keeps : Keeps [] [] (copy_package t)
  unfolding copy_package
  copy_package-Keeps = record {
    holds = λ r h.
        raise_if-Post (not (t.works copy_tree)) (raised os_error) []
          (set_stage t (if t.seals then sealed else occupied) r) (set_stage t sealed r) (λ _. h) h;
  }

  unseal-Keeps : Keeps [] [] (unseal t)
  unfolding unseal
  unseal-Keeps = record {
    holds = λ r h.
        raise_if-Post (not (t.works open_runtime)) (raised os_error) [] r (set_stage t occupied r)
          (λ _. h) h;
  }

  fill_stage-Keeps : Keeps [] [] (fill_stage t)
  unfolding fill_stage
  fill_stage-Keeps =
      copy_package-Keeps
      >>> attempt-Keeps open_library
      >>> unseal-Keeps
      >>> attempt-Keeps arrange
      >>> inject-Keeps "copy" "injected-copy"

  create-Keeps :
      (c : Call) (x : Target) (test : Place → Bool) → Keeps [] (x ∷ []) (create t c x test)
  unfolding create
  create-Keeps c x test = record {
    holds = λ r h.
        raise_if-Post (not (t.works c && test (r.at x))) (raised os_error) (x ∷ []) r
          (set_place x published r) (λ _. h) (set_place-AreListed x published r h);
  }

  append_published-Keeps : (x : Target) → Keeps (x ∷ []) [] (append_published t x)
  unfolding append_published
  append_published-Keeps x = record { holds = λ r h. list_target-AreListed x r h }

  copy_policy-Keeps : t.truncates ≡ false → Keeps [] (policy ∷ []) (copy_policy t)
  unfolding copy_policy
  copy_policy-Keeps whole = record {
    holds = λ r h.
        raise_if-Post (not (t.works policy_copy && is_writable (r.at policy))) (raised os_error)
          (policy ∷ [])
          (if t.truncates && is_writable (r.at policy) then set_place policy partial r else r)
          (set_place policy published r) (λ _. rw whole h)
          (set_place-AreListed policy published r h);
  }

  publish_library-Keeps : t.works library_chmod ≡ true → Keeps [] [] (publish_library t)
  unfolding publish_library
  publish_library-Keeps chmod =
      attempt-Keeps library_parent
      >>> create-Keeps library_replace library is_replaceable
      >>> attempt_works-Keeps library_chmod (library ∷ []) chmod
      >>> append_published-Keeps library
      >>> inject-Keeps "library" "injected-library"

  publish_launcher-Keeps : Keeps [] [] (publish_launcher t)
  unfolding publish_launcher
  publish_launcher-Keeps =
      attempt-Keeps launcher_parent
      >>> create-Keeps launcher_symlink launcher is_absent
      >>> append_published-Keeps launcher
      >>> inject-Keeps "launcher" "injected-launcher"

  publish_state-Keeps : Keeps [] [] (publish_state t)
  unfolding publish_state
  publish_state-Keeps =
      create-Keeps state_mkdir state_directory is_absent
      >>> append_published-Keeps state_directory
      >>> attempt-Keeps key_write
      >>> inject-Keeps "state" "injected-state"

  publish_policy-Keeps : t.truncates ≡ false → Keeps [] [] (publish_policy t)
  unfolding publish_policy
  publish_policy-Keeps whole =
      attempt-Keeps policy_parent
      >>> copy_policy-Keeps whole
      >>> append_published-Keeps policy
      >>> inject-Keeps "policy" "injected-policy"

  pub publish-Keeps : t.works library_chmod ≡ true → t.truncates ≡ false → Keeps [] [] (publish t)
  unfolding publish
  publish-Keeps chmod whole =
      prepare_stage-Keeps
      >>> fill_stage-Keeps
      >>> publish_library-Keeps chmod
      >>> publish_launcher-Keeps
      >>> publish_state-Keeps
      >>> publish_policy-Keeps whole

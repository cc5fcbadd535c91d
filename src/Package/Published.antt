-- ===== src/Package/Published.antt =====
-- Rehearsals on which nothing fails.
use hermes_keel.Base.{
  ℕ, String, ◌≡◌, refl, Bool, true, false, Option, some, [], ◌∷◌, arith, ap, ◌∙◌, contains_text,
}
use hermes_keel.Base.Result.{ok, rejected}
use hermes_keel.Json.Codec.{Codec}
use hermes_keel.Package.Verify.{Directory, Evidence, verify}
use hermes_keel.Package.Rehearse.{
  Target, library, launcher, state_directory, policy, Place, absent, occupied, published, Root,
  Call, stage_mkdir, stage_chmod, copy_tree, open_library, open_runtime, arrange, sealed, set_stage,
  copy_package, unseal, prepare_stage, fill_stage, library_parent, library_replace, library_chmod,
  launcher_parent, launcher_symlink, state_mkdir, key_write, policy_parent, policy_copy, Trial,
  Rehearsal, and_then, ◌>>◌, set_place, list_target, is_absent, is_replaceable, raise_if,
  is_injected, inject, attempt, make_stage, create, append_published, copy_policy, publish_library,
  publish_launcher, publish_state, publish_policy, publish, conclude, after_verify, rehearse,
}

-- The rehearsal returns, run on the first root, and leaves the second.
record Goes (r r' : Root) (m : Rehearsal) : Type 0 where
  eq : m r ≡ (ok tt, r')

infixl 5 ◌>>>◌
◌>>>◌ : {a b c : Root} {m n : Rehearsal} → Goes a b m → Goes b c n → Goes a c (m >> n)
unfolding ◌>>◌
◌>>>◌ {a} {b} {c} {m} {n} first second = record { eq = ap (λ p. and_then p n) first.eq ∙ second.eq }

-- the root after all four publications
abbrev pub all_published : Root → Root
all_published r = list_target policy (
    set_place policy published (
      list_target state_directory (
        set_place state_directory published (
          list_target launcher (
            set_place launcher published (
              list_target library
                (set_place library published (record r { stage = occupied }))))))))

module _ (t : Trial) where
  -- none of the six points of `fail_at` is named
  abbrev pub IsUninjected : Type 0
  IsUninjected =
      (point : String)
      → contains_text point ("stage" ∷ "copy" ∷ "library" ∷ "launcher" ∷ "state" ∷ "policy" ∷ [])
        ≡ true
      → is_injected t.fail_at point ≡ false

  module _ (works : (k : Call) → t.works k ≡ true) (calm : IsUninjected) where
    inject-Goes :
        (point message : String) (r : Root)
        → is_injected t.fail_at point ≡ false
        → Goes r r (inject t point message)
    unfolding inject
    inject-Goes point message r h = record { eq = ap (λ b. raise_if b (rejected message) r r) h }

    attempt-Goes : (k : Call) (r : Root) → Goes r r (attempt t k)
    unfolding attempt
    attempt-Goes k r = record { eq = ground (arith, works k) }

    create-Goes :
        (k : Call) (x : Target) (test : Place → Bool) (r : Root)
        → test (r.at x) ≡ true
        → Goes r (set_place x published r) (create t k x test)
    unfolding create
    create-Goes k x test r h = record { eq = ground (arith, works k) }

    make_stage-Goes :
        (r : Root) → r.stage ≡ absent → Goes r (record r { stage = occupied }) (make_stage t)
    unfolding make_stage
    make_stage-Goes r h = record { eq = ground (arith, works stage_mkdir) }

    prepare_stage-Goes :
        (r : Root) → r.stage ≡ absent → Goes r (record r { stage = occupied }) (prepare_stage t)
    unfolding prepare_stage
    prepare_stage-Goes r h =
        make_stage-Goes r h
        >>> attempt-Goes stage_chmod _
        >>> inject-Goes "stage" "injected-stage" _ (calm "stage" refl)

    copy_package-Goes : (r : Root) → Goes r (set_stage t sealed r) (copy_package t)
    unfolding copy_package
    copy_package-Goes r = record { eq = ground (arith, works copy_tree) }

    unseal-Goes : (r : Root) → Goes r (set_stage t occupied r) (unseal t)
    unfolding unseal
    unseal-Goes r = record { eq = ground (arith, works open_runtime) }

    fill_stage-Goes : (r : Root) → Goes r (set_stage t occupied r) (fill_stage t)
    unfolding fill_stage
    fill_stage-Goes r =
        copy_package-Goes r
        >>> attempt-Goes open_library _
        >>> unseal-Goes _
        >>> attempt-Goes arrange _
        >>> inject-Goes "copy" "injected-copy" _ (calm "copy" refl)

    copy_policy-Goes :
        (r : Root) → r.at policy ≡ absent → Goes r (set_place policy published r) (copy_policy t)
    unfolding copy_policy
    copy_policy-Goes r h = record { eq = ground (arith, works policy_copy) }

    append_published-Goes :
        (x : Target) (r : Root) → Goes r (list_target x r) (append_published t x)
    unfolding append_published
    append_published-Goes x r = record { eq = refl }

    publish_library-Goes :
        (r : Root)
        → r.at library ≡ absent
        → Goes r (list_target library (set_place library published r)) (publish_library t)
    unfolding publish_library
    publish_library-Goes r h =
        attempt-Goes library_parent r
        >>> create-Goes library_replace library is_replaceable r (ap is_replaceable h)
        >>> attempt-Goes library_chmod _
        >>> append_published-Goes library _
        >>> inject-Goes "library" "injected-library" _ (calm "library" refl)

    publish_launcher-Goes :
        (r : Root)
        → r.at launcher ≡ absent
        → Goes r (list_target launcher (set_place launcher published r)) (publish_launcher t)
    unfolding publish_launcher
    publish_launcher-Goes r h =
        attempt-Goes launcher_parent r
        >>> create-Goes launcher_symlink launcher is_absent r (ap is_absent h)
        >>> append_published-Goes launcher _
        >>> inject-Goes "launcher" "injected-launcher" _ (calm "launcher" refl)

    publish_state-Goes :
        (r : Root)
        → r.at state_directory ≡ absent
        → Goes r
            (list_target state_directory (set_place state_directory published r))
            (publish_state t)
    unfolding publish_state
    publish_state-Goes r h =
        create-Goes state_mkdir state_directory is_absent r (ap is_absent h)
        >>> append_published-Goes state_directory _
        >>> attempt-Goes key_write _
        >>> inject-Goes "state" "injected-state" _ (calm "state" refl)

    publish_policy-Goes :
        (r : Root)
        → r.at policy ≡ absent
        → Goes r (list_target policy (set_place policy published r)) (publish_policy t)
    unfolding publish_policy
    publish_policy-Goes r h =
        attempt-Goes policy_parent r
        >>> copy_policy-Goes r h
        >>> append_published-Goes policy _
        >>> inject-Goes "policy" "injected-policy" _ (calm "policy" refl)

    publish-Goes :
        (r : Root)
        → ((x : Target) → r.at x ≡ absent)
        → r.stage ≡ absent
        → Goes r (all_published r) (publish t)
    unfolding publish
    publish-Goes r free no_stage =
        prepare_stage-Goes r no_stage
        >>> fill_stage-Goes _
        >>> publish_library-Goes _ (free library)
        >>> publish_launcher-Goes _ (free launcher)
        >>> publish_state-Goes _ (free state_directory)
        >>> publish_policy-Goes _ (free policy)

  all_published_at : (r : Root) (x : Target) → (all_published r).at x ≡ published
  all_published_at r library = refl
  all_published_at r launcher = refl
  all_published_at r state_directory = refl
  all_published_at r policy = refl

  -- If the package is accepted, nothing stands at the four paths or the stage, every call works and no
  -- failure is injected, then the rehearsal returns the evidence with all four paths in their order; all
  -- are then published, and the stage is gone.
  pub rehearse_succeeds :
      (c : Codec) (euid : ℕ) (pkg : Option Directory) (hash : String) (r : Root)
      (evidence : Evidence)
      → verify c pkg hash (some euid) ≡ ok evidence
      → ((x : Target) → r.at x ≡ absent)
      → r.stage ≡ absent
      → ((k : Call) → t.works k ≡ true)
      → IsUninjected
      → (left : Root) × (rehearse t c euid pkg hash r
          ≡ (ok (evidence, library ∷ launcher ∷ state_directory ∷ policy ∷ []), left))
        × ((x : Target) → left.at x ≡ published)
        × (left.stage ≡ absent)
  unfolding rehearse conclude
  rehearse_succeeds c euid pkg hash r evidence good free no_stage works calm =
      let start : Root = record r { published = [] } in
      let gone : Root = record (all_published start) { stage = absent } in
      (
        gone,
        ap (λ v. after_verify t euid v r) good
            ∙ ap (conclude t euid evidence) (publish-Goes works calm start free no_stage).eq,
        all_published_at start,
        refl,
      )

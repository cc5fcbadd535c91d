-- ===== src/Package/Staged.antt =====
-- The stage of a rehearsal: when it is sealed as the block of the `try` ends.
use hermes_keel.Base.{
  String, ◌≡◌, refl, ◌∙◌, ◌⊎◌, inl, inr, Bool, true, false, not, ◌&&◌, if◌then◌else◌,
}
use hermes_keel.Base.Result.{Result, ok, err, Error, rejected, raised, os_error}
use hermes_keel.Package.Rehearse.{
  Target, library, launcher, state_directory, policy, Place, occupied, sealed, partial, published,
  Root, Call, stage_mkdir, stage_chmod, copy_tree, open_library, open_runtime, arrange,
  library_parent, library_replace, library_chmod, launcher_parent, launcher_symlink, state_mkdir,
  key_write, policy_parent, policy_copy, Trial, Rehearsal, and_then, ◌>>◌, set_place, set_stage,
  is_absent, is_replaceable, is_writable, raise_if, is_injected, inject, attempt, make_stage,
  copy_package, unseal, prepare_stage, fill_stage, create, append_published, copy_policy,
  publish_library, publish_launcher, publish_state, publish_policy, publish,
}

-- Why a stage is sealed: it was before, or the copy of the package or a `chmod` after it failed.
abbrev pub WhySealed : Trial → Place → Type 0
WhySealed t before =
    (before ≡ sealed)
    ⊎ (t.works copy_tree ≡ false)
    ⊎ (t.works open_library ≡ false)
    ⊎ (t.works open_runtime ≡ false)

unworking : (b : Bool) → not b ≡ true → b ≡ false
unworking true h = cc
unworking false h = refl

occupied_unsealed : (p : Place) → p ≡ occupied → p ≡ sealed → ⊥
occupied_unsealed p h k = cc

module _ (t : Trial) (before : Place) where
  -- what holds of a root on which a call raised
  abbrev Explained : Root → Type 0
  Explained r = r.stage ≡ sealed → WhySealed t before

  abbrev StageIs : Place → Root → Type 0
  StageIs p r = r.stage ≡ p

  abbrev Ends : Place → Result (Unit {0}) × Root → Type 0
  Ends q (ok tt, r) = StageIs q r
  Ends q (err e, r) = Explained r

  -- from a stage in the first state a rehearsal returns with it in the second, or it raises explained
  record Moves (p q : Place) (m : Rehearsal) : Type 0 where
    holds : (r : Root) → StageIs p r → Ends q (m r)

  infixl 5 ◌>>>◌
  ◌>>>◌ : {p q u : Place} {m n : Rehearsal} → Moves p q m → Moves q u n → Moves p u (m >> n)
  unfolding ◌>>◌
  ◌>>>◌ {p} {q} {u} {m} {n} first second = record { holds = λ r h. both (m r) (first.holds r h) }
    where
      both : (x : Result (Unit {0}) × Root) → Ends q x → Ends u (and_then x n)
      both (ok tt, s) h = second.holds s h
      both (err e, s) h = h

  raise_if-Ends :
      (b : Bool) (e : Error) (q : Place) (left done : Root)
      → (b ≡ true → Explained left)
      → StageIs q done
      → Ends q (raise_if b e left done)
  raise_if-Ends true e q left done h k = h refl
  raise_if-Ends false e q left done h k = k

  explained : (r : Root) → StageIs occupied r → Explained r
  explained r h k = absurd (occupied_unsealed r.stage h k)

  -- a call that leaves an occupied stage
  raise_if_occupied :
      (b : Bool) (e : Error) (left done : Root)
      → StageIs occupied left
      → StageIs occupied done
      → Ends occupied (raise_if b e left done)
  raise_if_occupied b e left done h k =
      raise_if-Ends b e occupied left done (λ _. explained left h) k

  inject-Moves : (point message : String) → Moves occupied occupied (inject t point message)
  unfolding inject
  inject-Moves point message = record {
    holds = λ r h. raise_if_occupied (is_injected t.fail_at point) (rejected message) r r h h;
  }

  attempt-Moves : (c : Call) → Moves occupied occupied (attempt t c)
  unfolding attempt
  attempt-Moves c = record {
    holds = λ r h. raise_if_occupied (not (t.works c)) (raised os_error) r r h h;
  }

  open_library-Moves : Moves sealed sealed (attempt t open_library)
  unfolding attempt
  open_library-Moves = record {
    holds = λ r h.
        raise_if-Ends (not (t.works open_library)) (raised os_error) sealed r r
          (λ e _. inr (inr (inl (unworking _ e)))) h;
  }

  make_stage-Moves : Moves before occupied (make_stage t)
  unfolding make_stage
  make_stage-Moves = record {
    holds = λ r h.
        raise_if-Ends (not (t.works stage_mkdir && is_absent r.stage)) (raised os_error) occupied r
          (record r { stage = occupied }) (λ _ k. inl cc) refl;
  }

  copy_package-Moves : Moves occupied sealed (copy_package t)
  unfolding copy_package
  copy_package-Moves = record {
    holds = λ r h.
        raise_if-Ends (not (t.works copy_tree)) (raised os_error) sealed
          (set_stage t (if t.seals then sealed else occupied) r) (set_stage t sealed r)
          (λ e _. inr (inl (unworking _ e))) refl;
  }

  unseal-Moves : Moves sealed occupied (unseal t)
  unfolding unseal
  unseal-Moves = record {
    holds = λ r h.
        raise_if-Ends (not (t.works open_runtime)) (raised os_error) occupied r
          (set_stage t occupied r) (λ e _. inr (inr (inr (unworking _ e)))) refl;
  }

  create-Moves :
      (c : Call) (x : Target) (test : Place → Bool) → Moves occupied occupied (create t c x test)
  unfolding create
  create-Moves c x test = record {
    holds = λ r h.
        raise_if_occupied (not (t.works c && test (r.at x))) (raised os_error) r
          (set_place x published r) h h;
  }

  append_published-Moves : (x : Target) → Moves occupied occupied (append_published t x)
  unfolding append_published
  append_published-Moves x = record { holds = λ r h. h }

  cut_short : (b : Bool) (r : Root) → (if b then set_place policy partial r else r).stage ≡ r.stage
  cut_short true r = refl
  cut_short false r = refl

  copy_policy-Moves : Moves occupied occupied (copy_policy t)
  unfolding copy_policy
  copy_policy-Moves = record {
    holds = λ r h.
        raise_if_occupied (not (t.works policy_copy && is_writable (r.at policy))) (raised os_error)
          (if t.truncates && is_writable (r.at policy) then set_place policy partial r else r)
          (set_place policy published r)
          (cut_short (t.truncates && is_writable (r.at policy)) r ∙ h) h;
  }

  publications-Moves :
      Moves before occupied (prepare_stage t >> fill_stage t)
      × Moves occupied occupied (publish_library t)
      × Moves occupied occupied (publish_launcher t)
      × Moves occupied occupied (publish_state t)
      × Moves occupied occupied (publish_policy t)
  unfolding prepare_stage fill_stage publish_library publish_launcher publish_state publish_policy
  publications-Moves = (
    (make_stage-Moves >>> attempt-Moves stage_chmod >>> inject-Moves "stage" "injected-stage")
        >>> (copy_package-Moves
            >>> open_library-Moves
            >>> unseal-Moves
            >>> attempt-Moves arrange
            >>> inject-Moves "copy" "injected-copy"),
    attempt-Moves library_parent
        >>> create-Moves library_replace library is_replaceable
        >>> attempt-Moves library_chmod
        >>> append_published-Moves library
        >>> inject-Moves "library" "injected-library",
    attempt-Moves launcher_parent
        >>> create-Moves launcher_symlink launcher is_absent
        >>> append_published-Moves launcher
        >>> inject-Moves "launcher" "injected-launcher",
    create-Moves state_mkdir state_directory is_absent
        >>> append_published-Moves state_directory
        >>> attempt-Moves key_write
        >>> inject-Moves "state" "injected-state",
    attempt-Moves policy_parent
        >>> copy_policy-Moves
        >>> append_published-Moves policy
        >>> inject-Moves "policy" "injected-policy",
  )

  publish-Moves : Moves before occupied (publish t)
  unfolding publish
  publish-Moves =
      let (filled, on_library, on_launcher, on_state, on_policy) = publications-Moves in
      filled >>> on_library >>> on_launcher >>> on_state >>> on_policy

Ends-WhySealed :
    (t : Trial) (before : Place) (x : Result (Unit {0}) × Root)
    → Ends t before occupied x
    → x.1.stage ≡ sealed
    → WhySealed t before
Ends-WhySealed t before (ok tt, r) h k = absurd (occupied_unsealed r.stage h k)
Ends-WhySealed t before (err e, r) h k = h k

pub publish-WhySealed :
    (t : Trial) (r : Root) → (publish t r).1.stage ≡ sealed → WhySealed t r.stage
publish-WhySealed t r =
    Ends-WhySealed t r.stage (publish t r) ((publish-Moves t r.stage).holds r refl)

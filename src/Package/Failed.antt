-- ===== src/Package/Failed.antt =====
-- What is left of a build that raises.
use hermes_keel.Base.{◌≡◌, refl, ◌⊎◌, inl, inr, false, Option, none, some, arith, ◌==◌, Bool-cases}
use hermes_keel.Base.Result.{Result, Error, ok, err}
use hermes_keel.Json.Codec.{Codec}
use hermes_keel.Package.Verify.{Directory, Evidence, verify}
use hermes_keel.Package.Build.{
  Workplace, check_runtime, assemble, manifest_hash, remove_sealed, remove_unmarked, finish_build,
  after_assembly, after_runtime, build,
}

module _ (c : Codec) (w : Workplace) where
  abbrev verdict : Directory → Result Evidence
  verdict dir = verify c (some dir) (manifest_hash c w dir) (some w.euid)

  finish_build_failed :
      (dir : Directory) (r : Result Evidence) (e : Error) (left : Option Directory)
      → finish_build c w dir r ≡ (err e, left)
      → (r ≡ err e) × (left ≡ remove_sealed c w dir)
  unfolding finish_build
  finish_build_failed dir (err f) e left h = (cc, cc)
  finish_build_failed dir (ok evidence) e left h = (cc, cc)

  -- The output was assembled, and the builder is not root. Either `verify` refused it, and the sealed
  -- directory stays, or the digest of the manifest was not written, and the runtime stays.
  pub record IsLeft (left : Option Directory) : Type 0 where
    pub dir : Directory
    pub assembled : assemble c w ≡ ok dir
    pub not_root : (w.euid == 0) ≡ false
    pub reason :
        ((e : Error) × (verify c (some dir) (manifest_hash c w dir) (some w.euid) ≡ err e)
          × (left ≡ some dir))
        ⊎ ((w.marks ≡ false) × (left ≡ remove_unmarked c w dir))

  after_assembly_failed :
      (r : Result Directory) {e : Error} {left : Option Directory}
      → assemble c w ≡ r
      → after_assembly c w r ≡ (err e, left)
      → (left ≡ none) ⊎ IsLeft left
  unfolding after_assembly
  after_assembly_failed (err f) made h = inl (cc)
  after_assembly_failed (ok dir) {e} {left} made h = elim (Bool-cases (w.euid == 0)) [
    | inl root ↦ inl (ground (arith, finish_build_failed dir (verdict dir) e left))
    | inr user ↦ elim (Bool-cases w.marks) [
      | inl marks ↦
          let failed : finish_build c w dir (verdict dir) ≡ (err e, left) = ground arith in
          let (refused, is_left) = finish_build_failed dir (verdict dir) e left failed in
          inr (record {
            dir = dir;
            assembled = made;
            not_root = user;
            reason = inl (e, refused, ground arith);
          })
      | inr unmarked ↦ inr (record {
        dir = dir;
        assembled = made;
        not_root = user;
        reason = inr (unmarked, ground arith);
      })
    ]
  ]

  after_runtime_failed :
      (r : Result (Unit {0})) {e : Error} {left : Option Directory}
      → after_runtime c w r ≡ (err e, left)
      → (left ≡ none) ⊎ IsLeft left
  after_runtime_failed (err f) h = inl (cc)
  after_runtime_failed (ok tt) {e} {left} h = elim (Bool-cases w.creates) [
    | inl creates ↦
        let failed : after_assembly c w (assemble c w) ≡ (err e, left) = ground arith in
        after_assembly_failed (assemble c w) refl failed
    | inr fails ↦ inl (ground arith)
  ]

  -- If `build` raises, then its output's path is as it was before, or the builder is not root and the
  -- output had been assembled; then the sealed directory that `verify` refused stays, or, where the
  -- digest of the manifest could not be written, the directory with the runtime in it.
  pub build_failed :
      (standing : Option Directory) (e : Error) (left : Option Directory)
      → build c w standing ≡ (err e, left)
      → (left ≡ standing) ⊎ IsLeft left
  unfolding build
  build_failed (some dir) e left h = inl (cc)
  build_failed none e left h = elim (Bool-cases w.is_absolute) [
    | inl absolute ↦
        let failed : after_runtime c w (check_runtime c w) ≡ (err e, left) = ground arith in
        after_runtime_failed (check_runtime c w) failed
    | inr relative ↦ inl (ground arith)
  ]

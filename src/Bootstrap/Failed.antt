-- ===== src/Bootstrap/Failed.antt =====
-- What a failed run leaves.
use mathlib.Core.Path.{subst}
use hermes_keel.Base.{
  ℕ, String, ◌≡◌, refl, sym, ap, ◌∙◌, ◌⊎◌, inl, inr, Bool, true, false, not, ◌||◌, Option, none,
  some, List, arith, if◌then◌else◌, Bool-cases,
}
use hermes_keel.Base.Result.{Result, Error, ok, err, rejected, ◌>>=◌, reject_if}
use hermes_keel.Json.{Value}
use hermes_keel.Json.Codec.{Codec}
use hermes_keel.Package.Verify.{Directory}
use hermes_keel.Bootstrap.Binding.{Binding}
use hermes_keel.Bootstrap.Fence.{open_fence}
use hermes_keel.Bootstrap.Source.{
  Staging, Copying, Blobs, is_failure, open_source, stage_blobs, seal, after_source, after_staging,
}
use hermes_keel.Bootstrap.Changes.{conclude_left, ceremony_start}
use hermes_keel.Bootstrap.Run.{
  Scene, Site, World, starting, Step, ◌then_do◌, call_of, fail_point, phase1_request, set_staging,
  write_request, write_receipt, emit, inject, install, fresh, resume, after_fence, take_back,
  conclude, prepare, after_prepare, main,
}

-- The site as it was, but for what the flags of the run account for.
record IsTracked (site : Site) (w : World) : Type 0 where
  trusted : (w.sealed_now ≡ true) ⊎ (w.site.staging.trusted ≡ site.staging.trusted)
  authority :
      (w.installed_now ≡ true)
      ⊎ ((w.site.installed ≡ site.installed)
          × (w.site.request ≡ site.request)
          × (w.site.receipt ≡ site.receipt))

-- What a result and its world satisfy: the site is tracked and, if the result is no exception and the
-- flag is set, the installation is accounted for.
abbrev Post : Site → Bool → Result (Unit {0}) × World → Type 0
Post site installing (ok tt, w) = IsTracked site w × (installing ≡ true → w.installed_now ≡ true)
Post site installing (err e, w) = IsTracked site w

-- A step on which the flag passes from the first value to the second.
record Keeps (site : Site) (before after : Bool) (m : Step) : Type 0 where
  holds :
      (w : World)
      → IsTracked site w
      → (before ≡ true → w.installed_now ≡ true)
      → Post site after (m w)

Post-then :
    (site : Site) (before after : Bool) (p : Result (Unit {0}) × World) (m : Step)
    → Post site before p
    → Keeps site before after m
    → Post site after (p then_do m)
Post-then site before after (ok tt, w) m (t, installed) keep = keep.holds w t installed
Post-then site before after (err e, w) m t keep = t

Post-IsTracked :
    (site : Site) (b : Bool) (p : Result (Unit {0}) × World) → Post site b p → IsTracked site p.1
Post-IsTracked site b (ok tt, w) (t, _) = t
Post-IsTracked site b (err e, w) t = t

-- A step that changes neither the flags nor the staging.
abbrev KeepsFlags : Step → Type 0
KeepsFlags m =
    (w : World)
    → ((m w).1.installed_now ≡ w.installed_now)
      × ((m w).1.sealed_now ≡ w.sealed_now)
      × ((m w).1.site.staging ≡ w.site.staging)

then_do-KeepsFlags : (m n : Step) → KeepsFlags m → KeepsFlags n → KeepsFlags (λ w. m w then_do n)
then_do-KeepsFlags m n first second w = both (m w) (first w)
  where
    both :
        (p : Result (Unit {0}) × World)
        → (p.1.installed_now ≡ w.installed_now)
          × (p.1.sealed_now ≡ w.sealed_now)
          × (p.1.site.staging ≡ w.site.staging)
        → ((p then_do n).1.installed_now ≡ w.installed_now)
          × ((p then_do n).1.sealed_now ≡ w.sealed_now)
          × ((p then_do n).1.site.staging ≡ w.site.staging)
    both (ok tt, v) (a, b, d) = let (x, y, z) = second v in (x ∙ a, y ∙ b, z ∙ d)
    both (err e, v) h = h

seal_trusted :
    (c : Codec) (owner : ℕ) (hash : String) (fail : Option String) (source : Option Directory)
    (how : Copying) (g : Staging)
    → ((seal c owner hash fail source how g).0 ≡ ok tt)
      ⊎ ((seal c owner hash fail source how g).1.trusted ≡ g.trusted)
unfolding seal
seal_trusted c owner hash fail source how g = opened (open_source c owner hash source)
  where
    staged :
        (blobs : Blobs) (r : Result (Unit {0}))
        → ((after_staging how g blobs r).0 ≡ ok tt)
          ⊎ ((after_staging how g blobs r).1.trusted ≡ g.trusted)
    staged blobs (err e) = inr refl
    staged blobs (ok tt) = elim (Bool-cases how.replaces) [
      | inl works ↦ inl (ground arith)
      | inr fails ↦ inr (ground arith)
    ]

    opened :
        (r : Result Blobs)
        → ((after_source owner fail how g r).0 ≡ ok tt)
          ⊎ ((after_source owner fail how g r).1.trusted ≡ g.trusted)
    opened (err e) = inr refl
    opened (ok blobs) = staged blobs (stage_blobs owner fail how g blobs)

module _ (s : Scene) (site : Site) where
  set_staging-Post :
      (p : Result (Unit {0}) × Staging)
      → (p.0 ≡ ok tt) ⊎ (p.1.trusted ≡ site.staging.trusted)
      → Post site false (set_staging p (starting site))
  set_staging-Post (ok tt, g) h =
      (record { trusted = inl refl; authority = inr (refl, refl, refl) }, λ e. absurd (ff e))
    where
      ff : false ≡ true → ⊥
      ff e = cc
  set_staging-Post (err e, g) (inl h) = cc
  set_staging-Post (err e, g) (inr h) = record {
    trusted = inr h;
    authority = inr (refl, refl, refl);
  }

  inject-Keeps : (b : Bool) (point message : String) → Keeps site b b (inject s point message)
  unfolding inject
  inject-Keeps b point message = record {
    holds = λ w t installed.
        injected w t installed (reject_if (is_failure (fail_point s) point) message);
  }
    where
      injected :
          (w : World)
          → IsTracked site w
          → (b ≡ true → w.installed_now ≡ true)
          → (r : Result (Unit {0})) → Post site b (r, w)
      injected w t installed (ok tt) = (t, installed)
      injected w t installed (err e) = t

  install-Keeps : s.leaves ≡ false → Keeps site false true (install s)
  unfolding install
  install-Keeps undoes = record {
    holds = λ w t _.
        rw (undoes)
          (elim s.installs
            as (λ x. Post site true (
              if x
              then (
                ok tt,
                record w { site = record w.site { installed = true }; installed_now = true },
              )
              else (err (rejected "installer-failed:"), w))) [
                | true ↦ (record { trusted = t.trusted; authority = inl refl }, λ _. refl)
                | false ↦ t
              ]);
  }

module _ (c : Codec) (s : Scene) (b : Binding) where
  emit-KeepsFlags : (req : Result Value) → KeepsFlags (emit c s b req)
  unfolding emit write_request write_receipt
  emit-KeepsFlags (err e) w = (refl, refl, refl)
  emit-KeepsFlags (ok req) w =
      then_do-KeepsFlags
        (λ v.
          call_of s.makes_directory v
          then_do write_request c s b req
          then_do write_receipt c s b req)
        (call_of s.directory_syncs)
        (then_do-KeepsFlags (λ v. call_of s.makes_directory v then_do write_request c s b req)
          (write_receipt c s b req)
          (then_do-KeepsFlags (call_of s.makes_directory) (write_request c s b req)
            (λ v. (refl, refl, refl)) (λ v. (refl, refl, refl)))
          (λ v. (refl, refl, refl)))
        (λ v. (refl, refl, refl)) w

  module _ (site : Site) where
    flags-Post :
        (w : World) (p : Result (Unit {0}) × World)
        → IsTracked site w
        → w.installed_now ≡ true
        → (p.1.installed_now ≡ w.installed_now)
          × (p.1.sealed_now ≡ w.sealed_now)
          × (p.1.site.staging ≡ w.site.staging)
        → Post site true p
    flags-Post w (r, v) t installed (a, d, e) = both r
      where
        tracked : IsTracked site v
        tracked = record {
          trusted = elim t.trusted [
            | inl now ↦ inl (d ∙ now)
            | inr same ↦ inr (ap (λ (g : Staging). g.trusted) e ∙ same)
          ];
          authority = inl (a ∙ installed);
        }

        both : (r : Result (Unit {0})) → Post site true (r, v)
        both (ok tt) = (tracked, λ _. a ∙ installed)
        both (err f) = tracked

    emit-Keeps : (req : Result Value) → Keeps site true true (emit c s b req)
    emit-Keeps req = record {
      holds = λ w t installed.
          flags-Post w (emit c s b req w) t (installed refl) (emit-KeepsFlags req w);
    }

    fresh-Post : s.leaves ≡ false → Post site true (fresh c s b (starting site))
    unfolding fresh
    fresh-Post undoes =
        let sealed =
          seal c s.captain b.manifest_sha256 (fail_point s) s.source s.copying site.staging in
        Post-then site true true _ _
          (Post-then site true true _ _
            (Post-then site false true _ _
              (Post-then site false false _ _
                (set_staging-Post s site sealed (
                  seal_trusted c s.captain b.manifest_sha256 (fail_point s) s.source s.copying
                    site.staging))
                (inject-Keeps s site false "trusted-publication" "injected-trusted-publication"))
              (install-Keeps s site undoes))
            (inject-Keeps s site true "installed" "injected-installed"))
          (emit-Keeps (s.pre_state >>= phase1_request c s b))

    resume-IsTracked :
        (receipt request : Option (List ℕ))
        → s.leaves ≡ false
        → IsTracked site (resume c s b receipt request (starting site)).1
    resume-IsTracked (some r) (some q) undoes = record {
      trusted = inr refl;
      authority = inr (refl, refl, refl);
    }
    resume-IsTracked (some r) none undoes =
        Post-IsTracked site true (fresh c s b (starting site)) (fresh-Post undoes)
    resume-IsTracked none q undoes =
        Post-IsTracked site true (fresh c s b (starting site)) (fresh-Post undoes)

    after_fence-IsTracked :
        (r : Result (Unit {0}))
        → s.leaves ≡ false
        → IsTracked site (after_fence c s b r (starting site)).1
    after_fence-IsTracked (err e) undoes = record {
      trusted = inr refl;
      authority = inr (refl, refl, refl);
    }
    after_fence-IsTracked (ok tt) undoes = resume-IsTracked site.receipt site.request undoes

-- Nothing of a run stands at the site.
pub record IsVacant (site : Site) : Type 0 where
  pub untrusted : site.staging.trusted ≡ none
  pub uninstalled : site.installed ≡ false
  pub unrequested : site.request ≡ none
  pub unreceipted : site.receipt ≡ none

module _ (c : Codec) (s : Scene) where
  take_back-IsVacant :
      (site : Site) (w : World)
      → (not s.is_slash || s.fixture) ≡ true
      → IsVacant site
      → IsTracked site w
      → IsVacant (take_back s w)
  unfolding take_back
  take_back-IsVacant site w removable v t =
      let a = t.trusted in
      let b = t.authority in
      let v1 = v.untrusted in
      let v2 = v.uninstalled in
      let v3 = v.unrequested in
      let v4 = v.unreceipted in
      record {
        untrusted = ground (arith, a, v1);
        uninstalled = ground (arith, b, v2);
        unrequested = ground (arith, b, v3);
        unreceipted = ground (arith, b, v4);
      }

  conclude-IsVacant :
      (site : Site) (p : Result (Unit {0}) × World) {left : Site}
      → (not s.is_slash || s.fixture) ≡ true
      → IsVacant site
      → IsTracked site p.1
      → conclude s p ≡ (ok 1, left)
      → IsVacant left
  unfolding conclude
  conclude-IsVacant site (ok tt, w) {left} removable v t h = absurd (done h)
    where
      done : ◌≡◌ {A = Result ℕ × Site} (ok 0, w.site) (ok 1, left) → ⊥
      done e = ground arith
  conclude-IsVacant site (err e, w) removable v t h =
      subst IsVacant (sym (conclude_left c s e w h)) (take_back-IsVacant site w removable v t)

  -- A run that ends with exit status 1 on a site where nothing stood leaves nothing there: no trusted
  -- copy, no installed authority, no request and no receipt. The root of the installation is not `/`, or
  -- the run is a fixture's; and an install.sh that fails leaves no authority installed.
  pub main_failed :
      (site left : Site)
      → (not s.is_slash || s.fixture) ≡ true
      → s.leaves ≡ false
      → IsVacant site
      → main c s site ≡ (ok 1, left)
      → IsVacant left
  unfolding main
  main_failed site left removable undoes v h = after (prepare c s) h
    where
      raised_is_no_status : (e : Error) → ◌≡◌ {A = Result ℕ × Site} (err e, site) (ok 1, left) → ⊥
      raised_is_no_status e h = cc

      after : (p : Result Binding) → after_prepare c s p site ≡ (ok 1, left) → IsVacant left
      after (err e) h = absurd (raised_is_no_status e h)
      after (ok b) h =
          conclude-IsVacant site
            (after_fence c s b (open_fence s.fixture b s.board) (starting site)) removable v
            (after_fence-IsTracked c s b site (open_fence s.fixture b s.board) undoes)
            (ceremony_start c s b site h)

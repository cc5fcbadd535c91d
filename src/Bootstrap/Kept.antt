-- ===== src/Bootstrap/Kept.antt =====
-- A run under the root of a production machine that fails after the installation.
use hermes_keel.Base.{◌≡◌, ap, ◌∙◌, true, false, none, arith}
use hermes_keel.Base.Result.{Result, Error, ok, err, ◌>>=◌}
use hermes_keel.Json.Codec.{Codec}
use hermes_keel.Bootstrap.Binding.{Binding}
use hermes_keel.Bootstrap.Fence.{open_fence}
use hermes_keel.Bootstrap.Source.{Staging, seal}
use hermes_keel.Bootstrap.Run.{
  Scene, Site, World, starting, ◌then_do◌, fail_point, phase1_request, set_staging, emit, inject,
  install, fresh, resume, after_fence, take_back, conclude, ceremony, prepare, after_prepare, main,
}

module _ (c : Codec) (s : Scene) (b : Binding) (site : Site) where
  abbrev pub sealed_by : Result (Unit {0}) × Staging
  sealed_by = seal c s.captain b.manifest_sha256 (fail_point s) s.source s.copying site.staging

  -- the world after the installer
  abbrev installed_world : Staging → World
  installed_world g = record {
    site = record site { staging = g; installed = true };
    sealed_now = true;
    installed_now = true;
  }

  fresh_failed :
      (p : Result (Unit {0}) × Staging) (e : Error)
      → p.0 ≡ ok tt
      → s.fixture ≡ false
      → s.installs ≡ true
      → s.pre_state ≡ err e
      → (set_staging p (starting site)
          then_do inject s "trusted-publication" "injected-trusted-publication"
          then_do install s
          then_do inject s "installed" "injected-installed"
          then_do emit c s b (s.pre_state >>= phase1_request c s b))
        ≡ (err e, installed_world p.1)
  unfolding inject install emit
  fresh_failed (ok tt, g) e good production works no_state = ground arith
  fresh_failed (err f, g) e good production works no_state = cc

  take_back_installed :
      (g : Staging)
      → s.fixture ≡ false
      → s.is_slash ≡ true
      → take_back s (installed_world g)
        ≡ record site { staging = record g { trusted = none }; installed = true }
  unfolding take_back
  take_back_installed g production slash = ground arith

  -- Outside of the fixture, with `/` as the root of the installation: if the binding and the fence pass,
  -- there is no receipt yet, the source is sealed and the installer works, but the pre-state cannot be
  -- captured, then the run ends with exit status 1, the trusted copy is taken back, and the broker
  -- stays installed.
  pub main_keeps_installed :
      (e : Error)
      → s.fixture ≡ false
      → s.is_slash ≡ true
      → prepare c s ≡ ok b
      → open_fence s.fixture b s.board ≡ ok tt
      → site.receipt ≡ none
      → sealed_by.0 ≡ ok tt
      → s.installs ≡ true
      → s.pre_state ≡ err e
      → main c s site
        ≡ (ok 1, record site { staging = record sealed_by.1 { trusted = none }; installed = true })
  unfolding main ceremony conclude fresh
  main_keeps_installed e production slash prepared fenced no_receipt sealed works no_state =
      ap (λ p. after_prepare c s p site) prepared
      ∙ ap (λ f. conclude s (after_fence c s b f (starting site))) fenced
      ∙ ap (λ r. conclude s (resume c s b r site.request (starting site))) no_receipt
      ∙ ap (conclude s) (fresh_failed sealed_by e sealed production works no_state)
      ∙ ap (λ (left : Site). (ok 1, left)) (take_back_installed sealed_by.1 production slash)

-- ===== src/Bootstrap/Done.antt =====
-- What a run has done that ends with exit status 0.
use mathlib.Core.Path.{subst}
use hermes_keel.Base.{
  ℕ, String, ◌≡◌, refl, sym, ap, ◌∙◌, ◌⊎◌, inl, inr, Bool, true, false, Option, none, some, List,
  [], ◌∷◌, ◌++◌, arith,
}
use hermes_keel.Base.Result.{Result, ok, err, ◌>>=◌}
use hermes_keel.Json.{Value, dict}
use hermes_keel.Json.Codec.{Codec}
use hermes_keel.Bootstrap.Binding.{Binding}
use hermes_keel.Bootstrap.Fence.{open_fence}
use hermes_keel.Bootstrap.Source.{
  Blobs, Staging, open_source, stage_blobs, copies, after_source, after_staging, seal,
}
use hermes_keel.Bootstrap.Changes.{ceremony_start}
use hermes_keel.Bootstrap.Run.{
  Scene, Site, World, starting, Step, ◌then_do◌, call_of, FileWrite, write_exclusive, taken,
  fail_point, check_existing, phase1_request, audit, set_staging, write_request, write_receipt,
  emit, inject, install, fresh, resume, after_fence, take_back, conclude, prepare, after_prepare,
  main,
}

-- A chain returns exactly when its first part does and the rest does on what that leaves.
then_do-eq-ok :
    (p : Result (Unit {0}) × World) (m : Step) {w : World}
    → (p then_do m) ≡ (ok tt, w)
    → (v : World) × (p ≡ (ok tt, v)) × (m v ≡ (ok tt, w))
then_do-eq-ok (ok tt, v) m h = (v, refl, h)
then_do-eq-ok (err e, v) m h = cc

write_exclusive_lem :
    (how : FileWrite) (bytes : List ℕ) (before : Option (List ℕ))
    → (write_exclusive how bytes before).0 ≡ ok tt
    → (before ≡ none) × ((write_exclusive how bytes before).1 ≡ some (taken how bytes))
unfolding write_exclusive
write_exclusive_lem how bytes none h = (refl, ground arith)
write_exclusive_lem how bytes (some b) h = cc

call_of_lem : (works : Bool) (v : World) {w : World} → call_of works v ≡ (ok tt, w) → v ≡ w
call_of_lem true v h = ap (λ p. p.1) h
call_of_lem false v h = cc

inject_lem :
    (s : Scene) (point message : String) (v : World) {w : World}
    → inject s point message v ≡ (ok tt, w)
    → v ≡ w
unfolding inject
inject_lem s point message v h = ap (λ p. p.1) h

module _ (c : Codec) (s : Scene) (b : Binding) where
  -- The two files of the request.
  record IsEmitted (req : Value) (v w : World) : Type 0 where
    free : v.site.request ≡ none
    no_receipt : v.site.receipt ≡ none
    after : w ≡ record v {
      site = record v.site {
        request = some (taken s.request_write (c.dumps req ++ 10 ∷ []));
        receipt = some (taken s.receipt_write (c.dumps (dict (audit c s b req)) ++ 10 ∷ []));
      };
    }

  write_request_lem :
      (req : Value) (v : World) {w : World}
      → write_request c s b req v ≡ (ok tt, w)
      → (v.site.request ≡ none)
        × (w ≡ record v {
          site = record v.site { request = some (taken s.request_write (c.dumps req ++ 10 ∷ [])) };
        })
  unfolding write_request
  write_request_lem req v {w} h =
      let file = write_exclusive s.request_write (c.dumps req ++ 10 ∷ []) v.site.request in
      let (free, found) =
        write_exclusive_lem s.request_write (c.dumps req ++ 10 ∷ []) v.site.request
          (ap (λ p. p.0) h) in
      (
        free,
        sym (ap (λ p. p.1) h) ∙ ap (λ f. record v { site = record v.site { request = f } }) found,
      )

  write_receipt_lem :
      (req : Value) (v : World) {w : World}
      → write_receipt c s b req v ≡ (ok tt, w)
      → (v.site.receipt ≡ none)
        × (w ≡ record v {
          site = record v.site {
            receipt = some (taken s.receipt_write (c.dumps (dict (audit c s b req)) ++ 10 ∷ []));
          };
        })
  unfolding write_receipt
  write_receipt_lem req v {w} h =
      let bytes = c.dumps (dict (audit c s b req)) ++ 10 ∷ [] in
      let (free, found) =
        write_exclusive_lem s.receipt_write bytes v.site.receipt (ap (λ p. p.0) h) in
      (
        free,
        sym (ap (λ p. p.1) h) ∙ ap (λ f. record v { site = record v.site { receipt = f } }) found,
      )

  emit-IsEmitted :
      (req : Value) (v : World) {w : World} → emit c s b (ok req) v ≡ (ok tt, w) → IsEmitted req v w
  unfolding emit
  emit-IsEmitted req v {w} h =
      let (v3, h3, synced) = then_do-eq-ok _ (call_of s.directory_syncs) h in
      let (v2, h2, received) = then_do-eq-ok _ (write_receipt c s b req) h3 in
      let (v1, made, requested) =
        then_do-eq-ok (call_of s.makes_directory v) (write_request c s b req) h2 in
      let (free, at1) = write_request_lem req v1 requested in
      let (no_receipt, at2) = write_receipt_lem req v2 received in
      let same = call_of_lem s.makes_directory v made in
      record {
        free = ap (λ (u : World). u.site.request) same ∙ free;
        no_receipt =
            ap (λ (u : World). u.site.receipt) same
            ∙ sym (ap (λ (u : World). u.site.receipt) at1)
            ∙ no_receipt;
        after =
            sym (call_of_lem s.directory_syncs v3 synced)
            ∙ at2
            ∙ ap receipted at1
            ∙ ap (λ u. receipted (requested_at u)) (sym same);
      }
    where
      requested_at : World → World
      requested_at u = record u {
        site = record u.site { request = some (taken s.request_write (c.dumps req ++ 10 ∷ [])) };
      }

      receipted : World → World
      receipted u = record u {
        site = record u.site {
          receipt = some (taken s.receipt_write (c.dumps (dict (audit c s b req)) ++ 10 ∷ []));
        };
      }

  -- The sealing that a run has done: the blobs of the source, and the copies in the trusted place.
  pub record IsSealedBy (site : Site) (g : Staging) : Type 0 where
    pub blobs : Blobs
    pub opened : open_source c s.captain b.manifest_sha256 s.source ≡ ok blobs
    pub staged : stage_blobs s.captain (fail_point s) s.copying site.staging blobs ≡ ok tt
    pub published : g ≡ record { trusted = some (copies s.copying.takes blobs); stage = none }

  seal-IsSealedBy :
      (site : Site)
      → (seal c s.captain b.manifest_sha256 (fail_point s) s.source s.copying site.staging).0
        ≡ ok tt
      → IsSealedBy site
          (seal c s.captain b.manifest_sha256 (fail_point s) s.source s.copying site.staging).1
  unfolding seal
  seal-IsSealedBy site h = opened (open_source c s.captain b.manifest_sha256 s.source) refl h
    where
      staged :
          (blobs : Blobs) (r : Result (Unit {0}))
          → open_source c s.captain b.manifest_sha256 s.source ≡ ok blobs
          → stage_blobs s.captain (fail_point s) s.copying site.staging blobs ≡ r
          → (after_staging s.copying site.staging blobs r).0 ≡ ok tt
          → IsSealedBy site (after_staging s.copying site.staging blobs r).1
      staged blobs (err e) read made h = cc
      staged blobs (ok tt) read made h = record {
        blobs = blobs;
        opened = read;
        staged = made;
        published = ground arith;
      }

      opened :
          (r : Result Blobs)
          → open_source c s.captain b.manifest_sha256 s.source ≡ r
          → (after_source s.captain (fail_point s) s.copying site.staging r).0 ≡ ok tt
          → IsSealedBy site (after_source s.captain (fail_point s) s.copying site.staging r).1
      opened (err e) read h = cc
      opened (ok blobs) read h =
          staged blobs (stage_blobs s.captain (fail_point s) s.copying site.staging blobs) read refl
            h

  -- A run of its own: the source is sealed, the broker installed, and the request of the first phase is
  -- written with a receipt that names its digest.
  pub record IsFresh (site left : Site) : Type 0 where
    pub staging : Staging
    pub sealed : IsSealedBy site staging
    pub req : Value
    pub requested : (s.pre_state >>= phase1_request c s b) ≡ ok req
    pub was_free : (site.request ≡ none) × (site.receipt ≡ none)
    pub is_left : left ≡ record {
      staging = staging;
      installed = true;
      request = some (taken s.request_write (c.dumps req ++ 10 ∷ []));
      receipt = some (taken s.receipt_write (c.dumps (dict (audit c s b req)) ++ 10 ∷ []));
    }

  set_staging_lem :
      (p : Result (Unit {0}) × Staging) (v : World) {w : World}
      → set_staging p v ≡ (ok tt, w)
      → (p.0 ≡ ok tt) × (w ≡ record v { site = record v.site { staging = p.1 }; sealed_now = true })
  set_staging_lem (ok tt, g) v h = (refl, sym (ap (λ p. p.1) h))
  set_staging_lem (err e, g) v h = cc

  install_lem :
      (v : World) {w : World}
      → install s v ≡ (ok tt, w)
      → w ≡ record v { site = record v.site { installed = true }; installed_now = true }
  unfolding install
  install_lem v h = ground arith

  emit_lem :
      (r : Result Value) (v : World) {w : World}
      → emit c s b r v ≡ (ok tt, w)
      → (req : Value) × (r ≡ ok req) × IsEmitted req v w
  unfolding emit
  emit_lem (err e) v h = cc
  emit_lem (ok req) v h = (req, refl, emit-IsEmitted req v h)

  fresh-IsFresh :
      (site : Site) {w : World} → fresh c s b (starting site) ≡ (ok tt, w) → IsFresh site w.site
  unfolding fresh
  fresh-IsFresh site {w} h =
      let sealed =
        seal c s.captain b.manifest_sha256 (fail_point s) s.source s.copying site.staging in
      let (v4, h4, emitted) =
        then_do-eq-ok _ (emit c s b (s.pre_state >>= phase1_request c s b)) h in
      let (v3, h3, i2) = then_do-eq-ok _ (inject s "installed" "injected-installed") h4 in
      let (v2, h2, installed) = then_do-eq-ok _ (install s) h3 in
      let (v1, h1, i1) =
        then_do-eq-ok (set_staging sealed (starting site))
          (inject s "trusted-publication" "injected-trusted-publication") h2 in
      let (good, at1) = set_staging_lem sealed (starting site) h1 in
      let (req, requested, e) = emit_lem (s.pre_state >>= phase1_request c s b) v4 emitted in
      let same12 = inject_lem s "trusted-publication" "injected-trusted-publication" v1 i1 in
      let at3 = install_lem v2 installed in
      let same34 = inject_lem s "installed" "injected-installed" v3 i2 in
      let at4 : v4 ≡ installed_world sealed.1 = sym same34 ∙ at3 ∙ ap marked (sym same12 ∙ at1) in
      record {
        staging = sealed.1;
        sealed = seal-IsSealedBy site good;
        req = req;
        requested = requested;
        was_free = (
          ap (λ (u : World). u.site.request) (sym at4) ∙ e.free,
          ap (λ (u : World). u.site.receipt) (sym at4) ∙ e.no_receipt,
        );
        is_left =
            ap (λ (u : World). u.site) e.after ∙ ap (λ (u : World). written_site req u.site) at4;
      }
    where
      marked : World → World
      marked u = record u { site = record u.site { installed = true }; installed_now = true }

      installed_world : Staging → World
      installed_world g = record {
        site = record site { staging = g; installed = true };
        sealed_now = true;
        installed_now = true;
      }

      written_site : Value → Site → Site
      written_site req u = record u {
        request = some (taken s.request_write (c.dumps req ++ 10 ∷ []));
        receipt = some (taken s.receipt_write (c.dumps (dict (audit c s b req)) ++ 10 ∷ []));
      }

  -- A run that finds the files of an earlier one, which fit the binding.
  pub record IsResumed (site left : Site) : Type 0 where
    pub receipt : List ℕ
    pub request : List ℕ
    pub found : (site.receipt ≡ some receipt) × (site.request ≡ some request)
    pub fits : check_existing c b receipt request ≡ ok tt
    pub unchanged : left ≡ site

  conclude_ok :
      (p : Result (Unit {0}) × World) {left : Site}
      → conclude s p ≡ (ok 0, left)
      → (w : World) × (p ≡ (ok tt, w)) × (w.site ≡ left)
  unfolding conclude
  conclude_ok (ok tt, w) h = (w, refl, ap (λ p. p.1) h)
  conclude_ok (err e, w) {left} h = absurd (failed h)
    where
      failed : ◌≡◌ {A = Result ℕ × Site} (ok 1, take_back s w) (ok 0, left) → ⊥
      failed e = ground arith

  ran :
      (site left : Site)
      → conclude s (fresh c s b (starting site)) ≡ (ok 0, left)
      → IsResumed site left ⊎ IsFresh site left
  ran site left h =
      let (w, done, same) = conclude_ok (fresh c s b (starting site)) h in
      inr (subst (IsFresh site) same (fresh-IsFresh site done))

  main_zero_cases :
      (site left : Site) (receipt request : Option (List ℕ))
      → site.receipt ≡ receipt
      → site.request ≡ request
      → conclude s (resume c s b receipt request (starting site)) ≡ (ok 0, left)
      → IsResumed site left ⊎ IsFresh site left
  main_zero_cases site left (some r) (some q) at_r at_q h =
      let (w, done, same) = conclude_ok (check_existing c b r q, starting site) h in
      inl (record {
        receipt = r;
        request = q;
        found = (at_r, at_q);
        fits = ap (λ p. p.0) done;
        unchanged = sym same ∙ ap (λ (u : World). u.site) (sym (ap (λ p. p.1) done));
      })
  main_zero_cases site left (some r) none at_r at_q h = ran site left h
  main_zero_cases site left none q at_r at_q h = ran site left h

  after_fence_ok :
      (site left : Site) (f : Result (Unit {0}))
      → conclude s (after_fence c s b f (starting site)) ≡ (ok 0, left)
      → (f ≡ ok tt)
        × (conclude s (resume c s b site.receipt site.request (starting site)) ≡ (ok 0, left))
  after_fence_ok site left (ok tt) h = (refl, h)
  after_fence_ok site left (err e) h = let (w, done, _) = conclude_ok (err e, starting site) h in cc

module _ (c : Codec) (s : Scene) where
  after_prepare_ok :
      (site left : Site) (p : Result Binding)
      → after_prepare c s p site ≡ (ok 0, left)
      → (b : Binding) × (p ≡ ok b)
        × (conclude s (after_fence c s b (open_fence s.fixture b s.board) (starting site))
            ≡ (ok 0, left))
  after_prepare_ok site left (ok b) h = (b, refl, ceremony_start c s b site h)
  after_prepare_ok site left (err e) h = cc

  -- A run that ends with exit status 0 has an accepted binding and an open fence. Either it found the
  -- receipt and the request of an earlier run, which fit the binding, and changed nothing; or there were
  -- no such files, the source was sealed by the binding's manifest and its blobs were copied into the
  -- trusted place, the broker was installed, and `make_request` made the request whose text stands in
  -- the one file, as far as its write took it, with a receipt of its digest in the other.
  pub main_zero :
      (site left : Site)
      → main c s site ≡ (ok 0, left)
      → (b : Binding) × (prepare c s ≡ ok b)
        × (open_fence s.fixture b s.board ≡ ok tt)
        × (IsResumed c s b site left ⊎ IsFresh c s b site left)
  unfolding main
  main_zero site left h =
      let (b, prepared, h1) = after_prepare_ok site left (prepare c s) h in
      let (fenced, h2) = after_fence_ok c s b site left (open_fence s.fixture b s.board) h1 in
      (b, prepared, fenced, main_zero_cases c s b site left site.receipt site.request refl refl h2)

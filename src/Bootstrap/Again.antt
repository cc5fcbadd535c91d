-- ===== src/Bootstrap/Again.antt =====
-- A second run under the same binding.
use mathlib.Core.Path.{subst}
use hermes_keel.Base.{
  ℕ, String, ◌≡◌, refl, sym, ap, ◌∙◌, ◌⊎◌, inl, inr, true, false, not, ◌||◌, Option, none, some,
  List, [], ◌∷◌, ◌++◌, arith, ◌==◌, take, length, all, eq_refl,
}
use hermes_keel.Base.Result.{
  Result, ok, raised, value_error, attribute_error, ok_injective, reject_if, or_raise, ◌>>=◌,
}
use mathlib.Core.Option
use hermes_keel.Json.Access.{as_dict}
use hermes_keel.Json.{Value, null, text, dict, Fields, get}
use hermes_keel.Json.Equality.{eq}
use hermes_keel.Json.Normal.{normal, normal_fields, get-normal_fields}
use hermes_keel.Json.Codec.{Codec, IsLawful}
use hermes_keel.Broker.Ledger.Chain.{digest, get_value}
use hermes_keel.Bootstrap.Binding.{Binding}
use hermes_keel.Bootstrap.Fence.{open_fence}
use hermes_keel.Bootstrap.Done.{IsResumed, IsFresh, main_zero}
use hermes_keel.Bootstrap.Run.{
  Scene, Site, FileWrite, taken, starting, rstrip_newlines, drifts, check_existing, audit, resume,
  after_fence, conclude, ceremony, prepare, after_prepare, main,
}

rstrip_newlines_lem :
    (bs : List ℕ)
    → all (λ b. not (b == 10 || b == 13)) bs ≡ true
    → rstrip_newlines (bs ++ 10 ∷ []) ≡ bs
unfolding rstrip_newlines
rstrip_newlines_lem [] h = refl
rstrip_newlines_lem (b ∷ []) h = ground arith
rstrip_newlines_lem (b ∷ d ∷ bs) h = ground (arith, rstrip_newlines_lem (d ∷ bs))

get_value-normal_fields :
    (k s : String) (fs : Fields)
    → get k fs ≡ some (text s)
    → get_value k (normal_fields fs) ≡ text s
unfolding normal
get_value-normal_fields k s fs h =
    ap (λ o. elim o as (λ _. Value) [ none ↦ null | some v ↦ v ])
      (get-normal_fields k fs ∙ ap (Option.map normal) h)

eq-same_text : (v : Value) (s : String) → v ≡ text s → eq v (text s) ≡ true
unfolding eq
eq-same_text v s h = rw (h, eq_refl) refl

some_injective {ℓ} : {A : Type ℓ} (a b : A) → Option.some a ≡ some b → a ≡ b
some_injective a b e = cc

take-length : (bs : List ℕ) → take (length bs) bs ≡ bs
take-length [] = refl
take-length (b ∷ bs) = ap (λ r. b ∷ r) (take-length bs)

taken_whole :
    (how : FileWrite) (bytes : List ℕ) → ((n : ℕ) → how.takes n ≡ n) → taken how bytes ≡ bytes
taken_whole how bytes whole = ap (λ n. take n bytes) (whole (length bytes)) ∙ take-length bytes

normal_dict : (fs : Fields) → Option.some (normal (dict fs)) ≡ some (dict (normal_fields fs))
unfolding normal
normal_dict fs = refl

audit_fits :
    (c : Codec) (s : Scene) (b : Binding) (req : Value)
    → drifts c b (normal_fields (audit c s b req)) (digest c req) ≡ false
unfolding audit
audit_fits c s b req =
    let fs = audit c s b req in
    ground (
      arith,
      eq-same_text _ _
          (get_value-normal_fields "schema" "keel.phase0-bootstrap-receipt.v1" fs refl),
      eq-same_text _ _ (get_value-normal_fields "manifest_sha256" b.manifest_sha256 fs refl),
      eq-same_text _ _ (get_value-normal_fields "binding_sha256" b.hash fs refl),
      eq-same_text _ _ (get_value-normal_fields "request_sha256" (digest c req) fs refl),
    )

module _ (c : Codec) (law : IsLawful c)
    (loads_line : (v : Value) → c.loads (c.dumps v ++ 10 ∷ []) ≡ some (normal v)) where
  -- The receipt that a run writes fits the request that it writes.
  check_existing-audit :
      (s : Scene) (b : Binding) (req : Value)
      → check_existing c b (c.dumps (dict (audit c s b req)) ++ 10 ∷ []) (c.dumps req ++ 10 ∷ [])
        ≡ ok tt
  unfolding check_existing
  check_existing-audit s b req =
      let fs = audit c s b req in
      let stripped = ap c.sha256 (rstrip_newlines_lem (c.dumps req) (law.dumps_line req).1) in
      let fits : drifts c b (normal_fields fs) (digest c req) ≡ false = audit_fits c s b req in
      ap (λ o. checked o) (loads_line (dict fs) ∙ normal_dict fs)
      ∙ ap (λ d. reject_if (drifts c b (normal_fields fs) d) "existing-phase0-receipt-drift")
          stripped
      ∙ ap (λ x. reject_if x "existing-phase0-receipt-drift") fits
    where
      checked : Option Value → Result (Unit {0})
      checked o = or_raise o (raised value_error) >>= λ v.
          or_raise (as_dict v) (raised attribute_error) >>= λ audit.
          reject_if (drifts c b audit (c.sha256 (rstrip_newlines (c.dumps req ++ 10 ∷ []))))
            "existing-phase0-receipt-drift"

  -- the files that make the run of another scene stop at once
  settled_site :
      (t : Scene) (b : Binding) (site : Site) (receipt request : List ℕ)
      → prepare c t ≡ ok b
      → open_fence t.fixture b t.board ≡ ok tt
      → site.receipt ≡ some receipt
      → site.request ≡ some request
      → check_existing c b receipt request ≡ ok tt
      → main c t site ≡ (ok 0, site)
  unfolding main ceremony conclude
  settled_site t b site receipt request prepared fenced at_receipt at_request fits =
      ap (λ p. after_prepare c t p site) prepared
      ∙ ap (λ f. conclude t (after_fence c t b f (starting site))) fenced
      ∙ ap (λ r. conclude t (resume c t b r site.request (starting site))) at_receipt
      ∙ ap (λ q. conclude t (resume c t b (some receipt) q (starting site))) at_request
      ∙ ap (λ r. conclude t (r, starting site)) fits

  -- After a run that ended with exit status 0, and whose writes of its two files were whole, every run
  -- under the same binding, while the binding is accepted and the fence opens, ends with 0 as well and
  -- changes nothing: no second request, seal or installation. The JSON library writes one line, and reads
  -- it back with its newline.
  pub main_again :
      (s t : Scene) (b : Binding) (site left : Site)
      → ((n : ℕ) → s.request_write.takes n ≡ n)
      → ((n : ℕ) → s.receipt_write.takes n ≡ n)
      → main c s site ≡ (ok 0, left)
      → prepare c s ≡ ok b
      → prepare c t ≡ ok b
      → open_fence t.fixture b t.board ≡ ok tt
      → main c t left ≡ (ok 0, left)
  main_again s t b site left whole whole' first prepared again fenced =
      let (d, prepared', _, how) = main_zero c s site left first in
      let same : d ≡ b = ok_injective d b (sym prepared' ∙ prepared) in
      elim (subst (λ e. IsResumed c s e site left ⊎ IsFresh c s e site left) same how) [
        | inl old ↦
            settled_site t b left old.receipt old.request again fenced
              (ap (λ (u : Site). u.receipt) old.unchanged ∙ old.found.0)
              (ap (λ (u : Site). u.request) old.unchanged ∙ old.found.1) old.fits
        | inr new ↦
            settled_site t b left (c.dumps (dict (audit c s b new.req)) ++ 10 ∷ [])
              (c.dumps new.req ++ 10 ∷ []) again fenced
              (ap (λ (u : Site). u.receipt) new.is_left
                ∙ ap (λ bs. some bs) (taken_whole s.receipt_write _ whole'))
              (ap (λ (u : Site). u.request) new.is_left
                ∙ ap (λ bs. some bs) (taken_whole s.request_write _ whole))
              (check_existing-audit s b new.req)
      ]

-- ===== src/Bench/Frozen.antt =====
-- Where the cases of a manifest come from.
use hermes_keel.Base.{
  ℕ, String, ◌≡◌, refl, sym, ap, ◌⊎◌, inl, inr, true, not, ◌||◌, Option, some, List, arith,
  Bool-cases,
}
use hermes_keel.Base.Int.{pos}
use hermes_keel.Base.Result.{
  ok, raised, os_error, or_raise, reject_if, ok_injective, >>=-eq-ok, >>-eq-ok,
}
use hermes_keel.Json.{Value, num, text, dict, Fields, get}
use hermes_keel.Json.Equality.{eq}
use hermes_keel.Json.Access.{item}
use hermes_keel.Json.Lookup.{get-put}
use hermes_keel.Json.Codec.{Codec}
use hermes_keel.Bench.Gateway.{get_value}
use hermes_keel.Bench.Manifest.{is_true, read_object, merge_base, load_manifest}

-- The base of a manifest of the second version, and what is taken from it.
pub record FromBase (c : Codec) (base_bytes : Option (List ℕ)) (manifest merged : Fields)
    : Type 0 where
  pub raw : List ℕ
  pub bytes_found : base_bytes ≡ some raw
  pub base : Fields
  pub base_read : read_object c raw ≡ ok base
  pub base_frozen : is_true (get_value "frozen" base) ≡ true
  pub base_version : eq (get_value "schema_version" base) (num (pos 1)) ≡ true
  pub same_cases : get "cases" merged ≡ get "cases" base
  pub same_timeout : get "default_timeout_seconds" merged ≡ get "default_timeout_seconds" base
  pub frozen : get "frozen" merged ≡ get "frozen" manifest

item-get : (k : String) (fs : Fields) {v : Value} → item k (dict fs) ≡ ok v → get k fs ≡ some v
item-get k fs h = ground arith

module _ (c : Codec) where
  merge_base-FromBase :
      (manifest : Fields) (base_bytes : Option (List ℕ)) (merged : Fields)
      → merge_base c manifest base_bytes ≡ ok merged
      → FromBase c base_bytes manifest merged
  unfolding merge_base
  merge_base-FromBase manifest base_bytes merged h =
      let (raw, found, h1) = >>=-eq-ok (or_raise base_bytes (raised os_error)) _ h in
      let (base, read, h2) = >>=-eq-ok (read_object c raw) _ h1 in
      let (good, h3) =
        >>-eq-ok
          (reject_if
            (not (is_true (get_value "frozen" base))
              || not (eq (get_value "schema_version" base) (num (pos 1))))
            "FAIL: v2 base manifest is not frozen schema v1")
          _ h2 in
      let (cases, at_cases, h4) = >>=-eq-ok (item "cases" (dict base)) _ h3 in
      let (timeout, at_timeout, h5) = >>=-eq-ok (item "default_timeout_seconds" (dict base)) _ h4 in
      let same = ok_injective _ merged h5 in
      rw (← same) (record {
        raw = raw;
        bytes_found = ground arith;
        base = base;
        base_read = read;
        base_frozen = ground arith;
        base_version = ground arith;
        same_cases = rw (get-put, get-put) (sym (item-get "cases" base at_cases));
        same_timeout = rw get-put (sym (item-get "default_timeout_seconds" base at_timeout));
        frozen = rw (get-put, get-put) refl;
      })

  -- A manifest that loads says that it is frozen, and its bytes are returned as they were read. Either
  -- it is of the first version and is returned as it is, or its cases and its timeout are those of
  -- the base, which is frozen and of the first version.
  pub load_manifest_lem :
      (manifest_bytes : List ℕ) (base_bytes : Option (List ℕ)) (loaded : Fields) (bytes : List ℕ)
      → load_manifest c manifest_bytes base_bytes ≡ ok (loaded, bytes)
      → (manifest : Fields) × (read_object c manifest_bytes ≡ ok manifest)
        × (is_true (get_value "frozen" manifest) ≡ true)
        × (bytes ≡ manifest_bytes)
        × (((loaded ≡ manifest) × (eq (get_value "schema_version" manifest) (num (pos 1)) ≡ true))
            ⊎ FromBase c base_bytes manifest loaded)
  unfolding load_manifest
  load_manifest_lem manifest_bytes base_bytes loaded bytes h =
      let (manifest, read, h1) = >>=-eq-ok (read_object c manifest_bytes) _ h in
      let (frozen, h2) =
        >>-eq-ok
          (reject_if (not (is_true (get_value "frozen" manifest)))
            "FAIL: case manifest is not frozen")
          _ h1 in
      elim (Bool-cases (eq (get_value "schema_version" manifest) (num (pos 1)))) [
        | inl first ↦
            let same = ok_injective (manifest, manifest_bytes) (loaded, bytes) (rw first at h2) in
            (
              manifest,
              read,
              ground arith,
              sym (ap (λ x. x.1) same),
              inl (sym (ap (λ x. x.0) same), first),
            )
        | inr later ↦
            let (known, h3) =
              >>-eq-ok
                (reject_if
                  (not (eq (get_value "schema_version" manifest) (num (pos 2)))
                    || not (eq (get_value "base_manifest" manifest) (text "cases.v1.json")))
                  "FAIL: unsupported case manifest schema")
                _ (rw later at h2) in
            let (merged, made, h4) = >>=-eq-ok (merge_base c manifest base_bytes) _ h3 in
            let same = ok_injective (merged, manifest_bytes) (loaded, bytes) h4 in
            (
              manifest,
              read,
              ground arith,
              sym (ap (λ x. x.1) same),
              inr (rw (← ap (λ x. x.0) same) (merge_base-FromBase manifest base_bytes merged made)),
            )
      ]

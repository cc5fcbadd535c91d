-- ===== src/Package/Addressed.antt =====
-- The digest of the manifest and the content of a package.
use hermes_keel.Base.{
  ℕ, String, ◌≡◌, ap, sym, ◌∙◌, ◌⊎◌, inl, inr, Option, none, some, List, [], ◌∷◌, codes, arith,
}
use mathlib.Core.Path.{subst}
use hermes_keel.Base.Result.{ok, ok_injective}
use hermes_keel.Json.Codec.{Codec, Collision, same_digest}
use hermes_keel.Package.Manifest.{Rows, members, read_manifest}
use hermes_keel.Package.Verify.{Entry, Directory, Identity, Evidence, verify}
use hermes_keel.Package.Sealed.{IsSealedMember, AreSealed, IsSealed, verify-IsSealed}

abbrev pub content_at : Directory → String → Option (List ℕ)
content_at dir name = elim (dir.entries name) [ none ↦ none | some e ↦ some e.content ]

-- The two directories hold the same bytes under each of the names.
abbrev pub HoldSame : Directory → Directory → List String → Type 0
HoldSame d d' [] = Unit
HoldSame d d' (n ∷ ns) = (content_at d n ≡ content_at d' n) × HoldSame d d' ns

content_at_lem :
    (d d' : Directory) (name : String) (e e' : Entry)
    → d.entries name ≡ some e
    → d'.entries name ≡ some e'
    → e.content ≡ e'.content
    → content_at d name ≡ content_at d' name
content_at_lem d d' name e e' h h' same = ground (arith, same)

some_injective {ℓ} : {A : Type ℓ} (a b : A) → Option.some a ≡ some b → a ≡ b
some_injective a b e = cc

module _ (c : Codec) (d d' : Directory) where
  IsSealedMember-same :
      (rows : Rows) (name : String) (i i' : Identity)
      → IsSealedMember c d rows name i
      → IsSealedMember c d' rows name i'
      → (content_at d name ≡ content_at d' name) ⊎ Collision c
  IsSealedMember-same rows name i i' m m' =
      let digests = some_injective _ _ (sym m.row ∙ m'.row) in
      elim (same_digest c m.entry.content m'.entry.content digests) [
        | inl same ↦
            inl (content_at_lem d d' name m.entry m'.entry m.plain.found m'.plain.found same)
        | inr two ↦ inr two
      ]

  AreSealed-HoldSame :
      (rows : Rows) (names : List String) (found found' : List (String × Identity))
      → AreSealed c d rows names found
      → AreSealed c d' rows names found'
      → HoldSame d d' names ⊎ Collision c
  AreSealed-HoldSame rows [] found found' h h' = inl tt
  AreSealed-HoldSame rows (n ∷ ns) [] found' h h' = absurd h
  AreSealed-HoldSame rows (n ∷ ns) (p ∷ found) [] h h' = absurd h'
  AreSealed-HoldSame rows (n ∷ ns) ((a, i) ∷ found) ((b, j) ∷ found') (_, m, h) (_, m', h') =
      elim (IsSealedMember-same rows n i j m m') [
        | inr two ↦ inr two
        | inl same ↦ elim (AreSealed-HoldSame rows ns found found' h h') [
          | inr two ↦ inr two
          | inl rest ↦ inl (same, rest)
        ]
      ]

  IsSealed-HoldSame :
      (expected : String) (e e' : Evidence)
      → IsSealed c d expected e
      → IsSealed c d' expected e'
      → HoldSame d d' members ⊎ Collision c
  IsSealed-HoldSame expected e e' s s' =
      let digests = ap codes (s.manifest_hash ∙ sym s'.manifest_hash) in
      elim (same_digest c s.manifest.content s'.manifest.content digests) [
        | inr two ↦ inr two
        | inl same ↦
            let read = sym s.rows_read ∙ ap read_manifest same ∙ s'.rows_read in
            AreSealed-HoldSame s.rows members e.identities e'.identities s.sealed (
              subst (λ r. AreSealed c d' r members e'.identities)
                (sym (ok_injective s.rows s'.rows read)) s'.sealed)
      ]

  -- If `verify` accepts two directories, whoever owns them, for one digest of the manifest, then they
  -- hold the same bytes under the name of every member, or the digest function has a collision, which
  -- is given.
  pub verify-HoldSame :
      (expected : String) (uid uid' : Option ℕ) (e e' : Evidence)
      → verify c (some d) expected uid ≡ ok e
      → verify c (some d') expected uid' ≡ ok e'
      → HoldSame d d' members ⊎ Collision c
  verify-HoldSame expected uid uid' e e' h h' =
      let (a, at_a, _, s) = verify-IsSealed c (some d) expected uid e h in
      let (b, at_b, _, s') = verify-IsSealed c (some d') expected uid' e' h' in
      IsSealed-HoldSame expected e e' (rw (some_injective d a at_a) s)
        (rw (some_injective d' b at_b) s')

-- ===== src/Package/Written.antt =====
-- The manifest that `build` writes and the rows that are read from it.
use mathlib.Core.List.{append_assoc, append-nil}
use hermes_keel.Base.{
  ℕ, String, ◌≡◌, refl, ap, ◌∙◌, Bool, true, false, not, ◌&&◌, List, [], ◌∷◌, ◌++◌, arith, ltb,
  ◌==◌, length, all, codes,
}
use hermes_keel.Base.Result.{ok}
use hermes_keel.Json.Codec.{Codec}
use hermes_keel.Package.Manifest.{
  members, is_member, is_line_end, ascii_lines, partition, Rows, has_row, read_row, read_rows,
  read_manifest,
}
use hermes_keel.Package.Build.{line_of, manifest_text}

-- a character of a digest: ASCII, neither a space nor the end of a line
abbrev pub is_plain : ℕ → Bool
is_plain b = ltb b 128 && not (b == 32) && not (b == 13) && not (is_line_end b)

-- a character of a name: as before, but a space is one
abbrev pub is_inline : ℕ → Bool
is_inline b = ltb b 128 && not (b == 13) && not (is_line_end b)

-- Digests are 64 plain characters.
pub record IsHexDigest (c : Codec) : Type 0 where
  pub sha256_length : (bs : List ℕ) → length (codes (c.sha256 bs)) ≡ 64
  pub sha256_plain : (bs : List ℕ) → all is_plain (codes (c.sha256 bs)) ≡ true

ascii_lines-line :
    (line rest : List ℕ)
    → all is_inline line ≡ true
    → ascii_lines false (line ++ 10 ∷ rest) ≡ line ∷ ascii_lines false rest
unfolding ascii_lines is_line_end
ascii_lines-line [] rest h = refl
ascii_lines-line (b ∷ bs) rest h = ground (arith, ascii_lines-line bs rest)

partition-append :
    (digest name : List ℕ)
    → all is_plain digest ≡ true
    → partition (digest ++ (32 ∷ 32 ∷ name)) ≡ (digest, true, name)
unfolding partition is_line_end
partition-append [] name h = refl
partition-append (d ∷ []) name h = ground arith
partition-append (d ∷ e ∷ ds) name h = ground (arith, partition-append (e ∷ ds) name)

all-append {ℓ} :
    {A : Type ℓ} (p : A → Bool) (xs ys : List A)
    → all p xs ≡ true
    → all p ys ≡ true
    → all p (xs ++ ys) ≡ true
all-append p [] ys h k = k
all-append p (x ∷ xs) ys h k = ground (arith, all-append p xs ys)

all_weaken {ℓ} :
    {A : Type ℓ} (p q : A → Bool) (xs : List A)
    → ((x : A) → p x ≡ true → q x ≡ true)
    → all p xs ≡ true
    → all q xs ≡ true
all_weaken p q [] weaker h = refl
all_weaken p q (x ∷ xs) weaker h = ground (arith, all_weaken p q xs weaker, weaker x)

is_plain-is_inline : (b : ℕ) → is_plain b ≡ true → is_inline b ≡ true
is_plain-is_inline b h = ground arith

is_inline-ascii : (b : ℕ) → is_inline b ≡ true → ltb b 128 ≡ true
is_inline-ascii b h = ground arith

read_row_lem :
    (rows : Rows) (digest name : List ℕ)
    → all is_plain digest ≡ true
    → length digest ≡ 64
    → has_row name rows ≡ false
    → is_member name ≡ true
    → read_row rows (digest ++ (32 ∷ 32 ∷ name)) ≡ ok (rows ++ (name, digest) ∷ [])
unfolding read_row
read_row_lem rows digest name plain long fresh known =
    rw (partition-append digest name plain) (ground arith)

-- A name that a manifest can hold.
abbrev pub AreInline : List String → Type 0
AreInline [] = Unit
AreInline (n ∷ ns) = (all is_inline (codes n) ≡ true) × AreInline ns

-- None of the names has a row, and each is a member's, while the rows are read.
abbrev pub AreFresh : (String → List ℕ) → Rows → List String → Type 0
AreFresh digest rows [] = Unit
AreFresh digest rows (n ∷ ns) =
    (has_row (codes n) rows ≡ false)
    × (is_member (codes n) ≡ true)
    × AreFresh digest (rows ++ (codes n, digest n) ∷ []) ns

-- the rows of the names
abbrev pub rows_of : (String → List ℕ) → List String → Rows
rows_of digest [] = []
rows_of digest (n ∷ ns) = (codes n, digest n) ∷ rows_of digest ns

module _ (c : Codec) (law : IsHexDigest c) (content : String → List ℕ) where
  abbrev pub digest_of : String → List ℕ
  digest_of n = codes (c.sha256 (content n))

  abbrev lines_of : List String → List (List ℕ)
  lines_of [] = []
  lines_of (n ∷ ns) = (digest_of n ++ (32 ∷ 32 ∷ codes n)) ∷ lines_of ns

  line_inline :
      (n : String)
      → all is_inline (codes n) ≡ true
      → all is_inline (digest_of n ++ (32 ∷ 32 ∷ codes n)) ≡ true
  unfolding is_line_end
  line_inline n h =
      all-append is_inline (digest_of n) (32 ∷ 32 ∷ codes n)
        (all_weaken is_plain is_inline (digest_of n) is_plain-is_inline
          (law.sha256_plain (content n)))
        h

  line_of_lem :
      (n : String) (rest : List ℕ)
      → line_of (digest_of n) (codes n) ++ rest ≡ (digest_of n ++ (32 ∷ 32 ∷ codes n)) ++ 10 ∷ rest
  line_of_lem n rest = simp (append_assoc)

  ascii_lines-manifest_text :
      (names : List String)
      → AreInline names
      → ascii_lines false (manifest_text c content names) ≡ lines_of names
  unfolding ascii_lines manifest_text
  ascii_lines-manifest_text [] h = refl
  ascii_lines-manifest_text (n ∷ ns) (one, more) =
      ap (ascii_lines false) (line_of_lem n (manifest_text c content ns))
      ∙ ascii_lines-line (digest_of n ++ (32 ∷ 32 ∷ codes n)) (manifest_text c content ns)
          (line_inline n one)
      ∙ ap (λ ls. (digest_of n ++ (32 ∷ 32 ∷ codes n)) ∷ ls) (ascii_lines-manifest_text ns more)

  manifest_text-ascii :
      (names : List String)
      → AreInline names
      → all (λ b. ltb b 128) (manifest_text c content names) ≡ true
  unfolding manifest_text
  manifest_text-ascii [] h = refl
  manifest_text-ascii (n ∷ ns) (one, more) = rw (line_of_lem n (manifest_text c content ns)) (
      all-append (λ b. ltb b 128) (digest_of n ++ (32 ∷ 32 ∷ codes n))
        (10 ∷ manifest_text c content ns)
        (all_weaken is_inline (λ b. ltb b 128) (digest_of n ++ (32 ∷ 32 ∷ codes n)) is_inline-ascii
          (line_inline n one))
        (manifest_text-ascii ns more))

  read_rows-lines_of :
      (names : List String) (rows : Rows)
      → AreFresh digest_of rows names
      → read_rows rows (lines_of names) ≡ ok (rows ++ rows_of digest_of names)
  unfolding read_rows
  read_rows-lines_of [] rows h = rw append-nil refl
  read_rows-lines_of (n ∷ ns) rows (fresh, known, later) =
      rw
        (read_row_lem rows (digest_of n) (codes n) (law.sha256_plain (content n))
          (law.sha256_length (content n)) fresh known)
        (read_rows-lines_of ns (rows ++ (codes n, digest_of n) ∷ []) later
          ∙ ap ok (append_assoc rows ((codes n, digest_of n) ∷ []) (rows_of digest_of ns)))

  members-AreInline : AreInline members
  unfolding is_line_end
  members-AreInline = (refl, (refl, (refl, (refl, (refl, (refl, (refl, tt)))))))

  members-AreFresh : AreFresh digest_of [] members
  members-AreFresh = (
    refl,
    refl,
    (refl, refl, (refl, refl, (refl, refl, (refl, refl, (refl, refl, (refl, refl, tt)))))),
  )

  -- The manifest that `build` writes of the members is read as one row for each of them, its name and
  -- the digest of its content, in the order of `MEMBERS`.
  pub read_manifest-manifest_text :
      read_manifest (manifest_text c content members) ≡ ok (rows_of digest_of members)
  unfolding read_manifest
  read_manifest-manifest_text =
      rw
        (
          manifest_text-ascii members members-AreInline,
          ascii_lines-manifest_text members members-AreInline,
          read_rows-lines_of members [] members-AreFresh,
        )
        refl

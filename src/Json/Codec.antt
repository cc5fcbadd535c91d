-- ===== src/Json/Codec.antt =====
-- The libraries that the program calls on bytes: `json`, `hashlib` and `hmac`.
use hermes_keel.Base.{
  ℕ, String, ◌≡◌, ◌≢◌, ◌⊎◌, inl, inr, true, not, ◌||◌, Option, some, List, [], ◌==◌, all, is_ascii,
  codes, bytes_eq, bytes_eq_iff, Bool-cases, arith,
}
use hermes_keel.Json.{Value}
use hermes_keel.Json.Normal.{normal}

-- a line without its end: not empty, no `\n` and no `\r`
abbrev pub IsLine : List ℕ → Type 0
IsLine bs = (bs ≢ []) × (all (λ b. not (b == 10 || b == 13)) bs ≡ true)

-- `dumps` is `canonical`: `json.dumps(…, sort_keys=True, separators=(",", ":"), ensure_ascii=True)`
-- and `.encode()`. `loads` is `json.loads`, with `none` for its exception. `str` is Python's `str(v)`
-- of a value that is no text. Digests are in hexadecimal, but for `hmac_digest`, which is bytes.
pub record Codec : Type 0 where
  pub dumps : Value → List ℕ
  pub loads : List ℕ → Option Value
  pub str : Value → String
  pub encode : String → List ℕ
  pub sha256 : List ℕ → String
  pub hmac : List ℕ → List ℕ → String
  pub hmac_digest : List ℕ → List ℕ → List ℕ

-- What the program relies on. Each float has one `float m k`, which is read back from what is
-- written; a text of `dumps` is a line of its own; digests are ASCII.
pub record IsLawful (c : Codec) : Type 0 where
  pub loads-dumps : (v : Value) → c.loads (c.dumps v) ≡ some (normal v)
  pub dumps-normal : (v : Value) → c.dumps (normal v) ≡ c.dumps v
  pub dumps_line : (v : Value) → IsLine (c.dumps v)
  pub sha256_ascii : (bs : List ℕ) → is_ascii (c.sha256 bs) ≡ true
  pub hmac_ascii : (key bs : List ℕ) → is_ascii (c.hmac key bs) ≡ true

-- The same of one value only.
pub record ReadsBack (c : Codec) (v : Value) : Type 0 where
  pub loads-dumps : c.loads (c.dumps v) ≡ some (normal v)
  pub dumps_line : IsLine (c.dumps v)

-- Two byte strings with one digest, as it is spelled out.
pub record Collision (c : Codec) : Type 0 where
  pub left : List ℕ
  pub right : List ℕ
  pub differ : left ≢ right
  pub same : codes (c.sha256 left) ≡ codes (c.sha256 right)

-- Equal digests are those of equal bytes, or there is a collision.
pub same_digest :
    (c : Codec) (a b : List ℕ) → codes (c.sha256 a) ≡ codes (c.sha256 b) → (a ≡ b) ⊎ Collision c
same_digest c a b h = elim (Bool-cases (bytes_eq a b)) [
  | inl same ↦ inl ((bytes_eq_iff a b).0 same)
  | inr other ↦
      inr (record { left = a; right = b; differ = ground (arith, bytes_eq_iff a b); same = h })
]

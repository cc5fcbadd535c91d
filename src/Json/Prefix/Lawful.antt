-- ===== src/Json/Prefix/Lawful.antt =====
-- The codec of the prefix notation, whose digests are constant, and its laws.
use hermes_keel.Base.{
  ℕ, String, ◌≡◌, ◌≢◌, refl, sym, ap, ◌∙◌, Option, none, some, List, [], ◌∷◌, ◌++◌, arith, length,
  codes,
}
use hermes_keel.Json.{Value, null, bool, num, float, text, arr, dict}
use hermes_keel.Json.Normal.{normal}
use hermes_keel.Json.Sorted.{normal_idem}
use hermes_keel.Json.Codec.{Codec, IsLawful}
use hermes_keel.Json.Prefix.{write, read}
use hermes_keel.Json.Prefix.Laws.{read-write, length-write, write-in_line, write-append}

-- a value with nothing behind it but the end of its line
whole : Option (Value × List ℕ) → Option Value
whole (some (v, [])) = some v
whole (some (v, b ∷ [])) = some v
whole (some (v, b ∷ d ∷ bs)) = none
whole none = none

abbrev pub digits : String
digits = "ab27361e1e4c70a5aed215cce0cf6033bbf61650a0eb7e4b63cf01c76a06353a"

unfoldable pub prefix_dumps : Value → List ℕ
unfolding write
prefix_dumps v = write (normal v) []

unfoldable pub prefix_loads : List ℕ → Option Value
unfolding read whole
prefix_loads bs = whole (read (length bs) bs)

abbrev pub prefix_codec : Codec
prefix_codec = record {
  dumps = prefix_dumps;
  loads = prefix_loads;
  str = λ v. "0";
  encode = codes;
  sha256 = λ bs. digits;
  hmac = λ key bs. digits;
  hmac_digest = λ key bs. codes digits;
}

reads_back :
    (v : Value) (rest : List ℕ)
    → whole (some (v, rest)) ≡ some v
    → prefix_loads (write v rest) ≡ some v
unfolding prefix_loads
reads_back v rest h =
    ap whole (read-write v (length (write v rest)) rest (omega (arith, length-write v rest))) ∙ h

pub prefix_loads_line :
    (v : Value) → prefix_codec.loads (prefix_codec.dumps v ++ 10 ∷ []) ≡ some (normal v)
unfolding prefix_dumps whole
prefix_loads_line v =
    ap prefix_loads (sym (write-append (normal v) [] (10 ∷ [])))
    ∙ reads_back (normal v) (10 ∷ []) refl

write-ne-nil : (v : Value) (rest : List ℕ) → write v rest ≢ []
unfolding write
write-ne-nil null rest h = cc
write-ne-nil (bool b) rest h = cc
write-ne-nil (num n) rest h = cc
write-ne-nil (float m k) rest h = cc
write-ne-nil (text s) rest h = cc
write-ne-nil (arr vs) rest h = cc
write-ne-nil (dict fs) rest h = cc

pub prefix_codec-IsLawful : IsLawful prefix_codec
unfolding prefix_dumps whole
prefix_codec-IsLawful = record {
  loads-dumps = λ v. reads_back (normal v) [] refl;
  dumps-normal = λ v. ap (λ w. write w []) (normal_idem v);
  dumps_line = λ v. (write-ne-nil (normal v) [], write-in_line (normal v) [] refl);
  sha256_ascii = λ bs. refl;
  hmac_ascii = λ key bs. refl;
}

-- ===== src/Json/Prefix.antt =====
-- A lawful codec: values in prefix notation, one number for each sign. It is no model of the JSON
-- library; it shows that what the program relies on of that library can hold.
pub mod Laws
pub mod Lawful
use Prim.Native.Nat.{compare, Ordering}
use Prim.Native.Char.{Char, char, code, nul, IsLt, IsScalar}
use Prim.Native.String
use hermes_keel.Base.{
  ℕ, zero, suc, ◌+◌, ◌-◌, ◌≤◌, String, ◌≡◌, ◌≢◌, refl, sym, ap, ◌∙◌, Bool, true, false, not, ◌||◌,
  ◌&&◌, Option, none, some, List, [], ◌∷◌, ◌++◌, arith, ◌==◌, if◌then◌else◌, length, all, is_ascii,
}
use hermes_keel.Base.Int.{ℤ, pos, negsuc}
use hermes_keel.Json.{
  Value, null, bool, num, float, text, arr, dict, Items, nil, cons, Fields, end, field,
}
use hermes_keel.Json.Normal.{normal}
use hermes_keel.Json.Sorted.{normal_idem}
use hermes_keel.Json.Codec.{Codec, IsLine, IsLawful}

-- These have the clauses of the two helpers of `IsScalar`, which are private, and unfold to the same.
abbrev BothLt : Ordering → Ordering → Type 0
BothLt Ordering.lt d = IsLt d
BothLt Ordering.eq _ = ⊥
BothLt Ordering.gt _ = ⊥

abbrev Scalar : Ordering → Ordering → Ordering → Type 0
Scalar Ordering.lt _ _ = Unit
Scalar Ordering.eq b d = BothLt b d
Scalar Ordering.gt b d = BothLt b d

scalar_of : (a b d : Ordering) → Option (Scalar a b d)
scalar_of Ordering.lt b d = some tt
scalar_of Ordering.eq Ordering.lt Ordering.lt = some tt
scalar_of Ordering.gt Ordering.lt Ordering.lt = some tt
scalar_of Ordering.eq Ordering.lt Ordering.eq = none
scalar_of Ordering.eq Ordering.lt Ordering.gt = none
scalar_of Ordering.gt Ordering.lt Ordering.eq = none
scalar_of Ordering.gt Ordering.lt Ordering.gt = none
scalar_of Ordering.eq Ordering.eq d = none
scalar_of Ordering.eq Ordering.gt d = none
scalar_of Ordering.gt Ordering.eq d = none
scalar_of Ordering.gt Ordering.gt d = none

scalar_of_lem : (a b d : Ordering) (p : Scalar a b d) → scalar_of a b d ≡ some p
unfolding scalar_of
scalar_of_lem Ordering.lt b d p = refl
scalar_of_lem Ordering.eq Ordering.lt Ordering.lt p = refl
scalar_of_lem Ordering.gt Ordering.lt Ordering.lt p = refl
scalar_of_lem Ordering.eq Ordering.lt Ordering.eq p = absurd p
scalar_of_lem Ordering.eq Ordering.lt Ordering.gt p = absurd p
scalar_of_lem Ordering.gt Ordering.lt Ordering.eq p = absurd p
scalar_of_lem Ordering.gt Ordering.lt Ordering.gt p = absurd p
scalar_of_lem Ordering.eq Ordering.eq d p = absurd p
scalar_of_lem Ordering.eq Ordering.gt d p = absurd p
scalar_of_lem Ordering.gt Ordering.eq d p = absurd p
scalar_of_lem Ordering.gt Ordering.gt d p = absurd p

char_if : (n : ℕ) → Option (IsScalar n) → Char
char_if n none = nul
char_if n (some p) = char n p

-- the character of a number, and U+0000 where there is none
char_of : ℕ → Char
unfolding scalar_of char_if
char_of n = char_if n (scalar_of (compare n 55296) (compare 57343 n) (compare n 1114112))

char_of-code : (d : Char) → char_of (code d) ≡ d
unfolding char_of
char_of-code (char n p) =
    ap (char_if n) (scalar_of_lem (compare n 55296) (compare 57343 n) (compare n 1114112) p)

-- Every sign is 14 or more, so that none ends a line.
write_text : String → List ℕ → List ℕ
write_text String.[] rest = 14 ∷ rest
write_text (String.◌∷◌ d s) rest = 15 ∷ (code d + 14) ∷ write_text s rest

read_text : List ℕ → String × List ℕ
unfolding char_of
read_text [] = ("", [])
read_text (t ∷ []) = ("", [])
read_text (t ∷ n ∷ bs) =
    let (s, rest) = read_text bs in
    if t == 14 then ("", n ∷ bs) else (String.◌∷◌ (char_of (n - 14)) s, rest)

read_text-write_text : (s : String) (rest : List ℕ) → read_text (write_text s rest) ≡ (s, rest)
unfolding read_text write_text
read_text-write_text String.[] [] = refl
read_text-write_text String.[] (b ∷ bs) = refl
read_text-write_text (String.◌∷◌ d s) rest =
    let same : (code d + 14) - 14 ≡ code d = omega arith in
    rw (read_text-write_text s rest, same, char_of-code d) refl

write_int : ℤ → List ℕ → List ℕ
write_int (pos n) rest = 14 ∷ (n + 14) ∷ rest
write_int (negsuc n) rest = 15 ∷ (n + 14) ∷ rest

read_int : List ℕ → ℤ × List ℕ
read_int (t ∷ n ∷ bs) = (if t == 14 then pos (n - 14) else negsuc (n - 14), bs)
read_int (t ∷ []) = (pos 0, [])
read_int [] = (pos 0, [])

read_int-write_int : (z : ℤ) (rest : List ℕ) → read_int (write_int z rest) ≡ (z, rest)
unfolding read_int write_int
read_int-write_int (pos n) rest = ap (λ k. (pos k, rest)) (n_back n)
  where
    n_back : (n : ℕ) → (n + 14) - 14 ≡ n
    n_back n = omega arith
read_int-write_int (negsuc n) rest = ap (λ k. (negsuc k, rest)) (n_back n)
  where
    n_back : (n : ℕ) → (n + 14) - 14 ≡ n
    n_back n = omega arith

mutual
  unfolding write_text write_int

  pub write : Value → List ℕ → List ℕ
  write null rest = 14 ∷ rest
  write (bool b) rest = 15 ∷ (if b then 14 else 15) ∷ rest
  write (num n) rest = 16 ∷ write_int n rest
  write (float m k) rest = 17 ∷ (k + 14) ∷ write_int m rest
  write (text s) rest = 18 ∷ write_text s rest
  write (arr vs) rest = 19 ∷ write_items vs rest
  write (dict fs) rest = 20 ∷ write_fields fs rest

  write_items : Items → List ℕ → List ℕ
  write_items nil rest = 14 ∷ rest
  write_items (cons v vs) rest = 15 ∷ write v (write_items vs rest)

  write_fields : Fields → List ℕ → List ℕ
  write_fields end rest = 14 ∷ rest
  write_fields (field k v fs) rest = 15 ∷ write_text k (write v (write_fields fs rest))

data Sign : Type 0 where
  is_null is_bool is_num is_float is_text is_arr is_dict : Sign

sign_of : ℕ → Sign
sign_of t =
    if t == 14
    then is_null
    else if t == 15
    then is_bool
    else if t == 16
    then is_num
    else if t == 17
    then is_float
    else if t == 18
    then is_text
    else if t == 19
    then is_arr
    else is_dict

-- a result of reading, passed on
next :
    {A B : Type 0} → Option (A × List ℕ) → (A → List ℕ → Option (B × List ℕ)) → Option (B × List ℕ)
next none f = none
next (some (a, bs)) f = f a bs

read_bool : List ℕ → Option (Value × List ℕ)
read_bool [] = none
read_bool (b ∷ bs) = some (bool (b == 14), bs)

read_float : List ℕ → Option (Value × List ℕ)
unfolding read_int
read_float [] = none
read_float (k ∷ bs) = let (m, rest) = read_int bs in some (float m (k - 14), rest)

-- Each fuel is more than the depth of the value.
mutual
  unfolding read_text read_int sign_of next read_bool read_float

  pub read : ℕ → List ℕ → Option (Value × List ℕ)
  read zero bs = none
  read (suc f) [] = none
  read (suc f) (t ∷ bs) = elim (sign_of t) [
    | is_null ↦ some (null, bs)
    | is_bool ↦ read_bool bs
    | is_num ↦ let (n, rest) = read_int bs in some (num n, rest)
    | is_float ↦ read_float bs
    | is_text ↦ let (s, rest) = read_text bs in some (text s, rest)
    | is_arr ↦ next (read_items f bs) (λ vs rest. some (arr vs, rest))
    | is_dict ↦ next (read_fields f bs) (λ fs rest. some (dict fs, rest))
  ]

  read_items : ℕ → List ℕ → Option (Items × List ℕ)
  read_items zero bs = none
  read_items (suc f) [] = none
  read_items (suc f) (t ∷ bs) = elim (sign_of t) [
    | is_null ↦ some (nil, bs)
    | _ ↦ next (read f bs) (λ v rest. next (read_items f rest) (λ vs left. some (cons v vs, left)))
  ]

  read_fields : ℕ → List ℕ → Option (Fields × List ℕ)
  read_fields zero bs = none
  read_fields (suc f) [] = none
  read_fields (suc f) (t ∷ bs) = elim (sign_of t) [
    | is_null ↦ some (end, bs)
    | _ ↦
        let (k, after_key) = read_text bs in
        next (read f after_key)
          (λ v rest. next (read_fields f rest) (λ fs left. some (field k v fs, left)))
  ]

mutual
  pub depth : Value → ℕ
  depth (arr vs) = suc (depth_items vs)
  depth (dict fs) = suc (depth_fields fs)
  depth _ = 1

  depth_items : Items → ℕ
  depth_items nil = 1
  depth_items (cons v vs) = suc (depth v + depth_items vs)

  depth_fields : Fields → ℕ
  depth_fields end = 1
  depth_fields (field k v fs) = suc (depth v + depth_fields fs)

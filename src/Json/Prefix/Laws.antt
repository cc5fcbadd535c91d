-- ===== src/Json/Prefix/Laws.antt =====
-- Reading the prefix notation back.
use hermes_keel.Base.{
  ℕ, zero, suc, ◌+◌, ◌-◌, ◌≤◌, String, ◌≡◌, refl, ap, ◌∙◌, Bool, true, false, not, ◌||◌, some, List,
  ◌∷◌, ◌++◌, arith, ◌==◌, if◌then◌else◌, length, all,
}
use Prim.Native.Char.{code}
use hermes_keel.Base.Int.{ℤ, pos, negsuc}
use hermes_keel.Json.{
  Value, null, bool, num, float, text, arr, dict, Items, nil, cons, Fields, end, field,
}
use hermes_keel.Json.Prefix.{
  write_text, read_text-write_text, write_int, read_int-write_int, write, write_items, write_fields,
  sign_of, next, read_bool, read_float, read, read_items, read_fields, depth, depth_items,
  depth_fields,
}

read_bool-bool :
    (b : Bool) (rest : List ℕ) → read_bool ((if b then 14 else 15) ∷ rest) ≡ some (bool b, rest)
unfolding read_bool
read_bool-bool true rest = refl
read_bool-bool false rest = refl

read_float-float :
    (m : ℤ) (k : ℕ) (rest : List ℕ)
    → read_float ((k + 14) ∷ write_int m rest) ≡ some (float m k, rest)
unfolding read_float
read_float-float m k rest =
    let same : (k + 14) - 14 ≡ k = omega arith in rw (read_int-write_int m rest, same) refl

depth_pos : (v : Value) → 1 ≤ depth v
unfolding depth
depth_pos (arr vs) = omega arith
depth_pos (dict fs) = omega arith
depth_pos null = omega arith
depth_pos (bool b) = omega arith
depth_pos (num n) = omega arith
depth_pos (float m k) = omega arith
depth_pos (text s) = omega arith

depth_items_pos : (vs : Items) → 1 ≤ depth_items vs
unfolding depth
depth_items_pos nil = omega arith
depth_items_pos (cons v vs) = omega arith

depth_fields_pos : (fs : Fields) → 1 ≤ depth_fields fs
unfolding depth
depth_fields_pos end = omega arith
depth_fields_pos (field k v fs) = omega arith

mutual
  unfolding write read sign_of next depth

  pub read-write :
      (v : Value) (f : ℕ) (rest : List ℕ) → depth v ≤ f → read f (write v rest) ≡ some (v, rest)
  read-write v zero rest h = absurd (omega (arith, h, depth_pos v))
  read-write null (suc f) rest h = refl
  read-write (bool b) (suc f) rest h = read_bool-bool b rest
  read-write (num n) (suc f) rest h = rw (read_int-write_int n rest) refl
  read-write (float m k) (suc f) rest h = read_float-float m k rest
  read-write (text s) (suc f) rest h = rw (read_text-write_text s rest) refl
  read-write (arr vs) (suc f) rest h =
      ap (λ r. next r (λ vs left. some (arr vs, left)))
        (read_items-write_items vs f rest (omega (arith, h)))
  read-write (dict fs) (suc f) rest h =
      ap (λ r. next r (λ fs left. some (dict fs, left)))
        (read_fields-write_fields fs f rest (omega (arith, h)))

  read_items-write_items :
      (vs : Items) (f : ℕ) (rest : List ℕ)
      → depth_items vs ≤ f
      → read_items f (write_items vs rest) ≡ some (vs, rest)
  read_items-write_items vs zero rest h = absurd (omega (arith, h, depth_items_pos vs))
  read_items-write_items nil (suc f) rest h = refl
  read_items-write_items (cons v vs) (suc f) rest h =
      ap (λ r. next r (λ v left. next (read_items f left) (λ vs left. some (cons v vs, left))))
        (read-write v f (write_items vs rest) (omega (arith, h)))
      ∙ ap (λ r. next r (λ vs left. some (cons v vs, left)))
          (read_items-write_items vs f rest (omega (arith, h)))

  read_fields-write_fields :
      (fs : Fields) (f : ℕ) (rest : List ℕ)
      → depth_fields fs ≤ f
      → read_fields f (write_fields fs rest) ≡ some (fs, rest)
  read_fields-write_fields fs zero rest h = absurd (omega (arith, h, depth_fields_pos fs))
  read_fields-write_fields end (suc f) rest h = refl
  read_fields-write_fields (field k v fs) (suc f) rest h =
      rw (read_text-write_text k (write v (write_fields fs rest))) (
        ap
          (λ r. next r (λ v left. next (read_fields f left) (λ fs left. some (field k v fs, left))))
          (read-write v f (write_fields fs rest) (omega (arith, h)))
        ∙ ap (λ r. next r (λ fs left. some (field k v fs, left)))
            (read_fields-write_fields fs f rest (omega (arith, h))))

length-write_text : (s : String) (rest : List ℕ) → length rest ≤ length (write_text s rest)
unfolding write_text
length-write_text String.[] rest = omega arith
length-write_text (String.◌∷◌ d s) rest = omega (arith, length-write_text s rest)

length-write_int : (n : ℤ) (rest : List ℕ) → length rest ≤ length (write_int n rest)
unfolding write_int
length-write_int (pos n) rest = omega arith
length-write_int (negsuc n) rest = omega arith

-- What is written is longer than the value is deep.
mutual
  unfolding write depth

  pub length-write : (v : Value) (rest : List ℕ) → depth v + length rest ≤ length (write v rest)
  length-write null rest = omega arith
  length-write (bool b) rest = omega arith
  length-write (num n) rest = omega (arith, length-write_int n rest)
  length-write (float m k) rest = omega (arith, length-write_int m rest)
  length-write (text s) rest = omega (arith, length-write_text s rest)
  length-write (arr vs) rest = omega (arith, length-write_items vs rest)
  length-write (dict fs) rest = omega (arith, length-write_fields fs rest)

  length-write_items :
      (vs : Items) (rest : List ℕ) → depth_items vs + length rest ≤ length (write_items vs rest)
  length-write_items nil rest = omega arith
  length-write_items (cons v vs) rest =
      omega (arith, length-write v (write_items vs rest), length-write_items vs rest)

  length-write_fields :
      (fs : Fields) (rest : List ℕ) → depth_fields fs + length rest ≤ length (write_fields fs rest)
  length-write_fields end rest = omega arith
  length-write_fields (field k v fs) rest = omega (
    arith,
    length-write_text k (write v (write_fields fs rest)),
    length-write v (write_fields fs rest),
    length-write_fields fs rest,
  )

abbrev pub in_line : ℕ → Bool
in_line b = not (b == 10 || b == 13)

write_text-in_line :
    (s : String) (rest : List ℕ) → all in_line rest ≡ true → all in_line (write_text s rest) ≡ true
unfolding write_text
write_text-in_line String.[] rest h = ground arith
write_text-in_line (String.◌∷◌ d s) rest h = ground (arith, write_text-in_line s rest h)

write_int-in_line :
    (n : ℤ) (rest : List ℕ) → all in_line rest ≡ true → all in_line (write_int n rest) ≡ true
unfolding write_int
write_int-in_line (pos n) rest h = ground arith
write_int-in_line (negsuc n) rest h = ground arith

mutual
  unfolding write

  pub write-in_line :
      (v : Value) (rest : List ℕ) → all in_line rest ≡ true → all in_line (write v rest) ≡ true
  write-in_line null rest h = h
  write-in_line (bool true) rest h = h
  write-in_line (bool false) rest h = h
  write-in_line (num n) rest h = write_int-in_line n rest h
  write-in_line (float m k) rest h = ground (arith, write_int-in_line m rest h)
  write-in_line (text s) rest h = write_text-in_line s rest h
  write-in_line (arr vs) rest h = write_items-in_line vs rest h
  write-in_line (dict fs) rest h = write_fields-in_line fs rest h

  write_items-in_line :
      (vs : Items) (rest : List ℕ)
      → all in_line rest ≡ true
      → all in_line (write_items vs rest) ≡ true
  write_items-in_line nil rest h = h
  write_items-in_line (cons v vs) rest h =
      write-in_line v (write_items vs rest) (write_items-in_line vs rest h)

  write_fields-in_line :
      (fs : Fields) (rest : List ℕ)
      → all in_line rest ≡ true
      → all in_line (write_fields fs rest) ≡ true
  write_fields-in_line end rest h = h
  write_fields-in_line (field k v fs) rest h =
      write_text-in_line k (write v (write_fields fs rest))
        (write-in_line v (write_fields fs rest) (write_fields-in_line fs rest h))

write_text-append :
    (s : String) (rest more : List ℕ) → write_text s (rest ++ more) ≡ write_text s rest ++ more
unfolding write_text
write_text-append String.[] rest more = refl
write_text-append (String.◌∷◌ d s) rest more =
    ap (λ r. 15 ∷ (code d + 14) ∷ r) (write_text-append s rest more)

write_int-append :
    (n : ℤ) (rest more : List ℕ) → write_int n (rest ++ more) ≡ write_int n rest ++ more
unfolding write_int
write_int-append (pos n) rest more = refl
write_int-append (negsuc n) rest more = refl

mutual
  unfolding write

  pub write-append :
      (v : Value) (rest more : List ℕ) → write v (rest ++ more) ≡ write v rest ++ more
  write-append null rest more = refl
  write-append (bool b) rest more = refl
  write-append (num n) rest more = ap (λ r. 16 ∷ r) (write_int-append n rest more)
  write-append (float m k) rest more = ap (λ r. 17 ∷ (k + 14) ∷ r) (write_int-append m rest more)
  write-append (text s) rest more = ap (λ r. 18 ∷ r) (write_text-append s rest more)
  write-append (arr vs) rest more = ap (λ r. 19 ∷ r) (write_items-append vs rest more)
  write-append (dict fs) rest more = ap (λ r. 20 ∷ r) (write_fields-append fs rest more)

  write_items-append :
      (vs : Items) (rest more : List ℕ)
      → write_items vs (rest ++ more) ≡ write_items vs rest ++ more
  write_items-append nil rest more = refl
  write_items-append (cons v vs) rest more =
      ap (λ r. 15 ∷ r)
        (ap (write v) (write_items-append vs rest more) ∙ write-append v (write_items vs rest) more)

  write_fields-append :
      (fs : Fields) (rest more : List ℕ)
      → write_fields fs (rest ++ more) ≡ write_fields fs rest ++ more
  write_fields-append end rest more = refl
  write_fields-append (field k v fs) rest more =
      ap (λ r. 15 ∷ r)
        (ap (λ r. write_text k (write v r)) (write_fields-append fs rest more)
          ∙ ap (write_text k) (write-append v (write_fields fs rest) more)
          ∙ write_text-append k (write v (write_fields fs rest)) more)

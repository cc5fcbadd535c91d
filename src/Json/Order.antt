-- ===== src/Json/Order.antt =====
-- The order in which `sort_keys=True` puts the keys of a dict: Python compares texts by code points.
use Prim.Native.Char.{code}
use text.Mathlib.TextEquality.{Char-path}
use hermes_keel.Base.{
  ℕ, String, ◌≡◌, refl, Bool, true, false, ◌&&◌, ◌||◌, List, [], ◌∷◌, arith, ltb, ◌==◌, codes,
}

codes_ltb : List ℕ → List ℕ → Bool
codes_ltb [] [] = false
codes_ltb [] (y ∷ ys) = true
codes_ltb (x ∷ xs) [] = false
codes_ltb (x ∷ xs) (y ∷ ys) = ltb x y || (x == y && codes_ltb xs ys)

unfoldable pub key_ltb : String → String → Bool
unfolding codes_ltb
key_ltb s t = codes_ltb (codes s) (codes t)

codes_ltb_irrefl : (xs : List ℕ) → codes_ltb xs xs ≡ false
unfolding codes_ltb
codes_ltb_irrefl [] = refl
codes_ltb_irrefl (x ∷ xs) = ground (arith, codes_ltb_irrefl xs)

codes_ltb_trans :
    (xs ys zs : List ℕ) → codes_ltb xs ys ≡ true → codes_ltb ys zs ≡ true → codes_ltb xs zs ≡ true
unfolding codes_ltb
codes_ltb_trans [] [] zs h k = cc
codes_ltb_trans [] (y ∷ ys) [] h k = cc
codes_ltb_trans [] (y ∷ ys) (z ∷ zs) h k = refl
codes_ltb_trans (x ∷ xs) [] zs h k = cc
codes_ltb_trans (x ∷ xs) (y ∷ ys) [] h k = cc
codes_ltb_trans (x ∷ xs) (y ∷ ys) (z ∷ zs) h k = ground (arith, codes_ltb_trans xs ys zs)

codes_ltb_total : (xs ys : List ℕ) → codes_ltb xs ys ≡ false → codes_ltb ys xs ≡ false → xs ≡ ys
unfolding codes_ltb
codes_ltb_total [] [] h k = refl
codes_ltb_total [] (y ∷ ys) h k = cc
codes_ltb_total (x ∷ xs) [] h k = cc
codes_ltb_total (x ∷ xs) (y ∷ ys) h k = ground (arith, codes_ltb_total xs ys)

pub codes_injective : (s t : String) → codes s ≡ codes t → s ≡ t
codes_injective String.[] String.[] h = refl
codes_injective String.[] (String.◌∷◌ d t) h = cc
codes_injective (String.◌∷◌ c s) String.[] h = cc
codes_injective (String.◌∷◌ c s) (String.◌∷◌ d t) h =
    let p : code c ≡ code d = cc in
    let q : codes s ≡ codes t = cc in cc (Char-path c d p, codes_injective s t q)

pub key_ltb_irrefl : (s : String) → key_ltb s s ≡ false
unfolding key_ltb
key_ltb_irrefl s = codes_ltb_irrefl (codes s)

pub key_ltb_trans : (s t u : String) → key_ltb s t ≡ true → key_ltb t u ≡ true → key_ltb s u ≡ true
unfolding key_ltb
key_ltb_trans s t u = codes_ltb_trans (codes s) (codes t) (codes u)

pub key_ltb_total : (s t : String) → key_ltb s t ≡ false → key_ltb t s ≡ false → s ≡ t
unfolding key_ltb
key_ltb_total s t h k = codes_injective s t (codes_ltb_total (codes s) (codes t) h k)

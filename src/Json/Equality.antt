-- ===== src/Json/Equality.antt =====
-- Python's `==` on JSON values: `True == 1 == 1.0`, and dicts are compared without regard to order.
use hermes_keel.Base.{ℕ, ◌^◌, Bool, true, false, ◌&&◌, Option, none, some, String, ◌==◌, str_eq}
use hermes_keel.Base.{◌≡◌, refl, eq_iff, arith}
use hermes_keel.Base.Int.{ℤ, pos, scale, eq_ℤ}
use hermes_keel.Json.{Value, null, bool, num, float, text, arr, dict, Items, nil, cons}
use hermes_keel.Json.{Fields, end, field, size, get}

-- The number that a value compares as, m / 2^k.
abbrev number : Value → Option (ℤ × ℕ)
number (bool true) = some (pos 1, 0)
number (bool false) = some (pos 0, 0)
number (num n) = some (n, 0)
number (float m k) = some (m, k)
number _ = none

abbrev same_number : Option (ℤ × ℕ) → Option (ℤ × ℕ) → Bool
same_number (some (m, j)) (some (n, k)) = eq_ℤ (scale m (2 ^ k)) (scale n (2 ^ j))
same_number _ _ = false

abbrev leaf_eq : Value → Value → Bool
leaf_eq null null = true
leaf_eq (text s) (text t) = str_eq s t
leaf_eq v w = same_number (number v) (number w)

unfoldable mutual
  pub eq : Value → Value → Bool
  eq (arr xs) (arr ys) = eq_items xs ys
  eq (dict fs) (dict gs) = (size fs == size gs) && eq_fields fs gs
  eq null w = leaf_eq null w
  eq (bool b) w = leaf_eq (bool b) w
  eq (num n) w = leaf_eq (num n) w
  eq (float m k) w = leaf_eq (float m k) w
  eq (text s) w = leaf_eq (text s) w
  eq (arr xs) w = false
  eq (dict fs) w = false

  pub eq_items : Items → Items → Bool
  eq_items nil nil = true
  eq_items (cons v vs) (cons w ws) = eq v w && eq_items vs ws
  eq_items nil ws = false
  eq_items (cons v vs) ws = false

  -- every entry of the first dict has an equal one in the second
  pub eq_fields : Fields → Fields → Bool
  eq_fields end gs = true
  eq_fields (field k v fs) gs =
      (elim (get k gs) [ none ↦ false | some w ↦ eq v w ]) && eq_fields fs gs

-- What equals a text is that text.
pub eq-text : (v : Value) (s : String) → eq v (text s) ≡ true → v ≡ text s
unfolding eq
eq-text (text t) s h = ground (arith, eq_iff t s)
eq-text null s h = cc
eq-text (bool true) s h = cc
eq-text (bool false) s h = cc
eq-text (num n) s h = cc
eq-text (float m k) s h = cc
eq-text (arr xs) s h = cc
eq-text (dict fs) s h = cc

pub eq-text_refl : (s : String) → eq (text s) (text s) ≡ true
unfolding eq
eq-text_refl s = (eq_iff s s).1 refl

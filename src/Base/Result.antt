-- ===== src/Base/Result.antt =====
-- Python's exceptions as values. `rejected` is the `Rejected` (or `PackageRejected`) of the module
-- that raises, with its message; `raised` is any other exception, by its type.
use hermes_keel.Base.{
  Bool, true, false, String, Option, none, some, ◌≡◌, refl, ◌⊎◌, inl, inr, not, ◌||◌, arith,
}

pub data Exception : Type 0 where
  type_error key_error value_error attribute_error index_error os_error unicode_error : Exception
  other : String → Exception

pub data Error : Type 0 where
  rejected : String → Error
  raised : Exception → Error

-- What a call gives: an exception that passes on, or what it returns.
pub data Result {ℓ} (A : Type ℓ) : Type ℓ where
  err : Error → Result A
  ok : A → Result A

infixl 5 ◌>>=◌ ◌>>◌
abbrev pub ◌>>=◌ {ℓ κ} : {A : Type ℓ} {B : Type κ} → Result A → (A → Result B) → Result B
err raised_first >>= rest = err raised_first
ok returned >>= rest = rest returned

abbrev pub ◌>>◌ {ℓ} : {B : Type ℓ} → Result (Unit {0}) → Result B → Result B
m >> k = m >>= λ _. k

-- `if test: raise Rejected(message)`
abbrev pub reject_if : Bool → String → Result (Unit {0})
reject_if true message = err (rejected message)
reject_if false message = ok tt

abbrev pub or_raise {ℓ} : {A : Type ℓ} → Option A → Error → Result A
or_raise none e = err e
or_raise (some a) e = ok a

pub >>=-eq-ok {ℓ κ} :
    {A : Type ℓ} {B : Type κ} (first : Result A) (rest : A → Result B) {last : B}
    → (first >>= rest) ≡ ok last
    → (value : A) × (first ≡ ok value) × (rest value ≡ ok last)
>>=-eq-ok (err e) rest h = cc
>>=-eq-ok (ok value) rest h = (value, refl, h)

-- A chain of checks passes exactly when each check does.
pub >>-eq-ok {ℓ} :
    {B : Type ℓ} (m : Result (Unit {0})) (k : Result B) {b : B}
    → (m >> k) ≡ ok b
    → (m ≡ ok tt) × (k ≡ ok b)
>>-eq-ok (ok tt) k h = (refl, h)
>>-eq-ok (err e) k h = cc

pub Result-cases {ℓ} :
    {A : Type ℓ} (r : Result A) → ((e : Error) × (r ≡ err e)) ⊎ ((a : A) × (r ≡ ok a))
Result-cases (err e) = inl (e, refl)
Result-cases (ok a) = inr (a, refl)

pub ok_injective {ℓ} : {A : Type ℓ} (a b : A) → Result.ok a ≡ ok b → a ≡ b
ok_injective a b e = cc

-- What a test that raised nothing says.
pub passed : (b : Bool) (m : String) → reject_if b m ≡ ok tt → b ≡ false
passed true m h = cc
passed false m h = refl

pub unnegated : (b : Bool) → not b ≡ false → b ≡ true
unnegated true h = refl
unnegated false h = cc

pub or_false_left : (a b : Bool) → (a || b) ≡ false → a ≡ false
or_false_left a b h = ground arith

pub or_false_right : (a b : Bool) → (a || b) ≡ false → b ≡ false
or_false_right a b h = ground arith

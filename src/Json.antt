-- ===== src/Json.antt =====
-- The values that the program reads and writes as JSON, and Python's operations on them.
pub mod Equality
pub mod Access
pub mod Order
pub mod Lookup
pub mod Normal
pub mod Sorted
pub mod Codec
pub mod Prefix
use hermes_keel.Base.{ℕ, String, Bool, true, false, Option, none, some, suc, ◌+◌, ◌&&◌, ◌||◌}
use hermes_keel.Base.{List, [], ◌∷◌, str_eq, contains_text, if◌then◌else◌, all}
use hermes_keel.Base.Int.{ℤ}

-- `float m k` is the number m / 2^k, which every finite binary64 is. A dict is its entries.
mutual
  pub data Value : Type 0 where
    null : Value
    bool : Bool → Value
    num : ℤ → Value
    float : ℤ → ℕ → Value
    text : String → Value
    arr : Items → Value
    dict : Fields → Value

  pub data Items : Type 0 where
    nil : Items
    cons : Value → Items → Items

  pub data Fields : Type 0 where
    end : Fields
    field : String → Value → Fields → Fields

abbrev pub items : List Value → Items
items [] = nil
items (v ∷ vs) = cons v (items vs)

abbrev pub fields : List (String × Value) → Fields
fields [] = end
fields ((k, v) ∷ fs) = field k v (fields fs)

-- `len(d)`
abbrev pub size : Fields → ℕ
size end = 0
size (field k v fs) = suc (size fs)

abbrev pub size_items : Items → ℕ
size_items nil = 0
size_items (cons v vs) = suc (size_items vs)

-- `d.get(k)`
abbrev pub get : String → Fields → Option Value
get k end = none
get k (field j v fs) = if str_eq j k then some v else get k fs

abbrev pub has_key : String → Fields → Bool
has_key k end = false
has_key k (field j v fs) = str_eq j k || has_key k fs

-- `{**d, k: v}` and `d[k] = v`
abbrev pub put : String → Value → Fields → Fields
put k v end = field k v end
put k v (field j w fs) = if str_eq j k then field j v fs else field j w (put k v fs)

-- `{**d, **e}`
abbrev pub merge : Fields → Fields → Fields
merge d end = d
merge d (field k v e) = merge (put k v d) e

-- `{k: v for k, v in d.items() if k not in names}`
abbrev pub without : List String → Fields → Fields
without names end = end
without names (field k v fs) =
    let rest = without names fs in if contains_text k names then rest else field k v rest

abbrev keys_within : Fields → List String → Bool
keys_within end names = true
keys_within (field k v fs) names = contains_text k names && keys_within fs names

-- `set(d) == {names}`
abbrev pub same_keys : Fields → List String → Bool
same_keys fs names = keys_within fs names && all (λ k. has_key k fs) names

-- ===== src/Json/Normal.antt =====
-- The value with the keys of every dict in order, as `sort_keys=True` writes it.
use mathlib.Core.Option
use hermes_keel.Base.{String, ◌≡◌, refl, some}
use hermes_keel.Base.{arith, str_eq, eq_iff, if◌then◌else◌}
use hermes_keel.Json.{
  Value, null, bool, num, float, text, arr, dict, Items, nil, cons, Fields, end, field, get,
}
use hermes_keel.Json.Order.{key_ltb}

unfoldable pub insert : String → Value → Fields → Fields
insert k v end = field k v end
insert k v (field j w fs) =
    if str_eq k j
    then field k v fs
    else if key_ltb k j
    then field k v (field j w fs)
    else field j w (insert k v fs)

unfoldable mutual
  pub normal : Value → Value
  normal (arr vs) = arr (normal_items vs)
  normal (dict fs) = dict (normal_fields fs)
  normal null = null
  normal (bool b) = bool b
  normal (num n) = num n
  normal (float m k) = float m k
  normal (text s) = text s

  pub normal_items : Items → Items
  normal_items nil = nil
  normal_items (cons v vs) = cons (normal v) (normal_items vs)

  pub normal_fields : Fields → Fields
  normal_fields end = end
  normal_fields (field k v fs) = insert k (normal v) (normal_fields fs)

get-insert :
    (j k : String) (v : Value) (fs : Fields)
    → get j (insert k v fs) ≡ (if str_eq k j then some v else get j fs)
unfolding insert
get-insert j k v end = refl
get-insert j k v (field i w fs) =
    ground (arith, get-insert j k v fs, eq_iff k i, eq_iff i j, eq_iff k j)

-- Sorting keeps what each key finds.
pub get-normal_fields :
    (j : String) (fs : Fields) → get j (normal_fields fs) ≡ Option.map normal (get j fs)
unfolding normal
get-normal_fields j end = refl
get-normal_fields j (field k v fs) =
    rw (get-insert j k (normal v) (normal_fields fs)) (ground (arith, get-normal_fields j fs))

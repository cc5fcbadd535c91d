-- ===== src/Json/Lookup.antt =====
-- What `get` finds after each operation on a dict.
use hermes_keel.Base.{String, ◌≡◌, refl, none, some, List, arith, str_eq, eq_iff}
use hermes_keel.Base.{Bool-cases, inl, inr, contains_text, if◌then◌else◌}
use hermes_keel.Json.{Value, Fields, end, field, get, put, without}

pub get-put :
    (j k : String) (v : Value) (fs : Fields)
    → get j (put k v fs) ≡ (if str_eq k j then some v else get j fs)
get-put j k v end = refl
get-put j k v (field i w fs) = ground (arith, get-put j k v fs, eq_iff i k, eq_iff i j, eq_iff k j)

pub get-without :
    (j : String) (ns : List String) (fs : Fields)
    → get j (without ns fs) ≡ (if contains_text j ns then none else get j fs)
get-without j ns end = ground arith
get-without j ns (field i w fs) = elim (Bool-cases (str_eq i j)) [
  | inl same ↦ rw ((eq_iff i j).0 same) (ground (arith, get-without j ns fs, eq_iff j j))
  | inr other ↦ ground (arith, get-without j ns fs)
]

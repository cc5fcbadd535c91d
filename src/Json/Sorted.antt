-- ===== src/Json/Sorted.antt =====
-- The sorted normal form, and what every key finds.
use mathlib.Core.Option
use hermes_keel.Base.{String, ◌≡◌, refl, sym, ap, ◌∙◌, true, false, none, some, List}
use hermes_keel.Base.{arith, str_eq, eq_iff, Bool-cases, inl, inr}
use hermes_keel.Json.{
  Value, null, bool, num, float, text, arr, dict, Items, nil, cons, Fields, end, field, get,
  without,
}
use hermes_keel.Json.Order.{key_ltb, key_ltb_irrefl, key_ltb_trans, key_ltb_total}
use hermes_keel.Json.Lookup.{get-without}
use hermes_keel.Json.Normal.{insert, normal, normal_items, normal_fields, get-normal_fields}

-- The key comes before all keys of the dict.
abbrev pub Below : String → Fields → Type 0
Below k end = Unit
Below k (field j w fs) = (key_ltb k j ≡ true) × Below k fs

-- The keys come in strictly increasing order.
abbrev pub IsSorted : Fields → Type 0
IsSorted end = Unit
IsSorted (field k v fs) = Below k fs × IsSorted fs

Below-trans : (k j : String) (fs : Fields) → key_ltb k j ≡ true → Below j fs → Below k fs
Below-trans k j end h b = tt
Below-trans k j (field i w fs) h (b, bs) = (key_ltb_trans k j i h b, Below-trans k j fs h bs)

Below-insert :
    (i k : String) (v : Value) (fs : Fields)
    → key_ltb i k ≡ true
    → Below i fs
    → Below i (insert k v fs)
unfolding insert
Below-insert i k v end h b = (h, tt)
Below-insert i k v (field j w fs) h (b, bs) = ground (arith, Below-insert i k v fs h bs)

key_gtb : (k j : String) → str_eq k j ≡ false → key_ltb k j ≡ false → key_ltb j k ≡ true
key_gtb k j other after = elim (Bool-cases (key_ltb j k)) [
  | inl h ↦ h
  | inr h ↦ cc ((eq_iff k j).1 (key_ltb_total k j after h), other)
]

insert-IsSorted : (k : String) (v : Value) (fs : Fields) → IsSorted fs → IsSorted (insert k v fs)
unfolding insert
insert-IsSorted k v end s = (tt, tt)
insert-IsSorted k v (field j w fs) (b, s) = elim (Bool-cases (str_eq k j)) [
  | inl same ↦ rw (same) (rw ((eq_iff k j).0 same) (b, s))
  | inr other ↦ elim (Bool-cases (key_ltb k j)) [
    | inl before ↦ rw (other, before) ((before, Below-trans k j fs before b), (b, s))
    | inr after ↦
        rw (other, after)
          (Below-insert j k v fs (key_gtb k j other after) b, insert-IsSorted k v fs s)
  ]
]

pub normal_fields-IsSorted : (fs : Fields) → IsSorted (normal_fields fs)
unfolding normal
normal_fields-IsSorted end = tt
normal_fields-IsSorted (field k v fs) =
    insert-IsSorted k (normal v) (normal_fields fs) (normal_fields-IsSorted fs)

get_of_Below : (k : String) (fs : Fields) → Below k fs → get k fs ≡ none
get_of_Below k end b = refl
get_of_Below k (field j w fs) (b, bs) =
    ground (arith, get_of_Below k fs bs, eq_iff j k, key_ltb_irrefl k)

key_ltb_of_found :
    (j k : String) (fs : Fields) {v : Value} → Below j fs → get k fs ≡ some v → key_ltb j k ≡ true
key_ltb_of_found j k end b h = cc
key_ltb_of_found j k (field i w fs) {v} (b, bs) h = elim (Bool-cases (str_eq i k)) [
  | inl same ↦ rw (← (eq_iff i k).0 same) b
  | inr other ↦ key_ltb_of_found j k fs {v = v} bs (rw other at h)
]

-- The first keys of two sorted dicts that find the same are one.
heads_meet :
    (k j : String) (v w : Value) (fs gs : Fields)
    → Below k fs
    → Below j gs
    → ((i : String) → get i (field k v fs) ≡ get i (field j w gs))
    → k ≡ j
heads_meet k j v w fs gs bk bj h = elim (Bool-cases (str_eq k j)) [
  | inl same ↦ (eq_iff k j).0 same
  | inr other ↦
      let there : get k gs ≡ some v = ground (arith, h k, eq_iff k k, eq_iff j k, eq_iff k j) in
      let back : get j fs ≡ some w = ground (arith, h j, eq_iff j j, eq_iff j k, eq_iff k j) in
      cc (
        key_ltb_trans k j k (key_ltb_of_found k j fs bk back) (key_ltb_of_found j k gs bj there),
        key_ltb_irrefl k,
      )
]

tail_at :
    (k j : String) (v w : Value) (fs gs : Fields)
    → Below k fs
    → Below j gs
    → ((i : String) → get i (field k v fs) ≡ get i (field j w gs))
    → k ≡ j
    → (i : String) → get i fs ≡ get i gs
tail_at k j v w fs gs bk bj h e i = elim (Bool-cases (str_eq k i)) [
  | inl same ↦
      let at_k : get i fs ≡ none = rw (← (eq_iff k i).0 same) (get_of_Below k fs bk) in
      let at_j : get i gs ≡ none = rw (← (eq_iff k i).0 same, e) (get_of_Below j gs bj) in
      at_k ∙ sym at_j
  | inr other ↦ ground (arith, h i, eq_iff k i, eq_iff j i)
]

-- Two sorted dicts in which every key finds the same are one.
sorted_ext :
    (fs gs : Fields) → IsSorted fs → IsSorted gs → ((i : String) → get i fs ≡ get i gs) → fs ≡ gs
sorted_ext end end s t h = refl
sorted_ext end (field j w gs) s t h = ground (arith, h j, eq_iff j j)
sorted_ext (field k v fs) end s t h = ground (arith, h k, eq_iff k k)
sorted_ext (field k v fs) (field j w gs) (bk, s) (bj, t) h =
    let e : k ≡ j = heads_meet k j v w fs gs bk bj h in
    let ew : v ≡ w = ground (arith, h k, eq_iff k k, eq_iff j k) in
    let tails : fs ≡ gs = sorted_ext fs gs s t (λ i. tail_at k j v w fs gs bk bj h e i) in cc

-- Dicts in which every key finds the same value have one normal form.
pub normal_fields_ext :
    (fs gs : Fields) → ((k : String) → get k fs ≡ get k gs) → normal_fields fs ≡ normal_fields gs
normal_fields_ext fs gs h =
    sorted_ext (normal_fields fs) (normal_fields gs) (normal_fields-IsSorted fs)
      (normal_fields-IsSorted gs)
      (λ k. get-normal_fields k fs ∙ ap (Option.map normal) (h k) ∙ sym (get-normal_fields k gs))

normal_fields_idem_of :
    (fs : Fields)
    → ((k : String)
        → Option.map normal (Option.map normal (get k fs)) ≡ Option.map normal (get k fs))
    → normal_fields (normal_fields fs) ≡ normal_fields fs
normal_fields_idem_of fs h =
    sorted_ext (normal_fields (normal_fields fs)) (normal_fields fs)
      (normal_fields-IsSorted (normal_fields fs)) (normal_fields-IsSorted fs)
      (λ k.
        get-normal_fields k (normal_fields fs)
        ∙ ap (Option.map normal) (get-normal_fields k fs)
        ∙ h k
        ∙ sym (get-normal_fields k fs))

mutual
  unfolding normal

  idem : (v : Value) → normal (normal v) ≡ normal v
  idem (dict fs) = ap dict (normal_fields_idem_of fs (idem_found fs))
  idem (arr vs) = ap arr (idem_items vs)
  idem null = refl
  idem (bool b) = refl
  idem (num n) = refl
  idem (float m k) = refl
  idem (text s) = refl

  idem_items : (vs : Items) → normal_items (normal_items vs) ≡ normal_items vs
  idem_items nil = refl
  idem_items (cons v vs) = cc (idem v, idem_items vs)

  idem_found :
      (fs : Fields) (k : String)
      → Option.map normal (Option.map normal (get k fs)) ≡ Option.map normal (get k fs)
  idem_found end k = refl
  idem_found (field j v fs) k = elim (Bool-cases (str_eq j k)) [
    | inl here ↦ rw here (ap some (idem v))
    | inr there ↦ rw there (idem_found fs k)
  ]

-- Sorting twice is sorting once.
pub normal_idem : (v : Value) → normal (normal v) ≡ normal v
normal_idem v = idem v

-- Members may be dropped before or after the sorting.
pub normal_fields-without :
    (ns : List String) (fs : Fields)
    → normal_fields (without ns (normal_fields fs)) ≡ normal_fields (without ns fs)
normal_fields-without ns fs =
    sorted_ext (normal_fields (without ns (normal_fields fs))) (normal_fields (without ns fs))
      (normal_fields-IsSorted (without ns (normal_fields fs)))
      (normal_fields-IsSorted (without ns fs))
      (λ k.
        get-normal_fields k (without ns (normal_fields fs))
        ∙ rw (get-without, get-normal_fields, get-normal_fields, get-without)
            (ground (arith, idem_found fs k)))

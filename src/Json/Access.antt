-- ===== src/Json/Access.antt =====
-- `v[k]`, `v.get(k)`, `len(v)` and `str(v).startswith(p)` on a value of any type, and the errors
-- that Python raises where the type does not fit.
use hermes_keel.Base.{String, Bool, true, false, Option, none, some, ℕ, count, has_prefix}
use hermes_keel.Base.Int.{ℤ}
use hermes_keel.Base.Result.{Result, ok, err, raised, type_error, key_error, or_raise}
use hermes_keel.Json.{Value, num, text, arr, dict, Fields, get, size, size_items}

-- `v[k]` for a text `k`: a dict has the entry or raises `KeyError`; nothing else takes a text.
abbrev pub item : String → Value → Result Value
item k (dict fs) = or_raise (get k fs) (raised key_error)
item k _ = err (raised type_error)

abbrev pub as_dict : Value → Option Fields
as_dict (dict fs) = some fs
as_dict _ = none

abbrev pub as_text : Value → Option String
as_text (text s) = some s
as_text _ = none

abbrev pub as_int : Value → Option ℤ
as_int (num n) = some n
as_int _ = none

abbrev pub is_text : Value → Bool
is_text (text s) = true
is_text _ = false

-- `type(v) is int`, which a `bool` is not
abbrev pub is_int : Value → Bool
is_int (num n) = true
is_int _ = false

-- `len(v)`
abbrev pub len : Value → Result ℕ
len (text s) = ok (count s)
len (arr xs) = ok (size_items xs)
len (dict fs) = ok (size fs)
len _ = err (raised type_error)

-- `isinstance(v, str) and len(v) == n` and its like test the length of a text
abbrev pub text_length_is : (ℕ → Bool) → Value → Bool
text_length_is p (text s) = p (count s)
text_length_is p _ = false

-- `str(v).startswith(prefix)` for the prefixes of the source, "/" and "t_": the text of a value that
-- is no text begins with a digit, `-`, `N`, `T`, `F`, `[` or `{`.
abbrev pub str_has_prefix : String → Value → Bool
str_has_prefix prefix (text s) = has_prefix prefix s
str_has_prefix prefix _ = false

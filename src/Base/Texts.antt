-- ===== src/Base/Texts.antt =====
-- Texts: their characters as numbers, and the tests of the source on them.
use Prim.Native.Nat.{ℕ, suc}
use Prim.Native.Char.{code}
use Prim.Native.String.{String}
use mathlib.Core.Bool.{Bool, true, false, ◌&&◌, ◌||◌}
use mathlib.Core.List.{List, [], ◌∷◌}
use text.Mathlib.Text
use text.Mathlib.Text.{starts_with}
use hermes_keel.Base.Tests.{leb}

-- The code points of a text.
abbrev pub codes : String → List ℕ
codes String.[] = []
codes (String.◌∷◌ c s) = code c ∷ codes s

-- `len(s)`: Python counts code points
abbrev pub count : String → ℕ
count String.[] = 0
count (String.◌∷◌ c s) = suc (count s)

abbrev pub str_eq : String → String → Bool
str_eq s t = Text.◌==◌ s t

-- `s.startswith(prefix)`
abbrev pub has_prefix : String → String → Bool
has_prefix prefix s = starts_with s prefix

-- `part in s`
abbrev pub has_part : String → String → Bool
has_part part String.[] = str_eq part ""
has_part part (String.◌∷◌ c s) = has_prefix part (String.◌∷◌ c s) || has_part part s

abbrev pub contains_text : String → List String → Bool
contains_text k [] = false
contains_text k (j ∷ ks) = str_eq k j || contains_text k ks

-- `s.isascii()`
abbrev pub is_ascii : String → Bool
is_ascii String.[] = true
is_ascii (String.◌∷◌ c s) = leb (code c) 127 && is_ascii s

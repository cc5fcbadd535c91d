-- ===== src/Package/Manifest.antt =====
-- The text of a manifest: its lines, each a digest, two spaces and a name, and the rows they give.
use hermes_keel.Base.{
  ℕ, String, Bool, true, false, not, ◌&&◌, ◌||◌, Option, none, some, List, [], ◌∷◌, ◌++◌, ltb, ◌==◌,
  if◌then◌else◌, length, all, any, cons_first, bytes_eq, codes,
}
use hermes_keel.Base.Result.{Result, ok, err, raised, unicode_error, reject_if, ◌>>=◌, ◌>>◌}

-- `MEMBERS`
abbrev pub members : List String
members =
    "core.py" ∷ "broker.py" ∷ "package_v2.py" ∷ "hermes-privileged-broker.sudoers" ∷ "install.sh"
    ∷ "uninstall.sh" ∷ "runtime/ollama" ∷ []

-- `name in MEMBERS`
abbrev pub is_member : List ℕ → Bool
is_member name = any (λ m. bytes_eq (codes m) name) members

-- `raw.decode("ascii")`
abbrev pub decode_ascii : List ℕ → Result (List ℕ)
decode_ascii raw = if all (λ b. ltb b 128) raw then ok raw else err (raised unicode_error)

-- the line ends of `str.splitlines()` among the ASCII characters, but for `\r`
unfoldable pub is_line_end : ℕ → Bool
is_line_end b = b == 10 || b == 11 || b == 12 || b == 28 || b == 29 || b == 30

-- `str.splitlines()` of an ASCII text. The flag says that `\r` came just before.
unfoldable pub ascii_lines : Bool → List ℕ → List (List ℕ)
unfolding is_line_end
ascii_lines after_cr [] = []
ascii_lines after_cr (b ∷ bs) =
    let rest = ascii_lines false bs in
    let rest_cr = ascii_lines true bs in
    if after_cr && b == 10
    then rest
    else if is_line_end b
    then [] ∷ rest
    else if b == 13
    then [] ∷ rest_cr
    else cons_first b rest

-- `line.partition("  ")`: what stands before, whether the spaces are there, and what stands after
unfoldable pub partition : List ℕ → List ℕ × Bool × List ℕ
partition [] = ([], false, [])
partition (a ∷ []) = (a ∷ [], false, [])
partition (a ∷ b ∷ bs) =
    let (before, found, after) = partition (b ∷ bs) in
    if a == 32 && b == 32 then ([], true, bs) else (a ∷ before, found, after)

-- `rows`: the digest of each name, in the order of the lines
abbrev pub Rows : Type 0
Rows = List (List ℕ × List ℕ)

abbrev pub find_row : List ℕ → Rows → Option (List ℕ)
find_row name [] = none
find_row name ((n, digest) ∷ rows) = if bytes_eq n name then some digest else find_row name rows

-- `name in rows`
abbrev pub has_row : List ℕ → Rows → Bool
has_row name rows = any (λ r. bytes_eq r.0 name) rows

-- one round of the loop over the lines
unfoldable pub read_row : Rows → List ℕ → Result Rows
unfolding partition
read_row rows line =
    let (digest, marker, name) = partition line in
    reject_if (not marker || has_row name rows || not (is_member name) || not (length digest == 64))
      "bad-manifest"
    >> ok (rows ++ (name, digest) ∷ [])

unfoldable pub read_rows : Rows → List (List ℕ) → Result Rows
unfolding read_row
read_rows rows [] = ok rows
read_rows rows (line ∷ lines) = read_row rows line >>= λ more. read_rows more lines

-- `set(rows) == set(MEMBERS)`
abbrev pub names_members : Rows → Bool
names_members rows = all (λ m. has_row (codes m) rows) members && all (λ r. is_member r.0) rows

-- the rows of a manifest
unfoldable pub read_manifest : List ℕ → Result Rows
unfolding ascii_lines read_rows
read_manifest raw = do
  characters ← decode_ascii raw
  rows ← read_rows [] (ascii_lines false characters)
  reject_if (not (names_members rows)) "incomplete-manifest"
  ok rows

-- ===== src/Broker/Ledger/File.antt =====
-- `_records`: the frames of a ledger file.
use hermes_keel.Base.{
  cons_first, ℕ, ◌/◌, ◌%◌, Bool, true, false, not, ◌&&◌, ◌||◌, Option, none, some, List, [], ◌∷◌,
}
use hermes_keel.Base.{ltb, ◌==◌, length, get_last?, any, if◌then◌else◌}
use hermes_keel.Base.Result.{Result, rejected, or_raise, ◌>>◌, reject_if}
use hermes_keel.Json.{Value}
use hermes_keel.Json.Codec.{Codec}
use hermes_keel.Broker.Config.{max_ledger_bytes, max_record_bytes}

pub data Kind : Type 0 where
  regular symlink special : Kind

-- What stands at a path, with its bytes.
pub record File : Type 0 where
  pub kind : Kind
  pub owner : ℕ
  pub mode : ℕ
  pub content : List ℕ

-- `mode & 0o022`
unfoldable pub writable_by_others : ℕ → Bool
writable_by_others mode = (mode / 16 % 2 == 1) || (mode / 2 % 2 == 1)

abbrev newline : ℕ
newline = 10

abbrev carriage_return : ℕ
carriage_return = 13

-- `bytes.splitlines()`: a line ends at `\n`, `\r` or `\r\n`. The flag says that `\r` came just before.
unfoldable pub splitlines : Bool → List ℕ → List (List ℕ)
splitlines after_cr [] = []
splitlines after_cr (b ∷ bs) =
    let rest = splitlines false bs in
    let rest_cr = splitlines true bs in
    if after_cr && b == newline
    then rest
    else if b == newline
    then [] ∷ rest
    else if b == carriage_return
    then [] ∷ rest_cr
    else cons_first b rest

abbrev ends_with_newline : List ℕ → Bool
ends_with_newline raw = elim (get_last? raw) [ none ↦ false | some b ↦ b == newline ]

abbrev is_empty {ℓ} : {A : Type ℓ} → List A → Bool
is_empty [] = true
is_empty (x ∷ xs) = false

module _ (c : Codec) where
  -- `[json.loads(x) for x in frames if x]`
  unfoldable pub parse_frames : List (List ℕ) → Option (List Value)
  parse_frames [] = some []
  parse_frames ([] ∷ ls) = parse_frames ls
  parse_frames ((b ∷ bs) ∷ ls) = elim (c.loads (b ∷ bs)) [
    | none ↦ none
    | some v ↦ elim (parse_frames ls) [ none ↦ none | some vs ↦ some (v ∷ vs) ]
  ]

  pub check_file : ℕ → File → Result (Unit {0})
  unfolding writable_by_others
  check_file euid f = do
    reject_if (elim f.kind [ symlink ↦ true | _ ↦ false ]) "malformed-ledger"
    reject_if (elim f.kind [ regular ↦ not (f.owner == 0 || f.owner == euid) | _ ↦ true ])
        "unsafe-file"
    reject_if (writable_by_others f.mode) "unsafe-ledger-mode"
    reject_if (ltb max_ledger_bytes (length f.content)) "ledger-too-large"

  read_frames : List ℕ → Result (List Value)
  unfolding parse_frames splitlines
  read_frames raw = do
    reject_if (not (is_empty raw) && not (ends_with_newline raw)) "partial-ledger-frame"
    let frames = splitlines false raw
    reject_if (any (λ frame. ltb max_record_bytes (length frame)) frames) "ledger-frame-too-large"
    or_raise (parse_frames frames) (rejected "malformed-ledger")

  -- `_records` of a file that exists
  unfoldable pub records : ℕ → File → Result (List Value)
  unfolding check_file read_frames
  records euid f = do check_file euid f; read_frames f.content

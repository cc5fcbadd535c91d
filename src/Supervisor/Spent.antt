-- ===== src/Supervisor/Spent.antt =====
-- A receipt as a later reading of the log finds it.
use hermes_keel.Base.{
  ℕ, String, ◌≡◌, refl, ap, Bool, true, false, not, ◌&&◌, ◌||◌, List, [], ◌∷◌, ◌++◌, ◌==◌, arith,
  all, cons_first, Bool-cases, inl, inr, if◌then◌else◌,
}
use hermes_keel.Base.Int.{ℤ}
use hermes_keel.Base.Result.{ok, ok_injective, >>=-eq-ok}
use hermes_keel.Base.Writing.{Writing, write_all, write_all_lem}
use hermes_keel.Json.{Value, text}
use hermes_keel.Json.Equality.{eq-text_refl}
use hermes_keel.Json.Order.{key_ltb}
use hermes_keel.Json.Normal.{normal, insert}
use hermes_keel.Json.Codec.{Codec, ReadsBack}
use hermes_keel.Supervisor.State.{Unicode}
use hermes_keel.Supervisor.Receipts.{
  Log, absent, dangling, odd, plain, log_lines, append_receipt, receipt_nonce, line_nonce,
  lines_nonces, load_nonces, is_used, extend, writable,
}
use hermes_keel.Supervisor.Handle.{Caller, Plan, request_record}

-- nothing, or whole lines
abbrev pub is_whole : List ℕ → Bool
is_whole [] = true
is_whole (b ∷ []) = b == 10
is_whole (b ∷ b' ∷ bs) = is_whole (b' ∷ bs)

log_lines-cons :
    (b : ℕ) (bs : List ℕ) → (l : List ℕ) × (ls : List (List ℕ)) × (log_lines (b ∷ bs) ≡ l ∷ ls)
unfolding log_lines
log_lines-cons b bs = elim (Bool-cases (b == 10)) [
  | inl at ↦ ([], log_lines bs, rw at refl)
  | inr other ↦ first (log_lines bs) other
]
  where
    first :
        (rest : List (List ℕ))
        → b == 10 ≡ false
        → (l : List ℕ) × (ls : List (List ℕ)) × ((if b == 10 then [] ∷ rest else cons_first b rest)
            ≡ l ∷ ls)
    first [] other = (b ∷ [], [], rw other refl)
    first (m ∷ ms) other = (b ∷ m, ms, rw other refl)

-- one more byte in front of lines that are followed by others
byte_first :
    (b : ℕ) (l : List ℕ) (ls rest all_lines new : List (List ℕ))
    → rest ≡ l ∷ ls
    → all_lines ≡ rest ++ new
    → (if b == 10 then [] ∷ all_lines else cons_first b all_lines)
      ≡ (if b == 10 then [] ∷ rest else cons_first b rest) ++ new
byte_first b l ls rest all_lines new e f = elim (Bool-cases (b == 10)) [
  | inl at ↦ rw (at, f) refl
  | inr other ↦ rw (other, f, e) refl
]

log_lines-append :
    (old new : List ℕ)
    → is_whole old ≡ true
    → log_lines (old ++ new) ≡ log_lines old ++ log_lines new
unfolding log_lines
log_lines-append [] new h = refl
log_lines-append (b ∷ []) new h = rw h refl
log_lines-append (b ∷ b' ∷ bs) new h =
    let (l, ls, e) = log_lines-cons b' bs in
    byte_first b l ls (log_lines (b' ∷ bs)) _ (log_lines new) e (log_lines-append (b' ∷ bs) new h)

log_lines-line :
    (line : List ℕ)
    → all (λ b. not (b == 10 || b == 13)) line ≡ true
    → log_lines (line ++ 10 ∷ []) ≡ line ∷ []
unfolding log_lines
log_lines-line [] h = refl
log_lines-line (b ∷ bs) h = ground (arith, log_lines-line bs)

-- A log to which receipts can be added as lines of their own.
abbrev pub IsWhole : Log → Type 0
IsWhole (plain bytes) = is_whole bytes ≡ true
IsWhole _ = Unit

module _ (c : Codec) (u : Unicode) where
  lines_nonces-append :
      (ls : List (List ℕ)) (l : List ℕ) {used : List Value} {nonce : Value}
      → lines_nonces c u ls ≡ ok used
      → line_nonce c u l ≡ ok nonce
      → lines_nonces c u (ls ++ l ∷ []) ≡ ok (used ++ nonce ∷ [])
  unfolding lines_nonces
  lines_nonces-append [] l {used} {nonce} e f =
      rw f (ap (λ us. ok (us ++ nonce ∷ [])) (ok_injective [] used e))
  lines_nonces-append (m ∷ ms) l {used} {nonce} e f =
      let (first, read, e1) = >>=-eq-ok (line_nonce c u m) _ e in
      let (rest, more, e2) = >>=-eq-ok (lines_nonces c u ms) _ e1 in
      rw (read, lines_nonces-append ms l more f)
        (ap (λ us. ok (us ++ nonce ∷ [])) (ok_injective (first ∷ rest) used e2))

  line_nonce_written :
      (receipt nonce : Value)
      → ReadsBack c receipt
      → receipt_nonce (normal receipt) ≡ ok nonce
      → line_nonce c u (c.dumps receipt) ≡ ok nonce
  unfolding line_nonce
  line_nonce_written receipt nonce lawful e = rw (lawful.loads-dumps) e

  is_used_last : (s : String) (used : List Value) → is_used s (used ++ text s ∷ []) ≡ true
  is_used_last s [] = rw (eq-text_refl s) refl
  is_used_last s (v ∷ vs) = rw (is_used_last s vs) (ground arith)

  -- the log once the receipt is written
  written_log :
      (log : Log) (receipt nonce : Value) {used : List Value}
      → ReadsBack c receipt
      → IsWhole log
      → load_nonces c u log ≡ ok used
      → receipt_nonce (normal receipt) ≡ ok nonce
      → writable log ≡ true
      → load_nonces c u (extend log (c.dumps receipt ++ 10 ∷ [])) ≡ ok (used ++ nonce ∷ [])
  unfolding load_nonces
  written_log absent receipt nonce {used} lawful whole loaded e w =
      rw (log_lines-line (c.dumps receipt) lawful.dumps_line.1) (
        lines_nonces-append [] (c.dumps receipt) loaded (line_nonce_written receipt nonce lawful e))
  written_log (plain bytes) receipt nonce {used} lawful whole loaded e w =
      rw
        (
          log_lines-append bytes (c.dumps receipt ++ 10 ∷ []) whole,
          log_lines-line (c.dumps receipt) lawful.dumps_line.1,
        )
        (lines_nonces-append (log_lines bytes) (c.dumps receipt) loaded
          (line_nonce_written receipt nonce lawful e))
  written_log dangling receipt nonce lawful whole loaded e w = cc
  written_log odd receipt nonce lawful whole loaded e w = cc

  append_receipt_lem :
      (how : Writing) (receipt : Value) (log : Log)
      → (append_receipt c how receipt log).0 ≡ ok tt
      → (writable log ≡ true)
        × ((append_receipt c how receipt log).1 ≡ extend log (c.dumps receipt ++ 10 ∷ []))
  unfolding append_receipt
  append_receipt_lem how receipt log h = elim (Bool-cases (how.opens && writable log)) [
    | inr closed ↦ absurd (ground (arith, closed, h))
    | inl usable ↦
        let complete : (write_all how.counts (c.dumps receipt ++ 10 ∷ [])).1 ≡ true =
          ground (arith, usable, h) in
        (
          ground arith,
          rw usable
              (ap (extend log) (write_all_lem how.counts (c.dumps receipt ++ 10 ∷ []) complete)),
        )
  ]

request_record_nonce :
    (c : Codec) (u : Unicode) (caller : Caller) (p : Plan) (at : ℤ)
    → receipt_nonce (normal (request_record c u caller p at)) ≡ ok (text p.nonce_hash)
unfolding receipt_nonce normal insert request_record key_ltb
request_record_nonce c u caller p at = refl

-- If the log holds whole lines that can be read, and the receipt of a request is appended without an
-- exception, then every reading of the new log finds the nonce of the request used, and finds all
-- nonces that were used before. The JSON library is to write the receipt as one line and read it back.
pub request_record_spends :
    (c : Codec) (u : Unicode) (caller : Caller) (p : Plan) (at : ℤ) (how : Writing) (log : Log)
    (used : List Value)
    → ReadsBack c (request_record c u caller p at)
    → IsWhole log
    → load_nonces c u log ≡ ok used
    → (append_receipt c how (request_record c u caller p at) log).0 ≡ ok tt
    → (load_nonces c u (append_receipt c how (request_record c u caller p at) log).1
        ≡ ok (used ++ text p.nonce_hash ∷ []))
      × (is_used p.nonce_hash (used ++ text p.nonce_hash ∷ []) ≡ true)
request_record_spends c u caller p at how log used lawful whole loaded written =
    let receipt = request_record c u caller p at in
    let (w, extended) = append_receipt_lem c u how receipt log written in
    (
      rw extended (
          written_log c u log receipt (text p.nonce_hash) lawful whole loaded
            (request_record_nonce c u caller p at) w),
      is_used_last c u p.nonce_hash used,
    )

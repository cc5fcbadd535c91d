-- ===== src/Broker/Ledger/Verified.antt =====
-- What `verify_chain` establishes.
use hermes_keel.Base.{
  ℕ, String, ◌≡◌, ◌≢◌, ◌∙◌, ap, refl, ◌⊎◌, inl, inr, true, false, not, Option, none, some,
}
use hermes_keel.Base.{List, [], ◌∷◌, ◌++◌, arith, eq_iff, get_last?, Option-cases}
use hermes_keel.Base.Result.{ok, reject_if, >>=-eq-ok, >>-eq-ok}
use hermes_keel.Json.{Value, null, dict, Fields, get, without}
use hermes_keel.Json.Equality.{eq}
use hermes_keel.Json.Access.{item}
use hermes_keel.Json.Codec.{Codec}
use hermes_keel.Broker.Ledger.File.{File, records}
use hermes_keel.Broker.Ledger.Chain.{
  Ledger, no_hash, split_last, compare_digest, receipt_mac, checkpoint_key, mac_text, check_records,
  tip, split_snapshot, check_tip, check_closing, verify_file, verify_chain,
}
use hermes_keel.Broker.Ledger.Sound.{IsChain, check_records-IsChain, compare_digest_lem}

split_last-none {ℓ} : {A : Type ℓ} (xs : List A) → split_last xs ≡ none → xs ≡ []
split_last-none [] h = refl
split_last-none (x ∷ xs) h = ground arith

split_last_lem {ℓ} :
    {A : Type ℓ} (xs : List A) {ys : List A} {y : A}
    → split_last xs ≡ some (ys, y)
    → xs ≡ ys ++ y ∷ []
split_last_lem [] h = cc
split_last_lem (x ∷ xs) {ys} {y} h = elim (Option-cases (split_last xs)) [
  | inl nothing ↦ ground (arith, split_last-none xs nothing)
  | inr ((zs, z), found) ↦ ground (arith, split_last_lem xs {ys = zs} {y = z} found)
]

split_snapshot-some :
    (c : Codec) (snapshot zs rs : List Value) (z : Value) (fs : Fields)
    → split_last snapshot ≡ some (zs, z)
    → split_snapshot c snapshot ≡ ok (rs, some fs)
    → (rs ≡ zs) × (z ≡ dict fs)
unfolding split_snapshot
split_snapshot-some c snapshot zs rs (dict gs) fs found h = ground arith
split_snapshot-some c snapshot zs rs null fs found h = ground arith
split_snapshot-some c snapshot zs rs _ fs found h = ground arith

split_snapshot-none :
    (c : Codec) (snapshot rs : List Value) (fs : Fields)
    → split_last snapshot ≡ none
    → split_snapshot c snapshot ≢ ok (rs, some fs)
unfolding split_snapshot
split_snapshot-none c snapshot rs fs nothing h = ground arith

split_snapshot_lem :
    (c : Codec) (snapshot rs : List Value) (fs : Fields)
    → split_snapshot c snapshot ≡ ok (rs, some fs)
    → snapshot ≡ rs ++ dict fs ∷ []
split_snapshot_lem c snapshot rs fs h = elim (Option-cases (split_last snapshot)) [
  | inl nothing ↦ absurd (split_snapshot-none c snapshot rs fs nothing h)
  | inr ((zs, z), found) ↦
      let (same, is_dict) = split_snapshot-some c snapshot zs rs z fs found h in
      split_last_lem snapshot found ∙ cc
]

-- What `verify_chain` establishes of a file.
pub record IsSealed (c : Codec) (euid : ℕ) (l : Ledger) (key : List ℕ) (rs : List Value)
    : Type 0 where
  pub file : File
  pub file_found : l.file ≡ some file
  pub chain : IsChain c key 1 no_hash rs
  pub closing : Fields
  pub read : records c euid file ≡ ok (rs ++ dict closing ∷ [])
  pub last : Fields
  pub is_last : get_last? rs ≡ some (dict last)
  pub sequence : Value
  pub sequence_found : get "sequence" last ≡ some sequence
  pub record_hash : Value
  pub hash_found : get "record_hash" last ≡ some record_hash
  pub authentic :
      mac_text c closing ≡ receipt_mac c (checkpoint_key c key) (without ("mac" ∷ []) closing)
  pub closes :
      eq (dict (without ("mac" ∷ []) closing)) (dict (tip c l.path sequence record_hash last))
      ≡ true

item_found : (k : String) (fs : Fields) {v : Value} → item k (dict fs) ≡ ok v → get k fs ≡ some v
item_found k fs h = ground arith

check_tip_lem :
    (c : Codec) (path : String) (key : List ℕ) (terminal : Value) (found : Fields)
    → check_tip c path key terminal found ≡ ok tt
    → (last : Fields) × (sequence record_hash : Value) × (terminal ≡ dict last)
      × (get "sequence" last ≡ some sequence)
      × (get "record_hash" last ≡ some record_hash)
      × (mac_text c found ≡ receipt_mac c (checkpoint_key c key) (without ("mac" ∷ []) found))
      × (eq (dict (without ("mac" ∷ []) found)) (dict (tip c path sequence record_hash last))
          ≡ true)
unfolding check_tip
check_tip_lem c path key (dict fs) found h =
    let mac = mac_text c found in
    let m = receipt_mac c (checkpoint_key c key) (without ("mac" ∷ []) found) in
    let (same, compared, h1) = >>=-eq-ok (compare_digest mac m) _ h in
    let (passed, h2) = >>-eq-ok (reject_if (not same) "ledger-checkpoint-corrupt") _ h1 in
    let (sequence, at_sequence, h3) = >>=-eq-ok (item "sequence" (dict fs)) _ h2 in
    let (record_hash, at_hash, h4) = >>=-eq-ok (item "record_hash" (dict fs)) _ h3 in
    (
      fs,
      sequence,
      record_hash,
      refl,
      item_found "sequence" fs at_sequence,
      item_found "record_hash" fs at_hash,
      (eq_iff mac m).0 (ground (arith, compare_digest_lem mac m compared)),
      ground arith,
    )
check_tip_lem c path key null found h = ground arith
check_tip_lem c path key _ found h = ground arith

check_closing_lem :
    (c : Codec) (path : String) (key : List ℕ) (last : Option Value) (found : Option Fields)
    → check_closing c path key last found ≡ ok tt
    → (terminal : Value) × (last ≡ some terminal)
      × (closing : Fields) × (found ≡ some closing)
      × (check_tip c path key terminal closing ≡ ok tt)
unfolding check_closing
check_closing_lem c path key none found h = cc
check_closing_lem c path key (some terminal) none h = cc
check_closing_lem c path key (some terminal) (some closing) h = (terminal, refl, closing, refl, h)

verify_file-IsSealed :
    (c : Codec) (euid : ℕ) (l : Ledger) (key : List ℕ) (rs : List Value) (f : File)
    → l.file ≡ some f
    → verify_file c euid l.path key f ≡ ok rs
    → IsSealed c euid l key rs
unfolding verify_file
verify_file-IsSealed c euid l key rs f there h =
    let (snapshot, read, h1) = >>=-eq-ok (records c euid f) _ h in
    let ((zs, tip_line), split, h2) = >>=-eq-ok (split_snapshot c snapshot) _ h1 in
    let (chained, h3) = >>-eq-ok (check_records c key 1 no_hash zs) _ h2 in
    let (ended, h4) = >>-eq-ok (check_closing c l.path key (get_last? zs) tip_line) _ h3 in
    let same : zs ≡ rs = cc in
    let (terminal, at_end, closing, at_tip, checked) =
      check_closing_lem c l.path key (get_last? zs) tip_line ended in
    let (last, sequence, record_hash, is_dict, at_sequence, at_hash, mac, closes) =
      check_tip_lem c l.path key terminal closing checked in
    rw (← same) (record {
      file = f;
      file_found = there;
      chain = check_records-IsChain c key 1 no_hash zs chained;
      closing = closing;
      read = read ∙ ap ok (split_snapshot_lem c snapshot zs closing (rw (← at_tip) split));
      last = last;
      is_last = at_end ∙ ap some is_dict;
      sequence = sequence;
      sequence_found = at_sequence;
      record_hash = record_hash;
      hash_found = at_hash;
      authentic = mac;
      closes = closes;
    })

-- A ledger that passes `verify_chain` is a file whose records form a chain from the first on, closed
-- by a tip that carries the MAC of the checkpoint key and names the last record and the ledger's
-- path; or there is neither a file nor a legacy checkpoint, and there are no records.
pub verify_chain-IsSealed :
    (c : Codec) (euid : ℕ) (l : Ledger) (key : List ℕ) (rs : List Value)
    → verify_chain c euid l key ≡ ok rs
    → ((l.file ≡ none) × (l.has_checkpoint ≡ false) × (rs ≡ [])) ⊎ IsSealed c euid l key rs
unfolding verify_chain
verify_chain-IsSealed c euid l key rs h = elim (Option-cases l.file) [
  | inl absent ↦ inl (absent, ground arith, ground arith)
  | inr (f, there) ↦ inr (verify_file-IsSealed c euid l key rs f there (rw there at h))
]

-- ===== src/Broker/Ledger/Sound.antt =====
-- Chains of records, and their tips.
use hermes_keel.Base.{ℕ, suc, String, ◌≡◌, ◌≢◌, refl, Bool, true, not, ◌||◌, some}
use hermes_keel.Base.{List, [], ◌∷◌, arith, str_eq, eq_iff}
use hermes_keel.Base.Int.{pos}
use hermes_keel.Base.Result.{ok, reject_if, >>=-eq-ok, >>-eq-ok}
use hermes_keel.Json.{Value, null, num, text, dict, Fields, get, put}
use hermes_keel.Json.Equality.{eq, eq-text}
use hermes_keel.Json.Codec.{Codec}
use hermes_keel.Broker.Ledger.Chain.{
  get_value, compare_digest, receipt_mac, mac_text, record_body, record_digest, check_mac,
  check_record, check_records,
}

null≢text : (s : String) → null ≢ text s
null≢text s e = cc

get_value_found :
    (k : String) (fs : Fields) (s : String) → get_value k fs ≡ text s → get k fs ≡ some (text s)
get_value_found k fs s h = ground arith

pub compare_digest_lem : (a b : String) {r : Bool} → compare_digest a b ≡ ok r → r ≡ str_eq a b
compare_digest_lem a b h = ground arith

module _ (c : Codec) (key : List ℕ) where
  -- A record at its place: it names its place and the digest before it, and carries its own digest
  -- and the MAC of its body and digest.
  pub record IsRecord (sequence : ℕ) (previous : String) (v : Value) (h : String) : Type 0 where
    pub members : Fields
    pub is_dict : v ≡ dict members
    pub place : eq (get_value "sequence" members) (num (pos sequence)) ≡ true
    pub linked : get "previous_hash" members ≡ some (text previous)
    pub hashed : h ≡ record_digest c members
    pub own_hash : get "record_hash" members ≡ some (text h)
    pub authentic :
        mac_text c members ≡ receipt_mac c key (put "record_hash" (text h) (record_body c members))

  abbrev pub IsChain : ℕ → String → List Value → Type 0
  IsChain n previous [] = Unit
  IsChain n previous (r ∷ rs) = (h : String) × IsRecord n previous r h × IsChain (suc n) h rs

  check_mac_lem :
      (fs : Fields)
      → check_mac c key fs ≡ ok tt
      → mac_text c fs
        ≡ receipt_mac c key (put "record_hash" (text (record_digest c fs)) (record_body c fs))
  unfolding check_mac
  check_mac_lem fs h =
      let mac = mac_text c fs in
      let m =
        receipt_mac c key (put "record_hash" (text (record_digest c fs)) (record_body c fs)) in
      let (same, compared, h1) = >>=-eq-ok (compare_digest mac m) _ h in
      (eq_iff mac m).0 (ground (arith, compare_digest_lem mac m compared))

  check_record-IsRecord :
      (n : ℕ) (previous : String) (v : Value) {h : String}
      → check_record c key n previous v ≡ ok h
      → IsRecord n previous v h
  unfolding check_record
  check_record-IsRecord n previous (dict fs) {h} e =
      let (placed, e1) =
        >>-eq-ok
          (reject_if
            (not (eq (get_value "sequence" fs) (num (pos n)))
              || not (eq (get_value "previous_hash" fs) (text previous)))
            "ledger-chain-corrupt")
          _ e in
      let (own, e2) =
        >>-eq-ok
          (reject_if (not (eq (get_value "record_hash" fs) (text (record_digest c fs))))
            "ledger-chain-corrupt")
          _ e1 in
      let (mac, e3) = >>-eq-ok (check_mac c key fs) _ e2 in
      let hashed : h ≡ record_digest c fs = cc in
      record {
        members = fs;
        is_dict = refl;
        place = ground arith;
        linked = get_value_found "previous_hash" fs previous (eq-text _ previous (ground arith));
        hashed = hashed;
        own_hash = rw hashed (get_value_found "record_hash" fs _ (eq-text _ _ (ground arith)));
        authentic = rw hashed (check_mac_lem fs mac);
      }
  check_record-IsRecord n previous null e = cc
  check_record-IsRecord n previous _ e = cc

  pub check_records-IsChain :
      (n : ℕ) (previous : String) (rs : List Value)
      → check_records c key n previous rs ≡ ok tt
      → IsChain n previous rs
  unfolding check_records
  check_records-IsChain n previous [] e = tt
  check_records-IsChain n previous (r ∷ rs) e =
      let (h, checked, e1) = >>=-eq-ok (check_record c key n previous r) _ e in
      (h, check_record-IsRecord n previous r checked, check_records-IsChain (suc n) h rs e1)

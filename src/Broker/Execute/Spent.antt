-- ===== src/Broker/Execute/Spent.antt =====
-- The records of a ledger that spend a request.
use mathlib.Core.Option
use mathlib.Core.Path.{subst}
use hermes_keel.Base.{
  ℕ, String, ◌≡◌, ◌≢◌, refl, sym, ap, ◌∙◌, inl, inr, Bool, true, false, Option, none, some, List,
  [], ◌∷◌, ◌++◌, map, if◌then◌else◌,
}
use hermes_keel.Base.Result.{Result, ok, err, ◌>>=◌}
use hermes_keel.Json.{Value, null, bool, num, float, text, arr, dict, Fields, get}
use hermes_keel.Json.Equality.{eq}
use hermes_keel.Json.Normal.{normal, normal_fields, get-normal_fields}
use hermes_keel.Json.Codec.{Codec, IsLawful}
use hermes_keel.Broker.Ledger.Chain.{Ledger, get_value}
use hermes_keel.Broker.Ledger.Append.{Outcome, publish, append_chain, sealed_record, chain_body}
use hermes_keel.Broker.Ledger.Atomic.{IsAtomic, append_chain-IsAtomic}
use hermes_keel.Broker.Ledger.RoundTrip.{
  prior_records, IsAppended, next_generation-IsAppended, published_records, get-sealed_record,
}
use hermes_keel.Broker.Execute.Approval.{in_spent, spends, is_spent}

in_spent-normal : (v : Value) → in_spent (normal v) ≡ in_spent v
unfolding normal
in_spent-normal null = refl
in_spent-normal (bool b) = refl
in_spent-normal (num n) = refl
in_spent-normal (float m k) = refl
in_spent-normal (text s) = refl
in_spent-normal (arr vs) = refl
in_spent-normal (dict fs) = refl

eq-normal : (v : Value) (s : String) → eq (normal v) (text s) ≡ eq v (text s)
unfolding normal eq
eq-normal null s = refl
eq-normal (bool b) s = refl
eq-normal (num n) s = refl
eq-normal (float m k) s = refl
eq-normal (text t) s = refl
eq-normal (arr vs) s = refl
eq-normal (dict fs) s = refl

abbrev value_or_null : Option Value → Value
value_or_null o = elim o [ none ↦ null | some v ↦ v ]

value_or_null-normal :
    (o : Option Value) → value_or_null (Option.map normal o) ≡ normal (value_or_null o)
unfolding normal
value_or_null-normal none = refl
value_or_null-normal (some v) = refl

get_value-normal :
    (k : String) (fs : Fields) → get_value k (normal_fields fs) ≡ normal (get_value k fs)
get_value-normal k fs = ap value_or_null (get-normal_fields k fs) ∙ value_or_null-normal (get k fs)

-- whether a record spends the request, by its two members
abbrev spends_by : String → Value → Value → Result Bool
spends_by request_hash v w = if eq v (text request_hash) then in_spent w else ok false

spends_by_lem :
    (request_hash : String) {v v' w w' : Value}
    → v ≡ v'
    → w ≡ w'
    → spends_by request_hash v w ≡ spends_by request_hash v' w'
spends_by_lem request_hash {v} {v'} {w} {w'} p q =
    ap (λ x. spends_by request_hash x w) p ∙ ap (spends_by request_hash v') q

spends-normal :
    (request_hash : String) (v : Value) → spends request_hash (normal v) ≡ spends request_hash v
unfolding spends normal
spends-normal request_hash null = refl
spends-normal request_hash (bool b) = refl
spends-normal request_hash (num n) = refl
spends-normal request_hash (float m k) = refl
spends-normal request_hash (text s) = refl
spends-normal request_hash (arr vs) = refl
spends-normal request_hash (dict fs) =
    rw
      (
        get_value-normal "request_sha256" fs,
        get_value-normal "phase" fs,
        eq-normal (get_value "request_sha256" fs) request_hash,
        in_spent-normal (get_value "phase" fs),
      )
      refl

is_spent-normal :
    (request_hash : String) (rs : List Value)
    → is_spent request_hash (map normal rs) ≡ is_spent request_hash rs
unfolding is_spent
is_spent-normal request_hash [] = refl
is_spent-normal request_hash (r ∷ rs) =
    rw (spends-normal request_hash r, is_spent-normal request_hash rs) refl

-- no record spends the request only if none of either part does
is_spent-append :
    (request_hash : String) (xs ys : List Value)
    → is_spent request_hash (xs ++ ys) ≡ ok false
    → (is_spent request_hash xs ≡ ok false) × (is_spent request_hash ys ≡ ok false)
unfolding is_spent
is_spent-append request_hash [] ys h = (refl, h)
is_spent-append request_hash (x ∷ xs) ys h =
    elim (spends request_hash x)
        as (λ s.
          (s >>= λ hit. if hit then ok true else is_spent request_hash (xs ++ ys)) ≡ ok false
          → ((s >>= λ hit. if hit then ok true else is_spent request_hash xs) ≡ ok false)
            × (is_spent request_hash ys ≡ ok false)) [
              | ok true ↦ λ e. cc
              | ok false ↦ λ e. is_spent-append request_hash xs ys e
              | err x ↦ λ e. cc
            ]
      h

-- However the ledger is read, its records do not pass for ones that leave the request unspent.
pub record IsSpent (c : Codec) (request_hash : String) (l : Ledger) : Type 0 where
  pub at :
      (euid : ℕ) (key : List ℕ) (rs : List Value)
      → prior_records c euid l key ≡ ok rs
      → is_spent request_hash rs ≢ ok false

module _ (c : Codec) (law : IsLawful c) (request_hash : String) where
  record_spends :
      (key : List ℕ) (prior : List Value) (previous : Value) (body : Fields)
      → spends request_hash (dict (sealed_record c key (chain_body c prior previous body)))
        ≡ spends request_hash (dict body)
  unfolding spends
  record_spends key prior previous body =
      spends_by_lem request_hash
        (ap value_or_null (get-sealed_record c key prior previous body "request_sha256" refl))
        (ap value_or_null (get-sealed_record c key prior previous body "phase" refl))

  spent_alone :
      (rec : Fields)
      → spends request_hash (dict rec) ≡ ok true
      → is_spent request_hash (dict rec ∷ []) ≡ ok false
      → ⊥
  unfolding is_spent
  spent_alone rec one free = cc (rw one at free)

  published-IsSpent :
      (euid : ℕ) (l : Ledger) (key : List ℕ) (body rec : Fields) (payload : List ℕ)
      → (a : IsAppended c euid l key body rec payload)
      → (is_spent request_hash a.prior ≡ ok false
          → is_spent request_hash (dict rec ∷ []) ≡ ok false
          → ⊥)
      → IsSpent c request_hash (publish c euid payload l)
  unfolding is_spent
  published-IsSpent euid l key body rec payload a spent = record {
    at = λ euid' key' rs found free.
        let read = published_records c euid euid' l key key' body rec payload rs law a found in
        let parts =
          is_spent-append request_hash (map normal a.prior) (normal (dict rec) ∷ [])
            (ap (is_spent request_hash) (sym read) ∙ free) in
        spent (sym (is_spent-normal request_hash a.prior) ∙ parts.0)
          (sym (is_spent-normal request_hash (dict rec ∷ [])) ∙ parts.1);
  }

  -- Nothing that is appended makes a spent request free.
  pub append_chain-IsSpent :
      (euid : ℕ) (outcome : Outcome) (l : Ledger) (key : List ℕ) (body : Fields)
      → IsSpent c request_hash l
      → IsSpent c request_hash (append_chain c euid outcome l key body).1
  append_chain-IsSpent euid outcome l key body spent =
      ended (append_chain c euid outcome l key body)
        (append_chain-IsAtomic c euid outcome l key body)
    where
      ended :
          (x : Result Fields × Ledger)
          → IsAtomic c euid outcome l key body x
          → IsSpent c request_hash x.1
      ended (r, l') (inl (e, raised_, same)) = subst (IsSpent c request_hash) (sym same) spent
      ended (r, l') (inr (made, payload, next, at_, _)) =
          let a = next_generation-IsAppended c euid l key body made payload next in
          subst (IsSpent c request_hash) (sym at_) (
            published-IsSpent euid l key body made payload a
              (λ free _. spent.at euid key a.prior a.prior_found free))

  -- An append that returned has spent the request, if its body spends it.
  pub append_chain-spends :
      (euid : ℕ) (outcome : Outcome) (l l' : Ledger) (key : List ℕ) (body rec : Fields)
      → append_chain c euid outcome l key body ≡ (ok rec, l')
      → spends request_hash (dict body) ≡ ok true
      → IsSpent c request_hash l'
  append_chain-spends euid outcome l l' key body rec h hit = ended (
      subst (IsAtomic c euid outcome l key body) h
        (append_chain-IsAtomic c euid outcome l key body))
    where
      ended : IsAtomic c euid outcome l key body (ok rec, l') → IsSpent c request_hash l'
      ended (inl (e, raised_, _)) = cc
      ended (inr (made, payload, next, at_, _)) =
          let a = next_generation-IsAppended c euid l key body made payload next in
          subst (IsSpent c request_hash) (sym at_) (
            published-IsSpent euid l key body made payload a (λ _ free.
              spent_alone made
                (ap (λ r. spends request_hash (dict r)) a.is_sealed
                  ∙ record_spends key a.prior a.previous body
                  ∙ hit)
                free))

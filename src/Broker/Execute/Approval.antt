-- ===== src/Broker/Execute/Approval.antt =====
-- The approvals that count for a request, and the phases that spend it.
use hermes_keel.Base.{ℕ, ◌^◌, String, Bool, true, false, List, [], ◌∷◌, contains_text}
use hermes_keel.Base.{if◌then◌else◌}
use hermes_keel.Base.Int.{ℤ, pos, scale, leb_ℤ}
use hermes_keel.Base.Result.{
  Result, ok, err, rejected, raised, type_error, attribute_error, ◌>>=◌, ◌>>◌, reject_if,
}
use hermes_keel.Json.{Value, bool, num, float, text, arr, dict, without}
use hermes_keel.Json.Equality.{eq}
use hermes_keel.Json.Access.{item}
use hermes_keel.Json.Codec.{Codec}
use hermes_keel.Broker.Ledger.Chain.{compare_digest, mac_text, receipt_mac, get_value}

-- `v <= n` for an integer `n`
abbrev le_int : Value → ℤ → Result Bool
le_int (num m) n = ok (leb_ℤ m n)
le_int (bool true) n = ok (leb_ℤ (pos 1) n)
le_int (bool false) n = ok (leb_ℤ (pos 0) n)
le_int (float m k) n = ok (leb_ℤ m (scale n (2 ^ k)))
le_int _ n = err (raised type_error)

module _ (c : Codec) (key : List ℕ) (request_hash : String) where
  -- `rec.get("request_sha256") == rh and compare_digest(…)`
  is_approval : Value → Result Bool
  unfolding mac_text eq
  is_approval (dict fs) =
      if eq (get_value "request_sha256" fs) (text request_hash)
      then compare_digest (mac_text c fs) (receipt_mac c key (without ("mac" ∷ []) fs))
      else ok false
  is_approval _ = err (raised attribute_error)

  unfoldable pub valid_approvals : List Value → Result (List Value)
  unfolding is_approval
  valid_approvals [] = ok []
  valid_approvals (r ∷ rs) =
      is_approval r >>= λ good. valid_approvals rs >>= λ more. ok (if good then r ∷ more else more)

  single : List Value → Result Value
  single (r ∷ []) = ok r
  single _ = err (rejected "missing-or-ambiguous-approval")

  -- the one valid approval, which has not expired
  unfoldable pub find_approval : List Value → ℤ → Result Value
  unfolding valid_approvals single
  find_approval rs now = do
    valid ← valid_approvals rs
    r ← single valid
    expires ← item "expires_at" r
    over ← le_int expires now
    reject_if over "missing-or-ambiguous-approval"
    ok r

abbrev pub spent_phases : List String
spent_phases =
    "consumed" ∷ "mutation_started" ∷ "health_passed" ∷ "committed" ∷ "rollback_started"
    ∷ "rollback_verified" ∷ "recovery_required" ∷ []

-- `r.get("phase") in spent`: a list or a dict has no hash
abbrev pub in_spent : Value → Result Bool
in_spent (text s) = ok (contains_text s spent_phases)
in_spent (arr vs) = err (raised type_error)
in_spent (dict fs) = err (raised type_error)
in_spent _ = ok false

-- `r.get("request_sha256") == rh and r.get("phase") in spent`
unfoldable pub spends : String → Value → Result Bool
unfolding eq
spends request_hash (dict fs) =
    if eq (get_value "request_sha256" fs) (text request_hash)
    then in_spent (get_value "phase" fs)
    else ok false
spends request_hash _ = err (raised attribute_error)

-- Whether any record of the ledger spends the request.
unfoldable pub is_spent : String → List Value → Result Bool
unfolding spends
is_spent request_hash [] = ok false
is_spent request_hash (r ∷ rs) =
    let rest = is_spent request_hash rs in
    spends request_hash r >>= λ hit. if hit then ok true else rest

-- ===== src/Broker/Backend/Partial.antt =====
-- A drop-in that was written in part.
use mathlib.Core.Path.{subst}
use hermes_keel.Base.{
  ℕ, zero, suc, ◌+◌, ◌≤◌, String, ◌≡◌, ◌≢◌, refl, sym, ap, ◌∙◌, inl, inr, Option, some, List, [],
  ◌∷◌, arith, length, take,
}
use hermes_keel.Base.Result.{Error, err}
use hermes_keel.Json.{Value}
use hermes_keel.Json.Codec.{Codec}
use hermes_keel.Broker.Backend.Machine.{Machine, World}
use hermes_keel.Broker.Backend.Checks.{dropin_bytes, made_file}
use hermes_keel.Broker.Backend.Operations.{rollback}
use hermes_keel.Broker.Backend.Removed.{IsSealedFile, Unseals, rollback-Unseals}

take-take : (k n : ℕ) (xs : List ℕ) → length xs ≤ k → take k (take n xs) ≡ take n xs
take-take k n [] h = refl
take-take k zero (x ∷ xs) h = refl
take-take zero (suc n) (x ∷ xs) h = absurd (too_long h)
  where
    too_long : suc (length xs) ≤ 0 → ⊥
    too_long h = omega arith
take-take (suc k) (suc n) (x ∷ xs) h = ap (λ ys. x ∷ ys) (take-take k n xs (omega arith))

none≢some {ℓ} : {A : Type ℓ} (a : A) → Option.none ≡ some a → ⊥
none≢some a e = cc

some_injective {ℓ} : {A : Type ℓ} (a b : A) → Option.some a ≡ some b → a ≡ b
some_injective a b e = cc

module _ (c : Codec) (decode : List ℕ → String) where
  partial_unsealed :
      (n : ℕ)
      → c.sha256 (take n (dropin_bytes c decode)) ≢ c.sha256 (dropin_bytes c decode)
      → IsSealedFile c decode (made_file c decode n)
      → ⊥
  partial_unsealed n other sealed =
      other (
        ap c.sha256 (sym (take-take (length bytes + 1) n bytes (omega arith))) ∙ sealed.same_digest)
    where
      bytes : List ℕ
      bytes = dropin_bytes c decode

  -- If the write of `mutate` took only the first bytes of the drop-in, or none, then every `rollback`
  -- raises and leaves the file where it is, whatever the machine answers, as long as the digest of
  -- those bytes is not that of all of them.
  pub rollback_partial :
      {m : Machine} (req : Value) (n : ℕ) (w : World m)
      → w.dropin ≡ some (made_file c decode n)
      → c.sha256 (take n (dropin_bytes c decode)) ≢ c.sha256 (dropin_bytes c decode)
      → ((rollback c decode req w).1.dropin ≡ w.dropin)
        × ((e : Error) × ((rollback c decode req w).0 ≡ err e))
  rollback_partial {m} req n w there other = stays (rollback-Unseals c decode req w)
    where
      stays :
          Unseals c decode req w (rollback c decode req w)
          → ((rollback c decode req w).1.dropin ≡ w.dropin)
            × ((e : Error) × ((rollback c decode req w).0 ≡ err e))
      stays (inl (raised_, same, _, _)) = (same, raised_)
      stays (inr (_, inl nothing)) = absurd (none≢some _ (sym nothing ∙ there))
      stays (inr (_, inr (f, found, sealed))) = absurd (
          partial_unsealed n other
            (subst (IsSealedFile c decode) (some_injective f _ (sym found ∙ there)) sealed))

-- ===== src/Bench/Replays.antt =====
-- Sequences of operations under the oracle.
use hermes_keel.Base.{
  ℕ, suc, ◌+◌, ◌≡◌, inl, inr, Bool, true, false, none, List, [], ◌∷◌, ◌++◌, length, length-append,
  arith, Option-cases,
}
use hermes_keel.Bench.Oracle.{
  Operation, Rejection, Key, Oracle, key_in, key_of, reject_reason, apply, apply_all,
}

-- the keys of the operations that were accepted
abbrev pub accepted_keys : List Operation → List Bool → List Key
accepted_keys (o ∷ os) (true ∷ bs) = key_of o ∷ accepted_keys os bs
accepted_keys (o ∷ os) (false ∷ bs) = accepted_keys os bs
accepted_keys _ _ = []

-- no key of the first list is in the second, and none comes twice
abbrev pub IsFresh : List Key → List Key → Type 0
IsFresh [] used = Unit
IsFresh (k ∷ ks) used = (key_in k used ≡ false) × IsFresh ks (k ∷ used)

abbrev pub rejections : List Bool → ℕ
rejections [] = 0
rejections (true ∷ bs) = rejections bs
rejections (false ∷ bs) = suc (rejections bs)

accepted_fresh :
    (l : Oracle) (o : Operation) → reject_reason l o ≡ none → key_in (key_of o) l.used ≡ false
unfolding reject_reason
accepted_fresh l o h = ground arith

-- Over any sequence of calls, no accepted operation has the key of one accepted before it or already
-- used at the start, and the quarantine grows by one entry for each call that is rejected.
pub apply_all-IsFresh :
    (l : Oracle) (os : List Operation)
    → IsFresh (accepted_keys os (apply_all l os).0) l.used
      × (length (apply_all l os).1.quarantine ≡ length l.quarantine + rejections (apply_all l os).0)
unfolding apply_all apply
apply_all-IsFresh l [] = (tt, omega arith)
apply_all-IsFresh l (o ∷ os) = elim (Option-cases (reject_reason l o)) [
  | inl passed ↦
      let (fresh, counted) = apply_all-IsFresh (record l { used = key_of o ∷ l.used }) os in
      rw passed ((accepted_fresh l o passed, fresh), counted)
  | inr (reason, refused) ↦
      let entry : Rejection = record {
        operation = o.op;
        task_id = o.task;
        nonce = o.nonce;
        reason = reason;
      } in
      let (fresh, counted) =
        apply_all-IsFresh (record l { quarantine = l.quarantine ++ entry ∷ [] }) os in
      rw refused (fresh, omega (arith, counted, length-append l.quarantine (entry ∷ [])))
]

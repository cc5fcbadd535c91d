-- ===== src/Broker/Ledger/Atomic.antt =====
-- How an append ends, by the calls of `_atomic_write`.
use mathlib.Core.Path.{subst}
use hermes_keel.Base.Writing.{write_all, write_all_lem}
use hermes_keel.Base.{ap, sym, Bool-cases, true, ℕ, ◌≡◌, refl, ◌⊎◌, inl, inr, List}
use hermes_keel.Base.Result.{Result, ok, err, Error, raised, os_error, Result-cases, ◌>>=◌}
use hermes_keel.Json.{Value, Fields}
use hermes_keel.Json.Codec.{Codec}
use hermes_keel.Broker.Ledger.Chain.{Ledger, verify_chain}
use hermes_keel.Broker.Ledger.Append.{
  Outcome, next_generation, publish, atomic_write, after_write, after_generation, append_chain,
}

-- Every call of the write returned, and the writes together took all bytes of the payload.
pub record RanThrough (o : Outcome) (payload : List ℕ) : Type 0 where
  pub created : o.creates ≡ true
  pub complete : (write_all o.counts payload).1 ≡ true
  pub synced : o.syncs ≡ true
  pub renamed : o.renames ≡ true
  pub dir_synced : o.dir_syncs ≡ true

-- How an append ends: refused with the old ledger, or with the whole next generation in place. In
-- that case it returns the record of that generation, written and verified, or it raises.
abbrev pub IsAtomic :
    Codec → ℕ → Outcome → Ledger → List ℕ → Fields → Result Fields × Ledger → Type 0
IsAtomic c euid outcome l key body (r, l') =
    ((e : Error) × (r ≡ err e) × (l' ≡ l))
    ⊎ ((rec : Fields) × (payload : List ℕ) × (next_generation c euid l key body ≡ ok (rec, payload))
        × (l' ≡ publish c euid payload l)
        × (((e : Error) × (r ≡ err e))
            ⊎ ((r ≡ ok rec)
                × RanThrough outcome payload
                × (rs : List Value) × (verify_chain c euid l' key ≡ ok rs))))

verified_write :
    (c : Codec) (euid : ℕ) (l : Ledger) (key : List ℕ) (rec : Fields)
    → ((e : Error) × ((verify_chain c euid l key >>= (λ _. ok rec)) ≡ err e))
      ⊎ (((verify_chain c euid l key >>= (λ _. ok rec)) ≡ ok rec)
          × ((rs : List Value) × (verify_chain c euid l key ≡ ok rs)))
verified_write c euid l key rec = elim (Result-cases (verify_chain c euid l key)) [
  | inl (e, refused) ↦ inl (e, rw refused refl)
  | inr (rs, verified) ↦ inr (rw verified refl, (rs, verified))
]

-- How a write ends: the ledger as it was, or the whole payload in its place.
abbrev IsWhole : Codec → ℕ → Outcome → List ℕ → Ledger → Result (Unit {0}) × Ledger → Type 0
IsWhole c euid o payload l (r, l') =
    ((e : Error) × (r ≡ err e) × (l' ≡ l))
    ⊎ ((l' ≡ publish c euid payload l)
        × (((e : Error) × (r ≡ err e)) ⊎ ((r ≡ ok tt) × RanThrough o payload)))

atomic_write_done :
    (c : Codec) (euid : ℕ) (o : Outcome) (payload : List ℕ) (l : Ledger)
    → RanThrough o payload
    → atomic_write c euid o payload l ≡ (ok tt, publish c euid payload l)
unfolding atomic_write
atomic_write_done c euid o payload l ran =
    rw (ran.created, ran.complete, ran.synced, ran.renamed, ran.dir_synced)
      (ap (λ bytes. (ok tt, publish c euid bytes l)) (write_all_lem o.counts payload ran.complete))

-- The temporary file takes the place of the ledger only after all bytes are in it.
atomic_write-IsWhole :
    (c : Codec) (euid : ℕ) (o : Outcome) (payload : List ℕ) (l : Ledger)
    → IsWhole c euid o payload l (atomic_write c euid o payload l)
unfolding atomic_write
atomic_write-IsWhole c euid o payload l = elim (Bool-cases o.creates) [
  | inr absent ↦ rw (absent) (inl (raised os_error, refl, refl))
  | inl created ↦ elim (Bool-cases (write_all o.counts payload).1) [
    | inr short ↦
        rw (created, short)
          (inl (
            raised os_error,
            refl,
            elim (Bool-cases o.unlinks) [ inl gone ↦ rw (gone) refl | inr left ↦ rw (left) refl ],
          ))
    | inl complete ↦
        let whole =
          ap (λ bytes. publish c euid bytes l) (write_all_lem o.counts payload complete) in
        elim (Bool-cases o.syncs) [
          | inr unsynced ↦
              rw (created, complete, unsynced)
                (inl (
                  raised os_error,
                  refl,
                  elim (Bool-cases o.unlinks) [
                    | inl gone ↦ rw (gone) refl
                    | inr left ↦ rw (left) refl
                  ],
                ))
          | inl synced ↦ elim (Bool-cases o.renames) [
            | inr kept ↦
                rw (created, complete, synced, kept)
                  (inl (
                    raised os_error,
                    refl,
                    elim (Bool-cases o.unlinks) [
                      | inl gone ↦ rw (gone) refl
                      | inr left ↦ rw (left) refl
                    ],
                  ))
            | inl renamed ↦ elim (Bool-cases o.dir_syncs) [
              | inr lost ↦
                  rw (created, complete, synced, renamed, lost)
                    (inr (
                      elim (Bool-cases o.unlinks) [
                        | inl gone ↦ rw (gone) whole
                        | inr left ↦ rw (left) whole
                      ],
                      inl (raised os_error, refl),
                    ))
              | inl done ↦
                  let ran : RanThrough o payload = record {
                    created = created;
                    complete = complete;
                    synced = synced;
                    renamed = renamed;
                    dir_synced = done;
                  } in
                  subst (IsWhole c euid o payload l)
                    (sym (atomic_write_done c euid o payload l ran)) (inr (refl, inr (refl, ran)))
            ]
          ]
        ]
  ]
]

after_write-IsAtomic :
    (c : Codec) (euid : ℕ) (outcome : Outcome) (l : Ledger) (key : List ℕ) (body rec : Fields)
    (payload : List ℕ) (x : Result (Unit {0}) × Ledger)
    → next_generation c euid l key body ≡ ok (rec, payload)
    → IsWhole c euid outcome payload l x
    → IsAtomic c euid outcome l key body (after_write c euid key rec x)
after_write-IsAtomic c euid outcome l key body rec payload (err e, l') next (inl (_, _, same)) =
    inl (e, refl, same)
after_write-IsAtomic c euid outcome l key body rec payload (err e, l') next (inr (at_, _)) =
    inr (rec, payload, next, at_, inl (e, refl))
after_write-IsAtomic c euid outcome l key body rec payload (ok _, l') next (inl (_, h, _)) = cc
after_write-IsAtomic c euid outcome l key body rec payload (ok _, l') next (inr (at_, inl (_, h))) =
    cc
after_write-IsAtomic c euid outcome l key body rec payload (ok _, l') next
      (inr (at_, inr (_, ran))) =
    elim (verified_write c euid l' key rec) [
      | inl refused ↦ inr (rec, payload, next, at_, inl refused)
      | inr (returned, (rs, verified)) ↦
          inr (rec, payload, next, at_, inr (returned, ran, rs, verified))
    ]

after_generation-IsAtomic :
    (c : Codec) (euid : ℕ) (outcome : Outcome) (l : Ledger) (key : List ℕ) (body : Fields)
    (next : Result (Fields × List ℕ))
    → next_generation c euid l key body ≡ next
    → IsAtomic c euid outcome l key body (after_generation c euid outcome l key next)
after_generation-IsAtomic c euid outcome l key body (err e) next = inl (e, refl, refl)
after_generation-IsAtomic c euid outcome l key body (ok (rec, payload)) next =
    after_write-IsAtomic c euid outcome l key body rec payload
      (atomic_write c euid outcome payload l) next (atomic_write-IsWhole c euid outcome payload l)

-- However the write ends, `append_chain` raises and leaves the ledger as it was, or it leaves the
-- whole next generation in its place, with the temporary file filled in as many writes as it took. It
-- returns a record only in the second case, only if all bytes were written and every call of
-- `_atomic_write` returned, and only if `verify_chain` accepts the new ledger.
pub append_chain-IsAtomic :
    (c : Codec) (euid : ℕ) (outcome : Outcome) (l : Ledger) (key : List ℕ) (body : Fields)
    → IsAtomic c euid outcome l key body (append_chain c euid outcome l key body)
unfolding append_chain
append_chain-IsAtomic c euid outcome l key body =
    after_generation-IsAtomic c euid outcome l key body _ refl

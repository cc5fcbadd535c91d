-- ===== src/Broker/Ledger/Append.antt =====
-- `append_chain`: the next generation of the ledger, published by one rename.
use hermes_keel.Base.{
  if◌then◌else◌, Bool, true, false, Option, ℕ, ◌+◌, String, none, some, List, [], ◌∷◌, ◌++◌, length,
  get_last?,
}
use hermes_keel.Base.Writing.{write_all}
use hermes_keel.Base.Int.{pos}
use hermes_keel.Base.Result.{Result, ok, err, raised, os_error, ◌>>=◌}
use hermes_keel.Json.{Value, num, text, dict, Fields, put}
use hermes_keel.Json.Access.{item}
use hermes_keel.Json.Codec.{Codec}
use hermes_keel.Broker.Ledger.File.{File, regular}
use hermes_keel.Broker.Ledger.Chain.{
  Ledger, no_hash, digest, receipt_mac, checkpoint_key, tip, verify_chain,
}

-- How the calls of `_atomic_write` end: whether the temporary file is created, what each `os.write`
-- returns until one raises, and whether `os.fsync` and `os.close`, `os.replace` and the sync of the
-- directory return.
pub record Outcome : Type 0 where
  pub creates : Bool
  pub counts : List ℕ
  pub syncs : Bool
  pub renames : Bool
  pub dir_syncs : Bool
  pub unlinks : Bool

-- The two names of the directory that `_atomic_write` acts on.
pub record Directory : Type 0 where
  pub target : Option File
  pub temp : Option File

abbrev pub Change : Type 0
Change = Directory → Result (Unit {0}) × Directory

abbrev pub then_change : Result (Unit {0}) × Directory → Change → Result (Unit {0}) × Directory
then_change (ok _, d) next = next d
then_change (err e, d) next = (err e, d)

-- `return` or an `OSError`
abbrev pub returns : Bool → Result (Unit {0})
returns true = ok tt
returns false = err (raised os_error)

module _ (euid : ℕ) (o : Outcome) (payload : List ℕ) where
  -- a file of mode 0o600
  abbrev pub private_file : List ℕ → File
  private_file bytes = record { kind = regular; owner = euid; mode = 384; content = bytes }

  -- `os.open(tmp, …)` with `O_EXCL`
  abbrev pub create_temp : Change
  create_temp d =
      if o.creates
      then (ok tt, record d { temp = some (private_file []) })
      else (err (raised os_error), d)

  -- the loop over `os.write`
  abbrev pub fill_temp : Change
  fill_temp d =
      let (bytes, complete) = write_all o.counts payload in
      (returns complete, record d { temp = some (private_file bytes) })

  abbrev pub sync_temp : Change
  sync_temp d = (returns o.syncs, d)

  -- `os.replace(tmp, path)`
  abbrev pub replace_target : Change
  replace_target d =
      if o.renames
      then (ok tt, record { target = d.temp; temp = none })
      else (err (raised os_error), d)

  abbrev pub sync_directory : Change
  sync_directory d = (returns o.dir_syncs, d)

  -- the handler, in which a file that is gone already is no error
  abbrev pub unlink_temp : Result (Unit {0}) × Directory → Result (Unit {0}) × Directory
  unlink_temp (ok _, d) = (ok tt, d)
  unlink_temp (err e, d) = (err e, if o.unlinks then record d { temp = none } else d)

  -- the block of the `try`
  abbrev pub fill_and_replace : Change
  fill_and_replace d =
      then_change (then_change (then_change (fill_temp d) sync_temp) replace_target) sync_directory

  unfoldable pub replace_file : Change
  unfolding write_all
  replace_file d = then_change (create_temp d) (λ d'. unlink_temp (fill_and_replace d'))

module _ (c : Codec) where
  -- `b"".join(canonical(record) + b"\n" for record in …)`
  unfoldable pub lines : List Value → List ℕ
  lines [] = []
  lines (v ∷ vs) = c.dumps v ++ 10 ∷ lines vs

  -- `prior[-1]["record_hash"] if prior else "0" * 64`
  unfoldable pub previous_hash : List Value → Result Value
  previous_hash prior = elim (get_last? prior) [
    | none ↦ ok (text no_hash)
    | some r ↦ item "record_hash" r
  ]

  -- `chained`
  abbrev pub chain_body : List Value → Value → Fields → Fields
  chain_body prior previous body =
      put "previous_hash" previous (put "sequence" (num (pos (length prior + 1))) body)

  -- `rec`, of `chained`
  unfoldable pub sealed_record : List ℕ → Fields → Fields
  sealed_record key chained =
      let h = digest c (dict chained) in
      put "mac" (text (receipt_mac c key (put "record_hash" (text h) chained)))
        (put "record_hash" (text h) chained)

  -- `sealed`, of `rec`
  unfoldable pub sealed_tip : String → List ℕ → Fields → Result Fields
  unfolding tip
  sealed_tip path key rec = do
    sequence ← item "sequence" (dict rec)
    record_hash ← item "record_hash" (dict rec)
    let checkpoint = tip c path sequence record_hash rec
    ok (put "mac" (text (receipt_mac c (checkpoint_key c key) checkpoint)) checkpoint)

  -- The record and the bytes of the next generation.
  unfoldable pub next_generation : ℕ → Ledger → List ℕ → Fields → Result (Fields × List ℕ)
  unfolding verify_chain previous_hash sealed_record sealed_tip lines
  next_generation euid l key body = do
    prior ← elim l.file [ none ↦ ok [] | some f ↦ verify_chain c euid l key ]
    previous ← previous_hash prior
    let rec = sealed_record key (chain_body prior previous body)
    closing ← sealed_tip l.path key rec
    ok (rec, lines (prior ++ dict rec ∷ dict closing ∷ []))

  -- The ledger with these bytes in place.
  abbrev pub publish : ℕ → List ℕ → Ledger → Ledger
  publish euid payload l = record l {
    file = some (record { kind = regular; owner = euid; mode = 384; content = payload });
  }

  -- `_atomic_write`; a temporary file that is left is no part of the ledger
  unfoldable pub atomic_write : ℕ → Outcome → List ℕ → Ledger → Result (Unit {0}) × Ledger
  unfolding replace_file
  atomic_write euid o payload l =
      let (r, d) = replace_file euid o payload (record { target = l.file; temp = none }) in
      (r, record l { file = d.target })

  abbrev pub after_write : ℕ → List ℕ → Fields → Result (Unit {0}) × Ledger → Result Fields × Ledger
  after_write euid key rec (err e, l) = (err e, l)
  after_write euid key rec (ok _, l) = (verify_chain c euid l key >>= (λ _. ok rec), l)

  abbrev pub after_generation :
      ℕ → Outcome → Ledger → List ℕ → Result (Fields × List ℕ) → Result Fields × Ledger
  after_generation euid outcome l key (err e) = (err e, l)
  after_generation euid outcome l key (ok (rec, payload)) =
      after_write euid key rec (atomic_write euid outcome payload l)

  unfoldable pub append_chain : ℕ → Outcome → Ledger → List ℕ → Fields → Result Fields × Ledger
  unfolding next_generation atomic_write
  append_chain euid outcome l key body =
      after_generation euid outcome l key (next_generation euid l key body)

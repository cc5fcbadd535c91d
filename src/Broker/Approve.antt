-- ===== src/Broker/Approve.antt =====
-- `approve` and `_durable_append`: the captain's approval of a request.
pub mod Signed
pub mod Tests
use hermes_keel.Base.{
  ℕ, String, Bool, true, false, ◌&&◌, Option, none, some, List, [], ◌∷◌, ◌++◌, take, if◌then◌else◌,
}
use hermes_keel.Base.Int.{ℤ}
use hermes_keel.Base.Result.{Result, Error, ok, err, raised, os_error, ◌>>=◌, ◌>>◌}
use hermes_keel.Base.Writing.{Writing, write_all}
use hermes_keel.Json.{Value, num, text, dict, Fields, fields, put}
use hermes_keel.Json.Access.{item}
use hermes_keel.Json.Codec.{Codec}
use hermes_keel.Broker.Config.{host}
use hermes_keel.Broker.Request.{validate_request}
use hermes_keel.Broker.Authority.{BoardFile, open_bound_board}
use hermes_keel.Broker.Ledger.File.{File, regular, symlink, special}
use hermes_keel.Broker.Ledger.Chain.{digest, receipt_mac}
use hermes_keel.Broker.Execute.Steps.{Job}
use hermes_keel.Broker.Execute.Run.{job_of}

-- How the calls that write the queue's file end: whether its temporary file is created, written to and
-- synced, the number of bytes that the one `os.write` takes, and whether `os.replace` and the sync of
-- the directory return.
pub record Queueing : Type 0 where
  pub makes : Bool
  pub count : ℕ
  pub renames : Bool
  pub dir_syncs : Bool

-- The file of approvals, and the bytes of the queue's file if it is there.
pub record Desk : Type 0 where
  pub approvals : Option File
  pub queue : Option (List ℕ)

-- Whether `os.open` with `O_NOFOLLOW` gives a file to append to, and the file with the bytes added.
abbrev pub is_open : Option File → Bool
is_open none = true
is_open (some f) = elim f.kind [ regular ↦ true | _ ↦ false ]

abbrev pub extended : ℕ → Option File → List ℕ → Option File
extended euid none bytes =
    some (record { kind = regular; owner = euid; mode = 384; content = bytes })
extended euid (some f) bytes = some (record f { content = f.content ++ bytes })

-- `_durable_append`; the last argument is whether the sync of the directory returns
unfoldable pub durable_append :
    ℕ → Writing → Bool → List ℕ → Option File → Result (Unit {0}) × Option File
durable_append euid how dir_syncs payload file =
    if how.opens && is_open file
    then (let (bytes, complete) = write_all how.counts payload in
        (
          if complete && how.syncs && dir_syncs then ok tt else err (raised os_error),
          extended euid file bytes,
        ))
    else (err (raised os_error), file)

module _ (c : Codec) (key : List ℕ) where
  -- the body of the approval
  unfoldable pub approval_body : Job → Value → Fields → ℤ → ℤ → Fields
  approval_body j expires identity captain_uid now = fields (
      ("type", text "captain-approval")
      ∷ ("request_sha256", text (digest c j.request))
      ∷ ("operation_id", j.operation_id)
      ∷ ("target_host", text host)
      ∷ ("task", text j.task)
      ∷ ("run", num j.run)
      ∷ ("nonce_sha256", text (c.sha256 (c.encode j.nonce)))
      ∷ ("expires_at", expires)
      ∷ ("captain_uid", num captain_uid)
      ∷ ("approved_at", num now)
      ∷ ("board_connection_identity", dict identity)
      ∷ [])

  -- up to `rec`
  unfoldable pub approval : ℕ → BoardFile → Value → ℤ → ℤ → Result Fields
  unfolding approval_body
  approval euid board req captain_uid now = do
    validate_request c req now
    j ← job_of req
    identity ← open_bound_board euid board req j.task j.run (digest c req) false
    expires ← item "expires_at" req
    let body = approval_body j expires identity captain_uid now
    ok (put "mac" (text (receipt_mac c key body)) body)

  abbrev pub queue_up : Value → Queueing → Desk → Result (Unit {0}) × Desk
  queue_up req q d =
      if q.makes && q.renames
      then (
        if q.dir_syncs then ok tt else err (raised os_error),
        record d { queue = some (take q.count (c.dumps req ++ 10 ∷ [])) },
      )
      else (err (raised os_error), d)

  abbrev pub finish_queue : Fields → Value → Option Queueing → Desk → Result Fields × Desk
  finish_queue rec req none d = (ok rec, d)
  finish_queue rec req (some q) d = let (r, d') = queue_up req q d in (r >> ok rec, d')

  abbrev pub after_append :
      Fields
      → Value
      → Option Queueing
      → Desk
      → Result (Unit {0}) × Option File
      → Result Fields × Desk
  after_append rec req queue d (ok _, file) =
      finish_queue rec req queue (record d { approvals = file })
  after_append rec req queue d (err e, file) = (err e, record d { approvals = file })

  abbrev pub record_approval :
      ℕ → Writing → Bool → Option Queueing → Desk → Value → Result Fields → Result Fields × Desk
  record_approval euid how dir_syncs queue d req (err e) = (err e, d)
  record_approval euid how dir_syncs queue d req (ok rec) =
      after_append rec req queue d
        (durable_append euid how dir_syncs (c.dumps (dict rec) ++ 10 ∷ []) d.approvals)

  unfoldable pub approve :
      ℕ → BoardFile → Writing → Bool → Option Queueing → Value → ℤ → ℤ → Desk → Result Fields × Desk
  unfolding approval
  approve euid board how dir_syncs queue req captain_uid now d =
      record_approval euid how dir_syncs queue d req (approval euid board req captain_uid now)

-- ===== src/Broker/Approve/Signed.antt =====
-- What has happened when `approve` returns.
use hermes_keel.Base.{
  ℕ, ◌≡◌, refl, sym, ap, ◌∙◌, Bool, true, false, ◌&&◌, Option, none, some, List, [], ◌∷◌, ◌++◌,
  arith, Bool-cases, inl, inr,
}
use hermes_keel.Base.Int.{ℤ}
use hermes_keel.Base.Result.{Result, ok, err, ok_injective, >>=-eq-ok, >>-eq-ok}
use hermes_keel.Base.Writing.{Writing, write_all, write_all_lem}
use hermes_keel.Json.{Value, text, dict, Fields, put}
use hermes_keel.Json.Access.{item}
use hermes_keel.Json.Codec.{Codec}
use hermes_keel.Broker.Request.{validate_request}
use hermes_keel.Broker.Authority.{BoardFile, open_bound_board}
use hermes_keel.Broker.Authority.Laws.{Authorised, task_active_iff}
use hermes_keel.Broker.Authority.Drift.{open_bound_board-task_active}
use hermes_keel.Broker.Ledger.File.{File}
use hermes_keel.Broker.Ledger.Chain.{digest, receipt_mac}
use hermes_keel.Broker.Execute.Steps.{Job}
use hermes_keel.Broker.Execute.Run.{job_of}
use hermes_keel.Broker.Approve.{
  Queueing, Desk, is_open, extended, durable_append, approval_body, approval, queue_up,
  finish_queue, after_append, record_approval, approve,
}

-- What is known of a record that `approve` has signed.
pub record Signed (c : Codec) (key : List ℕ) (board : BoardFile) (req : Value) (captain_uid now : ℤ)
    (rec : Fields) : Type 0 where
  pub valid : validate_request c req now ≡ ok tt
  pub job : Job
  pub job_found : job_of req ≡ ok job
  pub authorised : Authorised board.board job.task job.run (digest c req)
  pub identity : Fields
  pub expires : Value
  pub expires_found : item "expires_at" req ≡ ok expires
  pub made :
      rec
      ≡ put "mac"
          (text (receipt_mac c key (approval_body c key job expires identity captain_uid now)))
          (approval_body c key job expires identity captain_uid now)

durable_append_lem :
    (euid : ℕ) (how : Writing) (dir_syncs : Bool) (payload : List ℕ) (file : Option File)
    → (durable_append euid how dir_syncs payload file).0 ≡ ok tt
    → (durable_append euid how dir_syncs payload file).1 ≡ extended euid file payload
unfolding durable_append
durable_append_lem euid how dir_syncs payload file h =
    elim (Bool-cases (how.opens && is_open file)) [
      | inr closed ↦ absurd (ground (arith, closed, h))
      | inl usable ↦
          let complete : (write_all how.counts payload).1 ≡ true = ground (arith, usable, h) in
          rw usable (ap (extended euid file) (write_all_lem how.counts payload complete))
    ]

module _ (c : Codec) (key : List ℕ) where
  approval-Signed :
      (euid : ℕ) (board : BoardFile) (req : Value) (captain_uid now : ℤ) (rec : Fields)
      → approval c key euid board req captain_uid now ≡ ok rec
      → Signed c key board req captain_uid now rec
  unfolding approval
  approval-Signed euid board req captain_uid now rec e =
      let (valid, e1) = >>-eq-ok (validate_request c req now) _ e in
      let (j, found, e2) = >>=-eq-ok (job_of req) _ e1 in
      let (identity, opened, e3) =
        >>=-eq-ok (open_bound_board euid board req j.task j.run (digest c req) false) _ e2 in
      let (expires, at, e4) = >>=-eq-ok (item "expires_at" req) _ e3 in
      record {
        valid = valid;
        job = j;
        job_found = found;
        authorised =
            (task_active_iff board.board j.task j.run (digest c req)).0 (
              open_bound_board-task_active euid board req j.task j.run (digest c req) false opened);
        identity = identity;
        expires = expires;
        expires_found = at;
        made = sym (ok_injective _ _ e4);
      }

  queue_up_lem :
      (req : Value) (q : Queueing) (d : Desk) → (queue_up c key req q d).1.approvals ≡ d.approvals
  queue_up_lem req q d = ground arith

  finish_queue_lem :
      (rec : Fields) (req : Value) (queue : Option Queueing) (d : Desk) {r : Fields}
      → (finish_queue c key rec req queue d).0 ≡ ok r
      → (r ≡ rec) × ((finish_queue c key rec req queue d).1.approvals ≡ d.approvals)
  finish_queue_lem rec req none d e = (sym (ok_injective _ _ e), refl)
  finish_queue_lem rec req (some q) d e =
      let (_, returned) = >>-eq-ok (queue_up c key req q d).0 _ e in
      (sym (ok_injective _ _ returned), queue_up_lem req q d)

  after_append_lem :
      (rec : Fields) (req : Value) (queue : Option Queueing) (d : Desk)
      (x : Result (Unit {0}) × Option File) {r : Fields}
      → (after_append c key rec req queue d x).0 ≡ ok r
      → (r ≡ rec) × (x.0 ≡ ok tt) × ((after_append c key rec req queue d x).1.approvals ≡ x.1)
  after_append_lem rec req queue d (ok _, file) e =
      let (same, kept) = finish_queue_lem rec req queue (record d { approvals = file }) e in
      (same, refl, kept)
  after_append_lem rec req queue d (err x, file) e = cc

  record_approval_lem :
      (euid : ℕ) (how : Writing) (dir_syncs : Bool) (queue : Option Queueing) (d : Desk)
      (req : Value) (made : Result Fields) {r : Fields}
      → (record_approval c key euid how dir_syncs queue d req made).0 ≡ ok r
      → (made ≡ ok r)
        × ((record_approval c key euid how dir_syncs queue d req made).1.approvals
            ≡ extended euid d.approvals (c.dumps (dict r) ++ 10 ∷ []))
  record_approval_lem euid how dir_syncs queue d req (err x) e = cc
  record_approval_lem euid how dir_syncs queue d req (ok rec) e =
      let payload = c.dumps (dict rec) ++ 10 ∷ [] in
      let (same, written_ok, kept) =
        after_append_lem rec req queue d (durable_append euid how dir_syncs payload d.approvals)
          e in
      (
        ap ok (sym same),
        kept
            ∙ durable_append_lem euid how dir_syncs payload d.approvals written_ok
            ∙ ap (λ r. extended euid d.approvals (c.dumps (dict r) ++ 10 ∷ [])) (sym same),
      )

  -- If `approve` returns a record, then the request is valid, the board authorises its task and run,
  -- the record names the request by its digest and carries the MAC of its body, and the file of
  -- approvals is the old one with the line of exactly this record at its end.
  pub approve-Signed :
      (euid : ℕ) (board : BoardFile) (how : Writing) (dir_syncs : Bool) (queue : Option Queueing)
      (req : Value) (captain_uid now : ℤ) (d : Desk) (rec : Fields)
      → (approve c key euid board how dir_syncs queue req captain_uid now d).0 ≡ ok rec
      → Signed c key board req captain_uid now rec
        × ((approve c key euid board how dir_syncs queue req captain_uid now d).1.approvals
            ≡ extended euid d.approvals (c.dumps (dict rec) ++ 10 ∷ []))
  unfolding approve
  approve-Signed euid board how dir_syncs queue req captain_uid now d rec e =
      let (made, kept) = record_approval_lem euid how dir_syncs queue d req _ e in
      (approval-Signed euid board req captain_uid now rec made, kept)

-- ===== src/Bootstrap/Run.antt =====
-- `main` of phase0_bootstrap.py.
use hermes_keel.Base.{
  ℕ, String, Bool, true, false, not, ◌&&◌, ◌||◌, Option, none, some, List, [], ◌∷◌, ◌++◌, ◌==◌,
  if◌then◌else◌, take, length,
}
use hermes_keel.Base.Int.{ℤ, pos}
use hermes_keel.Base.Result.{
  Result, ok, err, rejected, raised, os_error, value_error, attribute_error, type_error, or_raise,
  reject_if, ◌>>=◌, ◌>>◌,
}
use hermes_keel.Json.{Value, bool, num, text, dict, Fields, fields}
use hermes_keel.Json.Equality.{eq}
use hermes_keel.Json.Access.{as_dict, is_text}
use hermes_keel.Json.Codec.{Codec}
use hermes_keel.Broker.Ledger.File.{File}
use hermes_keel.Broker.Ledger.Chain.{digest, get_value}
use hermes_keel.Broker.Request.{make_request, sealed_package}
use hermes_keel.Package.Verify.{Directory}
use hermes_keel.Bootstrap.Binding.{Binding, read_binding}
use hermes_keel.Bootstrap.Fence.{CeremonyBoard, open_fence}
use hermes_keel.Bootstrap.Source.{Staging, Copying, is_failure, seal}

-- How `_write_exclusive` goes on a path that is free: whether it opens, how many of a number of
-- bytes its one `os.write` takes, and whether `os.fsync` returns.
pub record FileWrite : Type 0 where
  pub opens : Bool
  pub takes : ℕ → ℕ
  pub syncs : Bool

-- what a write of these bytes leaves in the file
abbrev pub taken : FileWrite → List ℕ → List ℕ
taken how bytes = take (how.takes (length bytes)) bytes

-- What a run finds. `fixture` is `_fixture()`, `is_slash` whether the root of the installation is `/`.
-- `captain` owns the binding and the source. `installs` is whether install.sh returns 0; where it does
-- not, `leaves` is whether it has left an authority installed. `pre_state` is what capturing or reading the pre-state gives.
pub record Scene : Type 0 where
  pub has_arguments : Bool
  pub fixture : Bool
  pub is_root : Bool
  pub is_slash : Bool
  pub captain : ℕ
  pub now : ℤ
  pub fail_after : Option String
  pub binding_file : Option File
  pub board : CeremonyBoard
  pub source : Option Directory
  pub copying : Copying
  pub installs : Bool
  pub leaves : Bool
  pub pre_state : Result Value
  pub nonce : String
  pub time : ℤ
  pub package_path : String
  pub request_path : String
  pub makes_directory : Bool
  pub request_write : FileWrite
  pub receipt_write : FileWrite
  pub directory_syncs : Bool

-- What a run changes: the trusted copy, the authority that the installer publishes, and the files of
-- the request and of the receipt.
pub record Site : Type 0 where
  pub staging : Staging
  pub installed : Bool
  pub request : Option (List ℕ)
  pub receipt : Option (List ℕ)

-- The site with `sealed_this_run` and `installed_this_run`.
pub record World : Type 0 where
  pub site : Site
  pub sealed_now : Bool
  pub installed_now : Bool

abbrev pub starting : Site → World
starting site = record { site = site; sealed_now = false; installed_now = false }

abbrev pub Step : Type 0
Step = World → Result (Unit {0}) × World

infixl 5 ◌then_do◌
abbrev pub ◌then_do◌ : Result (Unit {0}) × World → Step → Result (Unit {0}) × World
(ok tt, w) then_do next = next w
(err e, w) then_do next = (err e, w)

-- a call of the system that returns or raises, and changes nothing of the site's files
abbrev pub call_of : Bool → Step
call_of works w = (if works then ok tt else err (raised os_error), w)

-- `request_bytes.rstrip(b"\n")`
unfoldable pub rstrip_newlines : List ℕ → List ℕ
rstrip_newlines [] = []
rstrip_newlines (b ∷ bs) = elim (rstrip_newlines bs) [
  | [] ↦ if b == 10 then [] else b ∷ []
  | (x ∷ xs) ↦ b ∷ x ∷ xs
]

-- `_write_exclusive` and what then stands at the path
unfoldable pub write_exclusive :
    FileWrite → List ℕ → Option (List ℕ) → Result (Unit {0}) × Option (List ℕ)
write_exclusive how bytes (some standing) = (err (raised os_error), some standing)
write_exclusive how bytes none =
    if how.opens
    then (if how.syncs then ok tt else err (raised os_error), some (taken how bytes))
    else (err (raised os_error), none)

abbrev pub set_request : Result (Unit {0}) × Option (List ℕ) → Step
set_request (r, file) w = (r, record w { site = record w.site { request = file } })

abbrev pub set_receipt : Result (Unit {0}) × Option (List ℕ) → Step
set_receipt (r, file) w = (r, record w { site = record w.site { receipt = file } })

abbrev pub set_staging : Result (Unit {0}) × Staging → Step
set_staging (ok tt, staging) w =
    (ok tt, record w { site = record w.site { staging = staging }; sealed_now = true })
set_staging (err e, staging) w = (err e, record w { site = record w.site { staging = staging } })

-- `Path(packet["board"])`
unfoldable pub check_board_path : Binding → Result Binding
check_board_path b = if is_text (get_value "board" b.packet) then ok b else err (raised type_error)

module _ (s : Scene) where
  -- `_configuration`
  unfoldable pub configuration : Result (Unit {0})
  configuration = do
    reject_if s.has_arguments "phase0-accepts-no-arguments"
    reject_if (not s.fixture && not s.is_root) "root-required"

  abbrev pub fail_point : Option String
  fail_point = if s.fixture then s.fail_after else none

  unfoldable pub inject : String → String → Step
  inject point message w = (reject_if (is_failure fail_point point) message, w)

  unfoldable pub install : Step
  install w =
      if s.installs
      then (ok tt, record w { site = record w.site { installed = true }; installed_now = true })
      else (
        err (rejected "installer-failed:"),
        if s.leaves then record w { site = record w.site { installed = true } } else w,
      )

  -- the handler: what it takes back of this run
  unfoldable pub take_back : World → Site
  take_back w =
      let site = w.site in
      let removed =
        if w.installed_now && (not s.is_slash || s.fixture)
        then record site { installed = false; request = none; receipt = none }
        else site in
      if w.sealed_now
      then record removed { staging = record removed.staging { trusted = none } }
      else removed

  unfoldable pub conclude : Result (Unit {0}) × World → Result ℕ × Site
  unfolding take_back
  conclude (ok _, w) = (ok 0, w.site)
  conclude (err e, w) = (ok 1, take_back w)

module _ (c : Codec) (b : Binding) where
  -- the test of an earlier receipt against the digest of the request's file
  abbrev pub drifts : Fields → String → Bool
  drifts audit request_hash =
      not (eq (get_value "schema" audit) (text "keel.phase0-bootstrap-receipt.v1"))
      || not (eq (get_value "manifest_sha256" audit) (text b.manifest_sha256))
      || not (eq (get_value "binding_sha256" audit) (text b.hash))
      || not (eq (get_value "request_sha256" audit) (text request_hash))

  -- the receipt and the request of an earlier run
  unfoldable pub check_existing : List ℕ → List ℕ → Result (Unit {0})
  unfolding rstrip_newlines eq
  check_existing receipt request = do
    v ← or_raise (c.loads receipt) (raised value_error)
    audit ← or_raise (as_dict v) (raised attribute_error)
    reject_if (drifts audit (c.sha256 (rstrip_newlines request))) "existing-phase0-receipt-drift"

module _ (c : Codec) (s : Scene) where
  module _ (b : Binding) where
    -- the request of the first phase
    unfoldable pub phase1_request : Value → Result Value
    unfolding make_request sealed_package
    phase1_request pre_state =
        make_request c b.task b.run s.nonce s.time (pos 1800) (some pre_state)
          (some (sealed_package (text s.package_path) (text b.manifest_sha256)))

    -- `audit`
    unfoldable pub audit : Value → Fields
    audit req = fields (
        ("schema", text "keel.phase0-bootstrap-receipt.v1")
        ∷ ("acceptanceClaim", bool false)
        ∷ ("phase1_schema", text "ollama-system-runtime-switch-v2")
        ∷ ("task", text b.task)
        ∷ ("run", num b.run)
        ∷ ("sealed_package", text s.package_path)
        ∷ ("manifest_sha256", text b.manifest_sha256)
        ∷ ("binding_sha256", text b.hash)
        ∷ ("request", text s.request_path)
        ∷ ("request_sha256", text (digest c req))
        ∷ (
          "effects",
          dict (
              fields (
                ("broker_installed", bool true)
                ∷ ("ollama_mutated", bool false)
                ∷ ("authorization_consumed", bool false)
                ∷ [])),
        )
        ∷ [])

    unfoldable pub write_request : Value → Step
    unfolding write_exclusive
    write_request req w =
        set_request (write_exclusive s.request_write (c.dumps req ++ 10 ∷ []) w.site.request) w

    unfoldable pub write_receipt : Value → Step
    unfolding write_exclusive audit
    write_receipt req w =
        set_receipt
          (write_exclusive s.receipt_write (c.dumps (dict (audit req)) ++ 10 ∷ []) w.site.receipt) w

    -- what needs the request: the two files
    unfoldable pub emit : Result Value → Step
    unfolding write_request write_receipt
    emit (err e) w = (err e, w)
    emit (ok req) w =
        call_of s.makes_directory w
        then_do write_request req
        then_do write_receipt req
        then_do call_of s.directory_syncs

    -- a run that finds no earlier one
    unfoldable pub fresh : Step
    unfolding seal inject install phase1_request emit
    fresh w =
        set_staging
          (seal c s.captain b.manifest_sha256 (fail_point s) s.source s.copying w.site.staging) w
        then_do inject s "trusted-publication" "injected-trusted-publication"
        then_do install s
        then_do inject s "installed" "injected-installed"
        then_do emit (s.pre_state >>= phase1_request)

    abbrev pub resume : Option (List ℕ) → Option (List ℕ) → Step
    resume (some receipt) (some request) w = (check_existing c b receipt request, w)
    resume (some receipt) none w = fresh w
    resume none request w = fresh w

    abbrev pub after_fence : Result (Unit {0}) → Step
    after_fence (err e) w = (err e, w)
    after_fence (ok _) w = resume w.site.receipt w.site.request w

    unfoldable pub ceremony : Site → Result ℕ × Site
    unfolding open_fence check_existing fresh conclude
    ceremony site = conclude s (after_fence (open_fence s.fixture b s.board) (starting site))

  -- what comes before the `try`, whose exceptions pass on
  unfoldable pub prepare : Result Binding
  unfolding configuration read_binding check_board_path
  prepare =
      configuration s
      >> read_binding c s.fixture s.now s.captain s.binding_file
      >>= check_board_path

  abbrev pub after_prepare : Result Binding → Site → Result ℕ × Site
  after_prepare (err e) site = (err e, site)
  after_prepare (ok b) site = ceremony b site

  -- the exit status or the exception of a run, and the site after it
  unfoldable pub main : Site → Result ℕ × Site
  unfolding prepare ceremony
  main site = after_prepare prepare site

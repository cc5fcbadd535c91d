-- ===== src/Broker/Execute/World.antt =====
-- What `execute` acts on. The host is what the program does not implement: clocks, the lock, the
-- files as they are found, how a write ends, and the four methods of the backend.
use hermes_keel.Base.{ℕ, String, Option, List, ◌∷◌}
use hermes_keel.Base.Int.{ℤ}
use hermes_keel.Base.Result.{Error, Result, ok, err}
use hermes_keel.Json.{Value, Fields}
use hermes_keel.Broker.Authority.{Board, BoardFile}
use hermes_keel.Broker.Ledger.File.{File}
use hermes_keel.Broker.Ledger.Chain.{Ledger}
use hermes_keel.Broker.Ledger.Append.{Outcome}

-- `time` is `int(time.time())` and `monotonic` is `time.monotonic()` in nanoseconds. `board` is what
-- opening the board gives, `rows` what its connection sees at a later check. `name` and `message` are
-- the type's name and the text of an exception.
pub record Host : Type 1 where
  pub State : Type 0
  pub euid : ℕ
  pub time : State → ℤ × State
  pub monotonic : State → ℕ × State
  pub lock : State → Result (Unit {0}) × State
  pub approvals : State → Option File × State
  pub board : State → BoardFile × State
  pub rows : State → Board × State
  pub outcome : State → Outcome × State
  pub check_pre : Value → State → Result (Unit {0}) × State
  pub mutate : Value → State → Result (Unit {0}) × State
  pub health : Value → State → Result Fields × State
  pub rollback : Value → State → Result Value × State
  pub name : Error → String
  pub message : Error → String

-- The calls that matter for the order of events. `append` carries the phase that it records.
pub data Step : Type 0 where
  prechecked fenced validated mutated measured rolled_back released : Step
  append : String → Step

-- A call that returned, or that raised.
pub data Event : Type 0 where
  done failed : Step → Event

-- `trace` holds the events of the run so far, the last one first.
pub record World (h : Host) : Type 0 where
  pub state : h.State
  pub ledger : Ledger
  pub trace : List Event

abbrev pub Exec : Host → Type 0 → Type 0
Exec h A = World h → Result A × World h

abbrev pub mark : {A : Type 0} → Step → Result A → Event
mark s (ok _) = done s
mark s (err _) = failed s

module _ {h : Host} {A : Type 0} where
  unfoldable pub pure : A → Exec h A
  pure a w = (ok a, w)

  unfoldable pub lift : Result A → Exec h A
  lift r w = (r, w)

  -- a call of the host
  unfoldable pub call : (h.State → A × h.State) → Exec h A
  call f w = let (a, s) = f w.state in (ok a, record w { state = s })

  -- a call of the host that may raise
  unfoldable pub try_call : (h.State → Result A × h.State) → Exec h A
  try_call f w = let (r, s) = f w.state in (r, record w { state = s })

  unfoldable pub tracked : Step → Exec h A → Exec h A
  tracked s m w = let (r, w') = m w in (r, record w' { trace = mark s r ∷ w'.trace })

module _ {h : Host} {A B : Type 0} where
  abbrev pub continue : Result A → (A → Exec h B) → Exec h B
  continue (ok a) f w = f a w
  continue (err e) f w = (err e, w)

  infixl 5 ◌>>=◌ ◌>>◌
  -- opening this opens the calls above too
  unfoldable pub ◌>>=◌ : Exec h A → (A → Exec h B) → Exec h B
  unfolding pure lift call try_call tracked
  ◌>>=◌ m f w = let (r, w') = m w in continue r f w'

  abbrev pub ◌>>◌ : Exec h A → Exec h B → Exec h B
  m >> k = m >>= λ _. k

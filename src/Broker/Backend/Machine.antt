-- ===== src/Broker/Backend/Machine.antt =====
-- The machine that the backend acts on: the drop-in file is the model's, the rest a parameter.
use hermes_keel.Base.{ℕ, String, Option, List}
use hermes_keel.Base.Int.{ℤ}
use hermes_keel.Base.Result.{Result, ok, err}
use hermes_keel.Broker.Ledger.File.{File}
use hermes_keel.Broker.Backend.Captured.{Captured}

-- `subprocess.CompletedProcess`
pub record Completed : Type 0 where
  pub status : ℤ
  pub stdout : String
  pub stderr : String

-- How the one `os.write` and the two `fsync` of `mutate` end: all return, the write having taken this
-- many bytes; the write raises; or it takes some bytes and a sync raises.
pub data WriteEnd : Type 0 where
  wrote : ℕ → WriteEnd
  write_raised : WriteEnd
  sync_raised : ℕ → WriteEnd

-- `capture` is `capture_pre_state`, which reads systemd, `/proc` and the disk, the drop-in among it.
-- The other fields are calls of the system: a result is what the call returns, or its exception.
pub record Machine : Type 1 where
  pub State : Type 0
  pub hostname : State → String × State
  pub hash_new : State → Result String × State
  pub capture : Option File → State → Result Captured × State
  pub run : List String → State → Result Completed × State
  pub open_parent : State → Result (Unit {0}) × State
  pub open_dropin : State → Result (Unit {0}) × State
  pub write : State → WriteEnd × State
  pub unlink : State → Result (Unit {0}) × State
  pub sync : State → Result (Unit {0}) × State

-- `dropin` is what stands at `DROPIN`; `commands` are those that were run, the last one first.
pub record World (m : Machine) : Type 0 where
  pub state : m.State
  pub dropin : Option File
  pub commands : List (List String)

abbrev pub Act : Machine → Type 0 → Type 0
Act m A = World m → Result A × World m

module _ {m : Machine} {A : Type 0} where
  unfoldable pub pure : A → Act m A
  pure a w = (ok a, w)

  unfoldable pub lift : Result A → Act m A
  lift r w = (r, w)

  -- a call that leaves the drop-in alone
  unfoldable pub call : (m.State → Result A × m.State) → Act m A
  call f w = let (r, s) = f w.state in (r, record w { state = s })

module _ {m : Machine} {A B : Type 0} where
  abbrev pub continue : Result A → (A → Act m B) → Act m B
  continue (ok a) f w = f a w
  continue (err e) f w = (err e, w)

  infixl 5 ◌>>=◌ ◌>>◌
  -- opening this opens the calls above too
  unfoldable pub ◌>>=◌ : Act m A → (A → Act m B) → Act m B
  unfolding pure lift call
  ◌>>=◌ f k w = let (r, w') = f w in continue r k w'

  abbrev pub ◌>>◌ : Act m A → Act m B → Act m B
  f >> k = f >>= λ _. k

-- ===== src/Package/Rehearsed.antt =====
-- What is left of a rehearsal that raises.
use hermes_keel.Base.{◌==◌, ℕ, ◌≡◌, ◌⊎◌, false}
use hermes_keel.Base.Result.{Result}
use hermes_keel.Json.Codec.{Codec}
use hermes_keel.Package.Staged.{WhySealed}
use hermes_keel.Package.Rehearse.{Target, Place, absent, Root, Trial, sealed}

module _ (t : Trial) where
  -- Nothing is left at any of the four paths, nor of the stage, but for a sealed one.
  abbrev pub IsClean : ℕ → Place → Root → Type 0
  IsClean euid before r =
      ((x : Target) → r.at x ≡ absent)
      × ((r.stage ≡ absent) ⊎ ((r.stage ≡ sealed) × ((euid == 0) ≡ false) × WhySealed t before))

-- ===== src/Core/Manager.antt =====
-- core/manager.hpp: the class as a record, its pure virtual methods as fields.
use flexman.Base.{◌≡◌, Bool}
use flexman.Core.Solution.{Solution}

pub record Manager {ℓ} (Real State Mode Resources Timespec : Type ℓ) : Type ℓ where
  pub initial_state : State
  pub target_state : State
  pub time_delta : Real
  pub time_max : Real
  pub threshold : Real
  pub timeout : Timespec
  pub interactive : Bool
  pub updated_solution : Solution Real State Resources → Mode → Solution Real State Resources
  pub is_complete : Solution Real State Resources → Bool
  pub distance : Solution Real State Resources → Real
  pub is_strictly_better_than : Solution Real State Resources → Solution Real State Resources → Bool
  pub is_probably_better_than : Solution Real State Resources → Solution Real State Resources → Bool
  pub is_equal : Solution Real State Resources → Solution Real State Resources → Bool
  pub interpolate_resources : Resources → Resources → Real → Resources
  pub interpolate_state : State → State → Real → State

module _ {ℓ} {Real State Mode Resources Timespec : Type ℓ} where
  -- The virtual method `updated_solution` leaves the sequence to its caller.
  abbrev pub KeepsSequence : Manager Real State Mode Resources Timespec → Type ℓ
  KeepsSequence m =
      (s : Solution Real State Resources) (mode : Mode)
      → (m.updated_solution s mode).sequence ≡ s.sequence

-- The data members of the class.
pub record Members {ℓ} (Real State Timespec : Type ℓ) : Type ℓ where
  pub initial_state : State
  pub target_state : State
  pub time_delta : Real
  pub time_max : Real
  pub threshold : Real
  pub timeout : Timespec
  pub interactive : Bool

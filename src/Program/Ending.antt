-- ===== src/Program/Ending.antt =====
-- The program ends.
use flexman.Base.{ℕ, List}
use flexman.Double.{Double}
use flexman.Core.Execution.{Mode}
use flexman.Core.Solution.{Solution}
use flexman.Core.Manager.{Manager}
use flexman.Search.Algorithms.{Algorithms}
use flexman.Search.Iteration.Steady.{IsSteady}
use flexman.Swarm.Ending.{IsReplayable}
use flexman.Tapping.{Tolerant, Resources, tapping_resources, tapping_meters}

module _ {ℓ} {Real State System Input Timespec : Type ℓ} ⦃d : Double Real⦄ ⦃t : Tolerant Real⦄
    (P : Solution Real State (Resources Real) → Type 0)
    (m : Manager Real State (Mode System Input) (Resources Real) Timespec) (fuel : ℕ)
    (modes : List (Mode System Input)) where
  -- The property holds of the solutions that a search and a replay start from, it is kept, and of the
  -- solutions that have it each interpolation ends within the fuel.
  abbrev pub IsFuelled : Type ℓ
  IsFuelled = IsSteady P m fuel modes × IsReplayable P m fuel modes

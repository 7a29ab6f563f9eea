-- ===== src/Search/Extension.antt =====
-- search/common.hpp: `SearchAlgorithm`, `SwitchingMode` and `extend_solutions`.
-- The clock of timelib::Timer is a parameter: an outside world that every query may change.
use flexman.Base.{
  ℕ, Bool, if◌then◌else◌, Option, ◌==◌, List, [], ◌∷◌, ◌++◌, get_elem?, back, is_empty, Outcome, ok,
  throw, ◌>>=◌, ◌>>◌, refuse_if, or_throw, null_manager, zero_steps, no_modes, undefined,
  uncompilable, some,
}
use flexman.Double.{Double}
use flexman.Core.Execution.{Mode}
use flexman.Core.Solution.{Solution}
use flexman.Core.Manager.{Manager}
use flexman.Search.Interpolation.{simulate_mode}

pub data SearchAlgorithm : Type 0 where
  exhaustive heuristic single_machine : SearchAlgorithm

pub data SwitchingMode : Type 0 where
  none increasing free : SwitchingMode

-- The calls of timelib that steer the search, on the global timer and on the timer of a front.
pub record Clock {ℓ} (Real World : Type ℓ) : Type ℓ where
  pub start : World → World
  pub pause : World → World
  pub has_timeout : World → Bool × World
  pub elapsed : World → Real × World
  pub start_pareto : World → World
  pub elapsed_pareto : World → Real × World

-- The timeout of a manager: `if (manager->timeout)` and `set_timeout` on the global timer.
pub record Deadline {ℓ} (Timespec World : Type ℓ) : Type ℓ where
  pub is_set : Timespec → Bool
  pub set_timeout : Timespec → World → World

module _ {ℓ} {Real State System Input Resources Timespec : Type ℓ} ⦃d : Double Real⦄ where
  -- The loop over the modes under `Free`.
  unfoldable pub extend_freely :
      Option (Manager Real State (Mode System Input) Resources Timespec)
      → (fuel steps : ℕ) (partial : Solution Real State Resources)
        (modes : List (Mode System Input))
      → Outcome (List (Solution Real State Resources))
  extend_freely manager fuel steps partial [] = ok []
  extend_freely manager fuel steps partial (mode ∷ modes) = do
    solution ← simulate_mode manager fuel mode steps partial
    rest ← extend_freely manager fuel steps partial modes
    ok (solution ∷ rest)

  -- `modes[partial.sequence.back().mode]`: of an empty sequence there is no `back`, and the vector
  -- does not check the index.
  unfoldable pub extend_last :
      Option (Manager Real State (Mode System Input) Resources Timespec)
      → (fuel steps : ℕ) (partial : Solution Real State Resources)
        (modes : List (Mode System Input))
      → Outcome (List (Solution Real State Resources))
  extend_last manager fuel steps partial modes = do
    last ← or_throw (back partial.sequence) undefined
    mode ← or_throw (get_elem? modes last.mode) undefined
    solution ← simulate_mode manager fuel mode steps partial
    ok (solution ∷ [])

  -- `Increasing` initialises a `ModeId` by a `ModeExecution`: no instance of it compiles.
  unfoldable pub extend_one :
      SwitchingMode
      → Option (Manager Real State (Mode System Input) Resources Timespec)
      → (fuel steps : ℕ) (modes : List (Mode System Input))
        (partial : Solution Real State Resources)
      → Outcome (List (Solution Real State Resources))
  extend_one free manager fuel steps modes partial = extend_freely manager fuel steps partial modes
  extend_one increasing manager fuel steps modes partial = throw uncompilable
  extend_one none manager fuel steps modes partial = extend_last manager fuel steps partial modes

module _ {ℓ} {Real State System Input Resources Timespec World : Type ℓ} ⦃d : Double Real⦄
    ⦃clock : Clock Real World⦄ where
  -- The loop over the partial solutions, which ends early on a timeout.
  unfoldable pub extend_all :
      SwitchingMode
      → Option (Manager Real State (Mode System Input) Resources Timespec)
      → (fuel steps : ℕ) (modes : List (Mode System Input))
      → (partials : List (Solution Real State Resources)) (world : World)
      → Outcome (List (Solution Real State Resources) × World)
  extend_all switch manager fuel steps modes [] world = ok ([], world)
  extend_all switch manager fuel steps modes (partial ∷ partials) world = do
    new ← extend_one switch manager fuel steps modes partial
    let (timed_out, world') = clock.has_timeout world
    let more = extend_all switch manager fuel steps modes partials world'
    (rest, world'') ← if timed_out then ok ([], world') else more
    ok (new ++ rest, world'')

  unfoldable pub extend_solutions :
      SwitchingMode
      → Option (Manager Real State (Mode System Input) Resources Timespec)
      → (fuel : ℕ) (modes : List (Mode System Input)) (steps_per_iteration : ℕ)
      → (partials : List (Solution Real State Resources)) (world : World)
      → Outcome (List (Solution Real State Resources) × World)
  extend_solutions switch manager fuel modes steps_per_iteration partials world = do
    m ← or_throw manager null_manager
    refuse_if (steps_per_iteration == 0) zero_steps
    refuse_if (is_empty modes) no_modes
    extend_all switch (some m) fuel steps_per_iteration modes partials world

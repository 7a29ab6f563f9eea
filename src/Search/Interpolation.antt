-- ===== src/Search/Interpolation.antt =====
-- search/common.hpp: `find_solution_closest_to_zero` and `simulate_mode`.
-- `fuel` bounds the rounds of each interpolation loop; a call that needs more is `running`.
pub mod Sampling
pub mod Simulating
use flexman.Base.{
  ℕ, zero, suc, Bool, true, false, if◌then◌else◌, Option, ◌==◌, Outcome, ok, running, ◌>>=◌, ◌>>◌,
  refuse_if, or_throw, null_manager, zero_steps,
}
use flexman.Double.{Double, ◌⊕◌, ◌⊗◌, ◌⊘◌, ◌≼◌, max_of}
use flexman.Core.Execution.{Mode, add_mode_execution_to_sequence}
use flexman.Core.Solution.{Solution}
use flexman.Core.Manager.{Manager}

module _ {ℓ} {Real State Mode Resources Timespec : Type ℓ} ⦃d : Double Real⦄ where
  -- `time_delta / (10 * std::max(1.0, |previous.distance| / threshold))`
  unfoldable pub interpolation_step :
      Manager Real State Mode Resources Timespec → Solution Real State Resources → Real
  interpolation_step m previous =
      m.time_delta ⊘ (d.of_ℕ 10 ⊗ max_of (d.of_ℕ 1) (d.abs previous.distance ⊘ m.threshold))

  -- The interpolated resources and state, in a copy of `previous`.
  unfoldable pub interpolated :
      Manager Real State Mode Resources Timespec
      → Solution Real State Resources
      → Solution Real State Resources
      → Real
      → Solution Real State Resources
  interpolated m previous current t =
      let relative = t ⊘ m.time_delta in
      record previous {
        resources = m.interpolate_resources previous.resources current.resources relative;
        state = m.interpolate_state previous.state current.state relative;
      }

  -- The `for` from `t` on.
  unfoldable pub interpolate_from :
      Manager Real State Mode Resources Timespec
      → (previous current : Solution Real State Resources) → (step_size : Real)
      → (fuel : ℕ) (t : Real) → Outcome (Solution Real State Resources)
  interpolate_from m previous current step_size zero t = running
  interpolate_from m previous current step_size (suc fuel) t =
      let rest = interpolate_from m previous current step_size fuel (t ⊕ step_size) in
      if t ≼ m.time_delta
      then if m.is_complete (interpolated m previous current t)
        then ok (interpolated m previous current t)
        else rest
      else ok current

  unfoldable pub find_solution_closest_to_zero :
      Manager Real State Mode Resources Timespec
      → (fuel : ℕ) (previous current : Solution Real State Resources)
      → Outcome (Solution Real State Resources)
  find_solution_closest_to_zero m fuel previous current =
      interpolate_from m previous current (interpolation_step m previous) fuel (d.of_ℕ 0)

module _ {ℓ} {Real State System Input Resources Timespec : Type ℓ} ⦃d : Double Real⦄ where
  -- The two updates of a round: the manager's, and the mode's entry in the sequence.
  unfoldable pub advance :
      Manager Real State (Mode System Input) Resources Timespec
      → Mode System Input
      → Solution Real State Resources
      → Solution Real State Resources
  advance m mode solution =
      let updated = m.updated_solution solution mode in
      record updated { sequence = add_mode_execution_to_sequence mode.id updated.sequence }

  -- The `for` with `left` rounds to go.
  unfoldable pub simulate_rounds :
      Manager Real State (Mode System Input) Resources Timespec
      → (fuel : ℕ) (mode : Mode System Input) (left : ℕ) (solution : Solution Real State Resources)
      → Outcome (Solution Real State Resources)
  simulate_rounds m fuel mode zero solution = ok solution
  simulate_rounds m fuel mode (suc left) solution =
      let next = advance m mode solution in
      let rest = simulate_rounds m fuel mode left next in
      if m.is_complete next then find_solution_closest_to_zero m fuel solution next else rest

  unfoldable pub simulate_mode :
      Option (Manager Real State (Mode System Input) Resources Timespec)
      → (fuel : ℕ) (mode : Mode System Input) (steps : ℕ) (solution : Solution Real State Resources)
      → Outcome (Solution Real State Resources)
  simulate_mode search fuel mode steps solution = do
    m ← or_throw search null_manager
    refuse_if (steps == 0) zero_steps
    simulate_rounds m fuel mode steps solution

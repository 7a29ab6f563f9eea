-- ===== src/Simulation.antt =====
-- include/flexman/simulation: a sequence replayed, and one mode simulated step by step.
pub mod Evolution
pub mod Replay
use flexman.Base.{
  ℕ, zero, suc, if◌then◌else◌, Option, some, ◌==◌, List, [], ◌∷◌, get_elem?, Outcome, ok, ◌>>=◌,
  ◌>>◌, refuse_if, or_throw, null_manager, zero_steps, undefined,
}
use flexman.Double.{Double, Consumable}
use flexman.Core.Execution.{ModeExecution, add_mode_execution_to_sequence}
use flexman.Core.Solution.{Solution}
use flexman.Core.Manager.{Manager}
use flexman.Search.Interpolation.{find_solution_closest_to_zero}

pub record Simulation {ℓ} (Real State Resources : Type ℓ) : Type ℓ where
  pub evolution : List (Solution Real State Resources)
  pub initial_state : State
  pub target_state : State

module _ {ℓ} {Real State Mode Resources Timespec : Type ℓ} ⦃d : Double Real⦄
    ⦃c : Consumable Resources⦄ where
  -- The solution that a simulation starts from.
  unfoldable pub empty_solution :
      Manager Real State Mode Resources Timespec → Solution Real State Resources
  empty_solution m = record {
    sequence = [];
    state = m.initial_state;
    resources = c.fresh;
    distance = d.highest;
  }

module _ {ℓ} {Real State Mode Resources Timespec : Type ℓ} ⦃d : Double Real⦄ where
  -- The two updates of a round. The number that goes into the sequence is the execution's, and the
  -- mode's own `id` is not read.
  unfoldable pub replay_step :
      Manager Real State Mode Resources Timespec
      → (number : ℕ) (mode : Mode) (solution : Solution Real State Resources)
      → Solution Real State Resources
  replay_step m number mode solution =
      let updated = m.updated_solution solution mode in
      record updated { sequence = add_mode_execution_to_sequence number updated.sequence }

  -- The inner loop, with `left` rounds to go. Its `break` ends this execution, and no other.
  unfoldable pub replay_rounds :
      Manager Real State Mode Resources Timespec
      → (fuel number : ℕ) (modes : List Mode) (left : ℕ) (solution : Solution Real State Resources)
      → Outcome (Solution Real State Resources)
  replay_rounds m fuel number modes zero solution = ok solution
  replay_rounds m fuel number modes (suc left) solution = do
    mode ← or_throw (get_elem? modes number) undefined
    let next = replay_step m number mode solution
    let rest = replay_rounds m fuel number modes left next
    if m.is_complete next then find_solution_closest_to_zero m fuel solution next else rest

  -- The outer loop.
  unfoldable pub replay :
      Manager Real State Mode Resources Timespec
      → (fuel : ℕ) (modes : List Mode)
      → (sequence : List ModeExecution) (solution : Solution Real State Resources)
      → Outcome (Solution Real State Resources)
  replay m fuel modes [] solution = ok solution
  replay m fuel modes (e ∷ sequence) solution = do
    next ← replay_rounds m fuel e.mode modes e.times solution
    replay m fuel modes sequence next

module _ {ℓ} {Real State Mode Resources Timespec : Type ℓ} ⦃d : Double Real⦄
    ⦃c : Consumable Resources⦄ where
  -- The manager is not checked: a null pointer is undefined.
  unfoldable pub generate_solution :
      Option (Manager Real State Mode Resources Timespec)
      → (fuel : ℕ) (modes : List Mode) (sequence : List ModeExecution)
      → Outcome (Solution Real State Resources)
  generate_solution manager fuel modes sequence = do
    m ← or_throw manager undefined
    replay m fuel modes sequence (empty_solution m)

module _ {ℓ} {Real State Mode Resources Timespec : Type ℓ} where
  unfoldable pub simulate_one_step :
      Option (Manager Real State Mode Resources Timespec)
      → (mode : Mode) (solution : Solution Real State Resources)
      → Outcome (Solution Real State Resources)
  simulate_one_step manager mode solution = do
    m ← or_throw manager null_manager
    ok (m.updated_solution solution mode)

  -- The `for` with `left` rounds to go: what it appends to `evolution`.
  unfoldable pub evolve :
      Manager Real State Mode Resources Timespec
      → (mode : Mode) (left : ℕ) (solution : Solution Real State Resources)
      → Outcome (List (Solution Real State Resources))
  evolve m mode zero solution = ok []
  evolve m mode (suc left) solution =
      let round = do
        next ← simulate_one_step (some m) mode solution
        rest ← evolve m mode left next
        ok (next ∷ rest)
      in if m.is_complete solution then ok [] else round

module _ {ℓ} {Real State Mode Resources Timespec : Type ℓ} ⦃d : Double Real⦄
    ⦃c : Consumable Resources⦄ where
  unfoldable pub simulate_single_mode :
      Option (Manager Real State Mode Resources Timespec)
      → (mode : Mode) (steps : ℕ) → Outcome (Simulation Real State Resources)
  simulate_single_mode manager mode steps = do
    m ← or_throw manager null_manager
    refuse_if (steps == 0) zero_steps
    evolution ← evolve m mode steps (empty_solution m)
    ok (record {
      evolution = evolution;
      initial_state = m.initial_state;
      target_state = m.target_state;
    })

-- ===== src/Search/Iteration.antt =====
-- search/search.hpp: `perform_search_single_iteration` and `perform_search_n_iterations`.
-- Logging is left out: it reads the state and the timers, and changes nothing.
pub mod Invariant
pub mod Carried
pub mod Stepwise
pub mod Steady
pub mod Termination
pub mod Returning
pub mod Clocked
use flexman.Base.{
  ℕ, zero, suc, ◌+◌, ◌%◌, false, if◌then◌else◌, Option, ◌==◌, List, [], ◌∷◌, map, is_empty, Outcome,
  ok, ◌>>=◌, ◌>>◌, refuse_if, or_throw, null_manager, zero_steps, no_modes, unsigned_mod, undefined,
}
use flexman.Double.{Double, ◌⊗◌, ◌⊘◌, Consumable}
use flexman.Core.Execution.{Mode, execution}
use flexman.Core.Solution.{Solution, ParetoFront}
use flexman.Core.Manager.{Manager}
use flexman.Search.Algorithms.{Algorithms}
use flexman.Search.Extension.{
  SearchAlgorithm, exhaustive, heuristic, single_machine, SwitchingMode, none, free, Clock,
  extend_solutions,
}
use flexman.Search.Dominance.{
  remove_dominated_by, remove_dominated_solutions, remove_duplicate_solutions,
}
use flexman.Search.Splitting.{move_elements, split_complete_partial}

-- What the rounds of one pass change.
pub record Progress {ℓ} (Real State Resources World : Type ℓ) : Type ℓ where
  pub partial_solutions : List (Solution Real State Resources)
  pub accepted_solutions : List (Solution Real State Resources)
  pub world : World

abbrev pub switching : SearchAlgorithm → SwitchingMode
switching single_machine = none
switching exhaustive = free
switching heuristic = free

module _ {ℓ} {Real State Mode Resources Timespec : Type ℓ} ⦃c : Consumable Resources⦄
    ⦃alg : Algorithms (Solution Real State Resources)⦄ where
  -- `if (!complete.empty())`: the accepted solutions with the complete ones.
  unfoldable pub accept :
      Option (Manager Real State Mode Resources Timespec)
      → (complete accepted : List (Solution Real State Resources))
      → Outcome (List (Solution Real State Resources))
  accept manager complete accepted =
      let saved = do
        let (emptied, joined) = move_elements complete accepted
        kept ← remove_dominated_solutions exhaustive manager joined
        remove_duplicate_solutions kept
      in if is_empty complete then ok accepted else saved

  -- The partial solutions of the next round.
  unfoldable pub prune :
      SearchAlgorithm
      → Option (Manager Real State Mode Resources Timespec)
      → (partial : List (Solution Real State Resources))
      → Outcome (List (Solution Real State Resources))
  prune heuristic manager partial = remove_dominated_by heuristic manager false partial partial
  prune exhaustive manager partial = ok partial
  prune single_machine manager partial = ok partial

module _ {ℓ} {Real State System Input Resources Timespec : Type ℓ} ⦃d : Double Real⦄
    ⦃c : Consumable Resources⦄ where
  -- One partial solution for each mode, executed no time yet.
  unfoldable pub initial_solution :
      Manager Real State (Mode System Input) Resources Timespec
      → Mode System Input
      → Solution Real State Resources
  initial_solution m mode = record {
    sequence = execution mode.id 0 ∷ [];
    state = m.initial_state;
    resources = c.fresh;
    distance = d.highest;
  }

module _ {ℓ} {Real State System Input Resources Timespec World : Type ℓ} ⦃d : Double Real⦄
    ⦃c : Consumable Resources⦄ ⦃alg : Algorithms (Solution Real State Resources)⦄
    ⦃clock : Clock Real World⦄ where
  unfoldable pub perform_search_single_iteration :
      SearchAlgorithm
      → Option (Manager Real State (Mode System Input) Resources Timespec)
      → (fuel : ℕ) (modes : List (Mode System Input)) (steps_per_iteration : ℕ)
      → Progress Real State Resources World
      → Outcome (Progress Real State Resources World)
  perform_search_single_iteration algorithm manager fuel modes steps_per_iteration s = do
    m ← or_throw manager null_manager
    refuse_if (steps_per_iteration == 0) zero_steps
    refuse_if (is_empty modes) no_modes
    (extended, world) ←
        extend_solutions (switching algorithm) manager fuel modes steps_per_iteration
          s.partial_solutions s.world
    undominated ← remove_dominated_by exhaustive manager false extended s.accepted_solutions
    split ← split_complete_partial manager undominated [] []
    accepted ← accept manager split.complete s.accepted_solutions
    partial ← prune algorithm manager split.partial
    ok (record { partial_solutions = partial; accepted_solutions = accepted; world = world })

  -- The `while`, with `left` iterations until `max_iterations`.
  unfoldable pub rounds :
      SearchAlgorithm
      → Option (Manager Real State (Mode System Input) Resources Timespec)
      → (fuel : ℕ) (modes : List (Mode System Input)) (steps_per_iteration : ℕ)
      → (left iteration : ℕ) (s : Progress Real State Resources World)
      → Outcome (ℕ × Progress Real State Resources World)
  rounds algorithm manager fuel modes steps_per_iteration zero iteration s = ok (iteration, s)
  rounds algorithm manager fuel modes steps_per_iteration (suc left) iteration s =
      let count = (iteration + 1) % unsigned_mod in
      let round = do
        next ← perform_search_single_iteration algorithm manager fuel modes steps_per_iteration s
        let (timed_out, world) = clock.has_timeout next.world
        let t = record next { world = world }
        let more = rounds algorithm manager fuel modes steps_per_iteration left count t
        if timed_out then ok (count, t) else more
      in if is_empty s.partial_solutions then ok (iteration, s) else round

  unfoldable pub perform_search_n_iterations :
      SearchAlgorithm
      → Option (Manager Real State (Mode System Input) Resources Timespec)
      → (fuel : ℕ) (modes : List (Mode System Input)) (steps_per_iteration : ℕ)
      → (previous_pareto_front : ParetoFront Real State Resources) (world : World)
      → Outcome (ParetoFront Real State Resources × World)
  perform_search_n_iterations algorithm manager fuel modes steps_per_iteration previous world = do
    m ← or_throw manager null_manager
    refuse_if (steps_per_iteration == 0) zero_steps
    refuse_if (is_empty modes) no_modes
    let time_per_iteration = m.time_delta ⊗ d.of_ℕ steps_per_iteration
    max_iterations ← or_throw (d.to_unsigned (m.time_max ⊘ time_per_iteration)) undefined
    (iteration, s) ←
        rounds algorithm manager fuel modes steps_per_iteration max_iterations 0 (record {
          partial_solutions = map (initial_solution m) modes;
          accepted_solutions = previous.solutions;
          world = clock.start_pareto world;
        })
    let (runtime, world') = clock.elapsed_pareto s.world
    ok (
      record {
        solutions = s.accepted_solutions;
        step_length = time_per_iteration;
        steps_per_iteration = steps_per_iteration;
        iteration = iteration;
        runtime = runtime;
      },
      world',
    )

-- ===== src/Examples/Searching.antt =====
-- The theorems of Search/Perform and Search/Iteration at work on the small plant, and a test run.
use flexman.Search.Extension.{
  exhaustive, heuristic, extend_solutions, extend_all, extend_one, extend_freely,
}
use flexman.Base.{
  true, ℕ, ◌≡◌, refl, some, List, [], ◌∷◌, map, Outcome, ok, throw, running, Ensures, arith,
}
use flexman.Plant.{Gear, drilled, meters, numbers, Cost, costs, gears, drill, ticking, untimed}
use flexman.Core.Execution.{ModeExecution, execution, add_mode_execution_to_sequence}
use flexman.Core.Solution.{Result}
use flexman.Core.Manager.{Manager}
use flexman.Search.Algorithms.{strict_weak_on, equivalence_on}
use flexman.Search.Algorithms.Insertion.{insertion, insertion-IsStandard}
use flexman.Search.Splitting.{move_elements, split_complete_partial}
use flexman.Search.Interpolation.{
  interpolate_from, find_solution_closest_to_zero, interpolated, interpolation_step, advance,
  simulate_rounds, simulate_mode,
}
use flexman.Search.Dominance.{
  remove_dominated_by, remove_dominated_solutions, remove_duplicate_solutions, gather, is_dominated,
  keep_indices, unique, unique_after,
}
use flexman.Search.Iteration.{
  Progress, initial_solution, accept, prune, rounds, perform_search_single_iteration,
  perform_search_n_iterations,
}
use flexman.Search.Iteration.Invariant.{
  IsFront, AllPartial, perform_search_single_iteration-Ensures, perform_search_n_iterations-Ensures,
}
use flexman.Search.Perform.{
  no_front, read_key, perform_search, init_stride, shift_one, passes, pause_search, record_front,
}
use flexman.Search.Perform.Fronts.{IsSearched, perform_search-IsSearched}
use flexman.Search.Perform.Resuming.{perform_search_resume}
use flexman.Search.Perform.Runtimes.{IsRising, perform_search-IsRising}
use flexman.Search.Iteration.Clocked.{NeverGoesBack}

-- The fronts of a search for a depth of 6: their strides, and the sequences that they hold.
abbrev strides : Outcome (Result ℕ ℕ Cost) → List (ℕ × List (List ModeExecution))
strides (ok r) =
    map (λ f. (f.steps_per_iteration, map (λ s. s.sequence) f.solutions)) r.pareto_fronts
strides (throw e) = []
strides running = []

abbrev searched : List (ℕ × List (List ModeExecution))
searched = strides (perform_search {World = ℕ} exhaustive (some (drill 400 6)) 102 gears 2 5 [])

perform_search-IsSearched_example :
    Ensures
      (IsSearched (drill 400 6))
      (perform_search {World = ℕ} exhaustive (some (drill 400 6)) 102 gears 2 5 [])
perform_search-IsSearched_example =
    perform_search-IsSearched insertion-IsStandard exhaustive (drill 400 6) 102 gears 2 5 []

perform_search_n_iterations-Ensures_example :
    Ensures
      (λ r. IsFront (drill 400 6) r.0.solutions × (r.0.steps_per_iteration ≡ 2))
      (perform_search_n_iterations {World = ℕ} exhaustive
        (some (drill 400 6))
        102
        gears
        2
        no_front
        5)
perform_search_n_iterations-Ensures_example =
    perform_search_n_iterations-Ensures insertion-IsStandard exhaustive (drill 400 6) 102 gears 2
      no_front 5 (tt, tt)

-- A round at the start of a search, with one front solution at a high cost.
abbrev started : Progress ℕ ℕ Cost ℕ
started = record {
  partial_solutions = map (initial_solution (drill 400 6)) gears;
  accepted_solutions = drilled 6 20 20 ∷ [];
  world = 5;
}

perform_search_single_iteration-Ensures_example :
    Ensures
      (λ t.
        IsFront (drill 400 6) t.accepted_solutions × AllPartial (drill 400 6) t.partial_solutions)
      (perform_search_single_iteration heuristic (some (drill 400 6)) 102 gears 2 started)
perform_search_single_iteration-Ensures_example =
    perform_search_single_iteration-Ensures insertion-IsStandard heuristic (drill 400 6) 102 gears 2
      started ((refl, tt), (tt, tt))

-- The clock of the plant counts up.
ticking-NeverGoesBack : NeverGoesBack ℕ ℕ
ticking-NeverGoesBack = record {
  le_refl = λ a. ground arith;
  le_trans = λ a b c h k. ground arith;
  elapsed_after = λ w. ground arith;
  has_timeout_after = λ w. ground arith;
  start_pareto_after = λ w. ground arith;
  elapsed_pareto_after = λ w. ground arith;
  start-pause_after = λ w. ground arith;
}

perform_search-IsRising_example :
    Ensures
      (λ r. IsRising r.pareto_fronts)
      (perform_search {World = ℕ} exhaustive (some (drill 400 6)) 102 gears 2 5 [])
perform_search-IsRising_example =
    perform_search-IsRising ticking-NeverGoesBack exhaustive (drill 400 6) 102 gears 2 5 []

-- The runs of a search: each kept front with its stride and its sequences.
searched_run :
    searched
    ≡ (2, (execution 0 2 ∷ []) ∷ (execution 0 0 ∷ execution 1 1 ∷ []) ∷ [])
      ∷ (1, (execution 0 2 ∷ []) ∷ (execution 0 0 ∷ execution 1 1 ∷ []) ∷ [])
      ∷ []
unfolding perform_search init_stride shift_one passes perform_search_n_iterations rounds
    perform_search_single_iteration extend_solutions extend_all extend_one extend_freely
    simulate_mode simulate_rounds advance initial_solution find_solution_closest_to_zero
    interpolate_from interpolated interpolation_step add_mode_execution_to_sequence strict_weak_on
    equivalence_on gather is_dominated keep_indices remove_dominated_by remove_dominated_solutions
    remove_duplicate_solutions unique unique_after accept prune pause_search record_front
    move_elements split_complete_partial
searched_run = refl

abbrev watched : Manager ℕ ℕ Gear Cost ℕ
watched = record (drill 400 6) { interactive = true }

perform_search_resume_example :
    perform_search {World = ℕ} exhaustive (some watched) 102 gears 2 5 (b'x' ∷ b'r' ∷ b'q' ∷ [])
    ≡ perform_search {World = ℕ} exhaustive (some watched) 102 gears 2 5 (b'r' ∷ [])
unfolding read_key
perform_search_resume_example =
    perform_search_resume exhaustive watched 102 gears 2 5 (b'x' ∷ b'r' ∷ b'q' ∷ []) (b'q' ∷ [])
      refl

-- ===== src/Examples/Replaying.antt =====
-- The theorems of Search/Interpolation and Simulation at work on the small plant.
use flexman.Base.{
  ℕ, suc, ◌<◌, ◌≡◌, refl, true, some, [], ◌∷◌, ◌++◌, ok, running, Returns, arith, leb,
}
use flexman.Core.Execution.{execution, add_mode_execution_to_sequence}
use flexman.Core.Execution.Laws.{executions}
use flexman.Search.Algorithms.Insertion.{insertion}
use flexman.Search.Interpolation.{
  find_solution_closest_to_zero, interpolated, interpolation_step, advance, simulate_mode,
}
use flexman.Search.Interpolation.Sampling.{
  IsFirstSample, find_solution_closest_to_zero-IsFirstSample,
}
use flexman.Search.Interpolation.Simulating.{
  advances, StaysPartial, CompletesAfter, HitBy, simulate_mode_lem, simulate_mode_drops_last,
  simulate_mode-running,
}
use flexman.Simulation.{empty_solution, replay_step, generate_solution, simulate_single_mode}
use flexman.Simulation.Evolution.{IsEvolution, simulate_single_mode-IsEvolution}
use flexman.Simulation.Replay.{Follows, generate_solution-Follows}
use flexman.Simulation.Replay.Follows.{stop, go}
use flexman.Plant.{
  drilled, deep, meters, numbers, costs, Drilled, gear, gears, drill, time_after-mul, ticking,
  untimed,
}

find_solution_closest_to_zero-IsFirstSample_example :
    Returns
      (IsFirstSample
        (drill 400 6)
        (drilled 4 2 2)
        (drilled 6 3 3)
        (interpolation_step (drill 400 6) (drilled 4 2 2))
        0)
      (find_solution_closest_to_zero (drill 400 6) 20 (drilled 4 2 2) (drilled 6 3 3))
unfolding interpolation_step
find_solution_closest_to_zero-IsFirstSample_example =
    find_solution_closest_to_zero-IsFirstSample (drill 400 6) (drilled 4 2 2) (drilled 6 3 3) 11 20
      refl (omega arith)

-- Two rounds of the first gear from here reach a depth of 4, and the third one completes.
abbrev top : Drilled
top = drilled 0 0 0

simulate_mode_lem_example :
    (StaysPartial (drill 400 6) (gear 0 2 1) 4 top
      → simulate_mode (some (drill 400 6)) 20 (gear 0 2 1) 4 top
        ≡ ok (advances (drill 400 6) (gear 0 2 1) 4 top))
    × ((k : ℕ)
        → k < 4
        → CompletesAfter (drill 400 6) (gear 0 2 1) k top
        → simulate_mode (some (drill 400 6)) 20 (gear 0 2 1) 4 top
          ≡ find_solution_closest_to_zero
              (drill 400 6)
              20
              (advances (drill 400 6) (gear 0 2 1) k top)
              (advances (drill 400 6) (gear 0 2 1) (suc k) top))
simulate_mode_lem_example = simulate_mode_lem (drill 400 6) (gear 0 2 1) 20 4 top (omega arith)

completes : (delta : ℕ) → CompletesAfter (drill delta 6) (gear 0 2 1) 2 top
unfolding advance
completes delta = ((refl, (refl, tt)), refl)

hit :
    HitBy
      (drill 400 6)
      (gear 0 2 1)
      10
      (advances (drill 400 6) (gear 0 2 1) 2 top)
      (advances (drill 400 6) (gear 0 2 1) 3 top)
unfolding advance interpolation_step interpolated
hit = (λ j h. rw (time_after-mul 40 j 0) (ground arith), refl)

simulate_mode_drops_last_example :
    Returns
      (λ r. (leb 6 r.state ≡ true) × (executions r.sequence ≡ [] ++ 0 ∷ 0 ∷ []))
      (simulate_mode (some (drill 400 6)) 20 (gear 0 2 1) 4 top)
simulate_mode_drops_last_example =
    simulate_mode_drops_last (drill 400 6) (gear 0 2 1) (λ s g. refl) 20 4 2 10 top (omega arith)
      (completes 400) hit (omega arith) (omega arith) (omega arith, tt)

simulate_mode-running_example :
    simulate_mode (some (drill 4 6)) 1_000_000 (gear 0 2 1) 4 top ≡ running
unfolding advance interpolation_step interpolated
simulate_mode-running_example =
    simulate_mode-running (drill 4 6) (gear 0 2 1) 4 2 top (omega arith) (completes 4) refl
      (refl, refl) 1_000_000

simulate_single_mode-IsEvolution_example :
    Returns
      (λ r.
        IsEvolution (drill 400 6) (gear 1 3 2) 5 (empty_solution (drill 400 6)) r.evolution
        × (r.initial_state ≡ 0)
        × (r.target_state ≡ 6))
      (simulate_single_mode (some (drill 400 6)) (gear 1 3 2) 5)
simulate_single_mode-IsEvolution_example =
    simulate_single_mode-IsEvolution (drill 400 6) (gear 1 3 2) 5 (omega arith)

to_deep :
    Follows
      (drill 400 9)
      gears
      (executions (execution 0 1 ∷ execution 1 1 ∷ []))
      (empty_solution (drill 400 9))
      deep
unfolding empty_solution replay_step add_mode_execution_to_sequence
to_deep = go refl refl (go refl refl stop)

generate_solution-Follows_example :
    (generate_solution (some (drill 400 9)) 20 gears (execution 0 1 ∷ execution 1 1 ∷ []) ≡ ok deep)
    × (executions deep.sequence ≡ executions (execution 0 1 ∷ execution 1 1 ∷ []))
generate_solution-Follows_example =
    generate_solution-Follows (drill 400 9) gears (λ s g. refl) 20
      (execution 0 1 ∷ execution 1 1 ∷ []) deep to_deep (omega arith)

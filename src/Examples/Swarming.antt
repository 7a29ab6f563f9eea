-- ===== src/Examples/Swarming.antt =====
-- The theorems of Swarm at work on the small plant.
use flexman.Swarm.Shape.{modes_of, optimize_solution-modes_of}
use flexman.Core.Execution.{ModeExecution}
use flexman.Base.{◌⊎◌, ◌+◌, ltb, ℕ, ◌≡◌, refl, true, some, List, [], ◌∷◌, ok, Ensures, arith, leb}
use flexman.Search.Algorithms.Insertion.{insertion}
use flexman.Simulation.{generate_solution}
use flexman.Swarm.{SolverParameters}
use flexman.Swarm.Optimize.{optimize_solution}
use flexman.Swarm.Fitness.{optimize_solution-Ensures}
use flexman.Plant.{deep, meters, numbers, costs, gears, drill, ticking, untimed}

abbrev weights : SolverParameters ℕ
weights = record { num_particles = 2; max_iterations = 3; inertia = 0; cognitive = 1; social = 1 }

lt_trans : (x y z : ℕ) → ltb x y ≡ true → ltb y z ≡ true → ltb x z ≡ true
lt_trans x y z h k = ground arith

optimize_solution-Ensures_example :
    Ensures
      (λ t.
        (generate_solution (some (drill 400 5)) 102 gears deep.sequence ≡ ok t)
        ⊎ ((leb 5 t.state ≡ true) × (ltb (t.resources.energy + t.resources.time) 803 ≡ true)))
      (optimize_solution (some (drill 400 5)) weights 102 gears (λ n. 6) deep)
optimize_solution-Ensures_example =
    optimize_solution-Ensures (drill 400 5) 102 gears lt_trans weights (λ n. 6) deep refl

optimize_solution-modes_of_example :
    Ensures
      (λ t.
        (s : List ModeExecution) × (modes_of s ≡ 0 ∷ 1 ∷ [])
        × (generate_solution (some (drill 400 5)) 102 gears s ≡ ok t))
      (optimize_solution (some (drill 400 5)) weights 102 gears (λ n. 6) deep)
optimize_solution-modes_of_example =
    optimize_solution-modes_of (drill 400 5) 102 gears weights (λ n. 6) deep

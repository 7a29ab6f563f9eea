-- ===== src/Examples/Programs.antt =====
-- The theorems of Program at work: the whole program on whole numbers, with lists for the vectors and
-- the matrices.
use native.Mathlib.Nat.{mul-le-mul_left}
use flexman.Base.{
  ℕ, ◌+◌, ◌*◌, ◌≤◌, ◌≡◌, refl, true, false, List, [], ◌∷◌, length, leb, ltb, throw, zero_steps,
  Ensures, Returns, All, arith,
}
use flexman.Core.Solution.{ParetoFront}
use flexman.Search.Algorithms.Insertion.{insertion, insertion-IsStandard}
use flexman.Search.Perform.Fronts.{IsSearched}
use flexman.Search.Perform.SingleMachine.{IsSingle}
use flexman.Tapping.{tapping_resources, Linear, Integrator, Resources, tapping_meters}
use flexman.Tapping.Systems.{Control, StateSpace, DiscreteStateSpace}
use flexman.Program.{
  linspace, entries, compare_results, compare_fronts, compare_solutions, compare_state,
  solutions_differ, compared, improved, unchanged, worsened,
}
use flexman.Program.Execute.{
  Options, default_options, Seconds, gear_factors, discrete_modes, continuous_modes, discrete,
  continuous, execute_in_discrete_mode, execute_in_continuous_mode, main,
}
use flexman.Program.Factors.{NeverRises, gear_factors-NeverRises}
use flexman.Program.Sorting.{AllAscending}
use flexman.Program.Running.{Finds, main-IsSearched, main-IsSingle}
use flexman.Program.Simulating.{Evolves, execute-Evolves, execute_refuses}
use flexman.Plant.{numbers, ticking, untimed}
use flexman.Examples.Tapped.{tapped, exact, lists, literals, sum}

abbrev Vector : Type 0
Vector = List ℕ

abbrev Matrix : Type 0
Matrix = List (List ℕ)

-- A product of matrices is left to its first factor.
instance abbrev control : Control ℕ Vector Matrix
control = record {
  of_entries = λ xs. xs;
  of_rows = λ rows. rows;
  c2d = λ s h. record { a = s.a; b = s.b; c = s.c; d = s.d; sample_time = h };
}

instance abbrev discrete_system : Linear Vector (DiscreteStateSpace ℕ Matrix)
discrete_system = record {
  multiply_a = λ s x. x;
  multiply_b = λ s u. 0 ∷ 1 ∷ s.sample_time ∷ [];
  plus = sum;
}

instance abbrev continuous_system : Linear Vector (StateSpace Matrix)
continuous_system = record { multiply_a = λ s x. x; multiply_b = λ s u. 0 ∷ 1 ∷ 1 ∷ []; plus = sum }

instance abbrev euler : Integrator ℕ Vector
euler = record { integrate_fixed = λ flow x from to step stop. flow x }

instance abbrev seconds : Seconds ℕ ℕ
seconds = record { of_seconds = λ x. x }

abbrev options : (run mode algorithm steps : ℕ) → Options ℕ
options run mode algorithm steps = record {
  no_arguments = false;
  help = false;
  run = run;
  mode = mode;
  algorithm = algorithm;
  pso = true;
  solver = record { num_particles = 2; max_iterations = 1; inertia = 1; cognitive = 1; social = 1 };
  depth = 6;
  time_max = steps * 2;
  time_delta = 2;
  threshold = 1;
  timeout = 0;
  interactive = false;
  iterations = 2;
  min_gear = 5;
  max_gear = 50;
  num_gear = 3;
}

abbrev now : ℕ
now = 5

abbrev draws : ℕ → ℕ → ℕ
draws k n = k + n

main-IsSearched_example :
    Ensures
      (Finds {State = Vector} true
        λ r. IsSearched (discrete Matrix ℕ (options 0 0 1 9)) r × AllAscending r.pareto_fronts)
      (main Matrix ℕ (options 0 0 1 9) 50 now [] draws)
main-IsSearched_example =
    main-IsSearched Matrix ℕ (options 0 0 1 9) 50 now [] draws refl insertion-IsStandard refl
      (omega arith)

main-IsSingle_example :
    Ensures
      (Finds {State = Vector} true λ r. All (λ f. All IsSingle f.solutions) r.pareto_fronts)
      (main Matrix ℕ (options 0 1 2 9) 50 now [] draws)
main-IsSingle_example =
    main-IsSingle Matrix ℕ (options 0 1 2 9) 50 now [] draws refl insertion-IsStandard refl
      (omega arith) refl

-- The eight gears of the defaults.
default_gears_run :
    gear_factors {Real = ℕ} default_options ≡ 50 ∷ 44 ∷ 38 ∷ 32 ∷ 26 ∷ 20 ∷ 14 ∷ 8 ∷ []
unfolding gear_factors linspace entries default_options
default_gears_run = refl

abbrev slow_front : ParetoFront ℕ Vector (Resources ℕ)
slow_front = record {
  solutions = tapped 0 6 3 9 ∷ tapped 1 6 8 4 ∷ [];
  step_length = 2;
  steps_per_iteration = 1;
  iteration = 2;
  runtime = 5;
}

-- Three gears from 50 down, in steps of 22.
gear_factors_run : gear_factors (options 0 0 0 9) ≡ 50 ∷ 28 ∷ 6 ∷ []
unfolding gear_factors linspace entries
gear_factors_run = refl

-- The first front, then the same with a faster solution.
compare_run :
    compare_results
      (record { pareto_fronts = slow_front ∷ [] })
      (record {
        pareto_fronts = record slow_front { solutions = tapped 0 6 3 7 ∷ tapped 1 6 9 4 ∷ [] } ∷ [];
      })
    ≡ compared 1 1 improved 9 7 unchanged 3 3 ∷ compared 2 1 unchanged 4 4 worsened 8 9 ∷ []
unfolding compare_results compare_fronts compare_solutions compare_state
compare_run = refl

compare_sizes_run :
    compare_results
      (record { pareto_fronts = slow_front ∷ [] })
      (record { pareto_fronts = record slow_front { solutions = [] } ∷ [] })
    ≡ solutions_differ 1 2 0 ∷ []
unfolding compare_results compare_fronts compare_solutions compare_state
compare_sizes_run = refl

-- Rounds of 400 units of time, and a coarse threshold.
abbrev coarse : (run : ℕ) → Options ℕ
coarse run = record (options run 1 1 0) { time_max = 4000; time_delta = 400; threshold = 100_000 }

execute-Evolves_example :
    Returns
      (Evolves {State = Vector}
        (discrete Matrix ℕ (options 1 0 0 9))
        9
        (discrete_modes (options 1 0 0 9)).1)
      (execute_in_discrete_mode Matrix ℕ (options 1 0 0 9) 50 now [] draws)
    × Returns
        (Evolves {State = Vector}
          (continuous Matrix ℕ (options 1 0 0 9))
          9
          (continuous_modes (options 1 0 0 9)).1)
        (execute_in_continuous_mode Matrix ℕ (options 1 0 0 9) 50 now [] draws)
execute-Evolves_example =
    execute-Evolves Matrix ℕ (options 1 0 0 9) 50 now [] draws refl 9 (omega arith) refl

execute_refuses_example :
    (execute_in_discrete_mode {Vector = Vector} Matrix ℕ (options 1 0 0 0) 50 now [] draws
      ≡ throw zero_steps)
    × (execute_in_continuous_mode {Vector = Vector} Matrix ℕ (options 1 0 0 0) 50 now [] draws
        ≡ throw zero_steps)
execute_refuses_example =
    execute_refuses Matrix ℕ (options 1 0 0 0) 50 now [] draws refl (omega arith) refl

whole : (i k : ℕ) → i ≤ k → (leb i k ≡ true) × (ltb k i ≡ false)
whole i k h = (ground arith, ground arith)

products : (x y z : ℕ) → leb 0 x ≡ true → leb y z ≡ true → leb (x * y) (x * z) ≡ true
products x y z h k =
    let low : y ≤ z = ground arith in
    let high : x * y ≤ x * z = mul-le-mul_left x low in ground arith

gear_factors-NeverRises_example :
    NeverRises (gear_factors (options 0 0 0 9)) × (length (gear_factors (options 0 0 0 9)) ≡ 3)
gear_factors-NeverRises_example =
    gear_factors-NeverRises whole (λ x y h. ground arith) (λ x n h k. ground arith) products
      (λ x y z h. ground arith) (options 0 0 0 9) (omega arith)

-- ===== src/Program/Execute.antt =====
-- examples/tapping/main.cpp: `execute_in_discrete_mode`, `execute_in_continuous_mode` and `main`. The
-- options that cmdlp parses are a record; the loggers and the plots are left out, the file that is
-- saved is in Program.Saving.
use flexman.Base.{
  false, ℕ, Bool, ◌||◌, if◌then◌else◌, Option, none, some, ◌==◌, List, [], ◌∷◌, Outcome, ok, ◌>>=◌,
  or_throw, undefined,
}
use flexman.Double.{Double, ◌⊘◌}
use flexman.Core.Execution.{Mode}
use flexman.Core.Solution.{Solution, Result}
use flexman.Core.Manager.{Manager}
use flexman.Search.Algorithms.{Algorithms}
use flexman.Search.Extension.{
  SearchAlgorithm, exhaustive, heuristic, single_machine, Clock, Deadline,
}
use flexman.Search.Perform.{perform_search}
use flexman.Simulation.{Simulation, simulate_single_mode}
use flexman.Swarm.{SolverParameters}
use flexman.Swarm.Optimize.{optimize_result}
use flexman.Tapping.{
  Tolerant, Indexed, Linear, Integrator, Resources, tapping_resources, tapping_meters,
  discrete_search, continuous_search,
}
use flexman.Tapping.Systems.{
  Literals, StateSpace, DiscreteStateSpace, Control, Parameters, default_parameters,
  make_continuous_mode, make_discrete_mode,
}
use flexman.Program.{linspace, sort_fronts, Line, compare_results, build_modes}

-- What the calls of `parser.getOption` give. `argc == 1` is `no_arguments`.
pub record Options {ℓ} (Real : Type ℓ) : Type ℓ where
  pub no_arguments : Bool
  pub help : Bool
  pub run : ℕ
  pub mode : ℕ
  pub algorithm : ℕ
  pub pso : Bool
  pub solver : SolverParameters Real
  pub depth : Real
  pub time_max : Real
  pub time_delta : Real
  pub threshold : Real
  pub timeout : Real
  pub interactive : Bool
  pub iterations : ℕ
  pub min_gear : ℕ
  pub max_gear : ℕ
  pub num_gear : ℕ

-- The defaults that `setup_option_parser` declares, with at least one argument.
unfoldable pub default_options {ℓ} : {Real : Type ℓ} ⦃lit : Literals Real⦄ → Options Real
default_options ⦃lit⦄ = record {
  no_arguments = false;
  help = false;
  run = 0;
  mode = 0;
  algorithm = 0;
  pso = false;
  solver = record {
    num_particles = 100;
    max_iterations = 50;
    inertia = lit.decimal 2 1;
    cognitive = lit.decimal 4 1;
    social = lit.decimal 4 1;
  };
  depth = lit.decimal 400 1;
  time_max = lit.decimal 1200 1;
  time_delta = lit.decimal 1 2;
  threshold = lit.decimal 1 2;
  timeout = lit.decimal 1200 1;
  interactive = false;
  iterations = 12;
  min_gear = 5;
  max_gear = 50;
  num_gear = 8;
}

-- The assignment of a `double` to a `timelib::timespec_t`.
pub record Seconds {ℓ} (Real Timespec : Type ℓ) : Type ℓ where
  pub of_seconds : Real → Timespec

-- What a run leaves: the sorted result of a search and, with `--pso`, the optimised result and the
-- comparison of the two; or the simulations, each with the number that names its mode.
pub data Run {ℓ} (Real State : Type ℓ) : Type ℓ where
  searched :
      Result Real State (Resources Real)
      → Option (Result Real State (Resources Real) × List (Line Real))
      → Run Real State
  simulated : List (ℕ × Simulation Real State (Resources Real)) → Run Real State
  neither : Run Real State

-- The algorithm of a number. With any other number, the result stays empty.
unfoldable pub algorithm_of : ℕ → Option SearchAlgorithm
algorithm_of n =
    if n == 0
    then some heuristic
    else if n == 1
    then some exhaustive
    else if n == 2
    then some single_machine
    else none

module _ {ℓ} {Real State System Input Timespec : Type ℓ} ⦃d : Double Real⦄ ⦃t : Tolerant Real⦄
    (m : Manager Real State (Mode System Input) (Resources Real) Timespec) where
  -- The loop over the modes.
  unfoldable pub simulate_modes :
      (steps : ℕ)
      → List (Mode System Input)
      → Outcome (List (ℕ × Simulation Real State (Resources Real)))
  simulate_modes steps [] = ok []
  simulate_modes steps (mode ∷ rest) = do
    data' ← simulate_single_mode (some m) mode steps
    simulations ← simulate_modes steps rest
    ok ((mode.id, data') ∷ simulations)

  unfoldable pub run_simulation : (modes : List (Mode System Input)) → Outcome (Run Real State)
  run_simulation modes = do
    steps ← or_throw (d.to_unsigned (m.time_max ⊘ m.time_delta)) undefined
    simulations ← simulate_modes steps modes
    ok (simulated simulations)

  module _ {World : Type ℓ} (fuel : ℕ) (modes : List (Mode System Input)) (options : Options Real)
      ⦃alg : Algorithms (Solution Real State (Resources Real))⦄ ⦃clock : Clock Real World⦄
      ⦃deadline : Deadline Timespec World⦄ (world : World) (keys : List ℕ) where
    unfoldable pub search_with :
        Option SearchAlgorithm → Outcome (Result Real State (Resources Real))
    search_with none = ok (record { pareto_fronts = [] })
    search_with (some algorithm) =
        perform_search algorithm (some m) fuel modes options.iterations world keys

    unfoldable pub run_search : (seeds : ℕ → ℕ → Real) → Outcome (Run Real State)
    run_search seeds = do
      found ← search_with (algorithm_of options.algorithm)
      fronts ← sort_fronts found.pareto_fronts
      let results : Result Real State (Resources Real) = record { pareto_fronts = fronts }
      let refined = do
        optimized ← optimize_result (some m) options.solver fuel modes seeds results
        ok (searched results (some (optimized, compare_results results optimized)))
      if options.pso then refined else ok (searched results none)

    -- The branches on `--run`.
    unfoldable pub run_option : (seeds : ℕ → ℕ → Real) → Outcome (Run Real State)
    run_option seeds =
        if options.run == 0
        then run_search seeds
        else if options.run == 1
        then run_simulation modes
        else ok neither

unfoldable pub gear_factors {ℓ} :
    {Real : Type ℓ} ⦃d : Double Real⦄ ⦃t : Tolerant Real⦄ → Options Real → List Real
gear_factors ⦃d⦄ options =
    linspace (d.of_ℕ options.max_gear) (d.of_ℕ options.min_gear) options.num_gear

module _ {ℓ} {Real Vector : Type ℓ} (Matrix : Type ℓ) ⦃d : Double Real⦄
    ⦃ctl : Control Real Vector Matrix⦄ where
  -- The state of the machine at rest, at a depth.
  abbrev pub at_depth : Real → Vector
  at_depth depth = ctl.of_entries (d.of_ℕ 0 ∷ d.of_ℕ 0 ∷ depth ∷ [])

module _ {ℓ} {Real Vector Matrix : Type ℓ} ⦃d : Double Real⦄ ⦃t : Tolerant Real⦄
    ⦃lit : Literals Real⦄ ⦃ctl : Control Real Vector Matrix⦄ (options : Options Real) where
  unfoldable pub discrete_modes :
      List (Parameters Real) × List (Mode (DiscreteStateSpace Real Matrix) Vector)
  discrete_modes =
      build_modes (λ p i. make_discrete_mode p i options.time_delta) 0 default_parameters
        (gear_factors options)

  unfoldable pub continuous_modes : List (Parameters Real) × List (Mode (StateSpace Matrix) Vector)
  continuous_modes = build_modes make_continuous_mode 0 default_parameters (gear_factors options)

module _ {ℓ} {Real Vector : Type ℓ} (Matrix Timespec : Type ℓ) ⦃d : Double Real⦄ ⦃t : Tolerant Real⦄
    ⦃v : Indexed Real Vector⦄ ⦃lit : Literals Real⦄ ⦃ctl : Control Real Vector Matrix⦄
    ⦃seconds : Seconds Real Timespec⦄ (options : Options Real) where
  abbrev pub discrete :
      ⦃lin : Linear Vector (DiscreteStateSpace Real Matrix)⦄
      → Manager Real Vector (Mode (DiscreteStateSpace Real Matrix) Vector) (Resources Real) Timespec
  discrete =
      discrete_search (at_depth Matrix (d.of_ℕ 0)) (at_depth Matrix options.depth)
        options.time_delta options.time_max options.threshold (seconds.of_seconds options.timeout)
        options.interactive

  abbrev pub continuous :
      ⦃lin : Linear Vector (StateSpace Matrix)⦄ ⦃int : Integrator Real Vector⦄
      → Manager Real Vector (Mode (StateSpace Matrix) Vector) (Resources Real) Timespec
  continuous =
      continuous_search (at_depth Matrix (d.of_ℕ 0)) (at_depth Matrix options.depth)
        options.time_delta options.time_max options.threshold (seconds.of_seconds options.timeout)
        options.interactive

  module _ {World : Type ℓ} ⦃alg : Algorithms (Solution Real Vector (Resources Real))⦄
      ⦃clock : Clock Real World⦄ ⦃deadline : Deadline Timespec World⦄ (fuel : ℕ) (world : World)
      (keys : List ℕ) (seeds : ℕ → ℕ → Real) where
    unfoldable pub execute_in_discrete_mode :
        ⦃lin : Linear Vector (DiscreteStateSpace Real Matrix)⦄ → Outcome (Run Real Vector)
    execute_in_discrete_mode =
        run_option discrete fuel (discrete_modes options).1 options world keys seeds

    unfoldable pub execute_in_continuous_mode :
        ⦃lin : Linear Vector (StateSpace Matrix)⦄ ⦃int : Integrator Real Vector⦄
        → Outcome (Run Real Vector)
    execute_in_continuous_mode =
        run_option continuous fuel (continuous_modes options).1 options world keys seeds

    -- Without arguments, with `--help` and in any other mode there is no run.
    unfoldable pub main :
        ⦃discrete_lin : Linear Vector (DiscreteStateSpace Real Matrix)⦄
        ⦃lin : Linear Vector (StateSpace Matrix)⦄ ⦃int : Integrator Real Vector⦄
        → Outcome (Run Real Vector)
    main =
        if options.no_arguments || options.help
        then ok neither
        else if options.mode == 0
        then execute_in_discrete_mode
        else if options.mode == 1
        then execute_in_continuous_mode
        else ok neither

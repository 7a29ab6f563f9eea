-- ===== src/Program/Simulating.antt =====
-- What the program leaves when it simulates.
use flexman.Base.{
  ℕ, zero, suc, ◌<◌, ◌≡◌, refl, ap, false, ◌==◌, ==_iff, some, List, [], ◌∷◌, length, get_elem?,
  subst, Returns, throw, Option, Settles, >>=-Settles, then-Settles, Returns-Settles, or_throw,
  or_throw-Settles, or_throw-Ensures, undefined, ◌≢◌, zero_steps, arith,
}
use flexman.Double.{Double, ◌⊘◌}
use flexman.Core.Execution.{Mode}
use flexman.Core.Solution.{Solution}
use flexman.Core.Manager.{Manager}
use flexman.Search.Algorithms.{Algorithms}
use flexman.Search.Extension.{Clock, Deadline}
use flexman.Simulation.{Simulation, simulate_single_mode, empty_solution}
use flexman.Simulation.Evolution.{IsEvolution, simulate_single_mode-IsEvolution}
use flexman.Tapping.{
  Tolerant, Indexed, Linear, Integrator, Resources, tapping_resources, tapping_meters,
}
use flexman.Tapping.Systems.{Literals, Control, StateSpace, DiscreteStateSpace}
use flexman.Program.Execute.{
  Options, Seconds, Run, simulated, simulate_modes, run_simulation, run_option, discrete_modes,
  continuous_modes, discrete, continuous, execute_in_discrete_mode, execute_in_continuous_mode,
}
use flexman.Program.Numbering.{discrete_modes-AreBuilt}

module _ {ℓ} {Real State System Input Timespec : Type ℓ} ⦃d : Double Real⦄ ⦃t : Tolerant Real⦄
    (m : Manager Real State (Mode System Input) (Resources Real) Timespec) where
  -- For the k-th mode, the k-th simulation has its number, and is its evolution.
  abbrev pub Simulates :
      ℕ → List (Mode System Input) → List (ℕ × Simulation Real State (Resources Real)) → Type ℓ
  Simulates steps modes simulations =
      (length simulations ≡ length modes)
      × ((k : ℕ) (mode : Mode System Input)
          → get_elem? modes k ≡ some mode
          → (data' : Simulation Real State (Resources Real)) × (get_elem? simulations k
              ≡ some (mode.id, data'))
            × IsEvolution m mode steps (empty_solution m) data'.evolution)

  simulate_modes-Simulates :
      (steps : ℕ)
      → 0 < steps
      → (modes : List (Mode System Input))
      → Returns (Simulates steps modes) (simulate_modes m steps modes)
  unfolding simulate_modes
  simulate_modes-Simulates steps h [] = ([], refl, (refl, λ k mode e. cc))
  simulate_modes-Simulates steps h (mode ∷ modes) =
      let (data', eq, (evolution, _, _)) = simulate_single_mode-IsEvolution m mode steps h in
      let (rest, eqs, (same, sims)) = simulate_modes-Simulates steps h modes in
      ((mode.id, data') ∷ rest, rw (eq, eqs) refl, (ap suc same, at data' evolution rest sims))
    where
      at :
          (data' : Simulation Real State (Resources Real))
          → IsEvolution m mode steps (empty_solution m) data'.evolution
          → (rest : List (ℕ × Simulation Real State (Resources Real)))
          → ((k : ℕ) (other : Mode System Input)
              → get_elem? modes k ≡ some other
              → (data'' : Simulation Real State (Resources Real)) × (get_elem? rest k
                  ≡ some (other.id, data''))
                × IsEvolution m other steps (empty_solution m) data''.evolution)
          → (k : ℕ) (other : Mode System Input) → get_elem? (mode ∷ modes) k ≡ some other
          → (data'' : Simulation Real State (Resources Real)) × (get_elem?
                ((mode.id, data') ∷ rest)
                k
              ≡ some (other.id, data''))
            × IsEvolution m other steps (empty_solution m) data''.evolution
      at data' evolution rest sims zero other e =
          let same : mode ≡ other = cc in
          subst
            (λ x.
              (data'' : Simulation Real State (Resources Real)) × (get_elem?
                  ((mode.id, data') ∷ rest) 0
                ≡ some (x.id, data''))
              × IsEvolution m x steps (empty_solution m) data''.evolution)
            same (data', refl, evolution)
      at data' evolution rest sims (suc k) other e = sims k other e

  -- The run is a simulation of the modes.
  abbrev pub Evolves : ℕ → List (Mode System Input) → Run Real State → Type ℓ
  Evolves steps modes r =
      (simulations : List (ℕ × Simulation Real State (Resources Real))) × (r
        ≡ simulated simulations)
      × Simulates steps modes simulations

  pub run_simulation-Evolves :
      (modes : List (Mode System Input))
      → (steps : ℕ) → 0 < steps
      → d.to_unsigned (m.time_max ⊘ m.time_delta) ≡ some steps
      → Returns (Evolves steps modes) (run_simulation m modes)
  unfolding run_simulation
  run_simulation-Evolves modes steps h count =
      let (simulations, eq, s) = simulate_modes-Simulates steps h modes in
      (simulated simulations, rw (count, eq) refl, (simulations, refl, s))

  pub run_simulation-Settles :
      (modes : List (Mode System Input))
      → d.to_unsigned (m.time_max ⊘ m.time_delta) ≢ some 0
      → Settles (run_simulation m modes)
  unfolding run_simulation
  run_simulation-Settles modes h =
      >>=-Settles _ (or_throw (d.to_unsigned (m.time_max ⊘ m.time_delta)) undefined) _
        (or_throw-Settles _) (or_throw-Ensures _ _)
        λ steps count.
          then-Settles (simulate_modes m steps modes) _
            (Returns-Settles _ (simulate_modes-Simulates steps (positive steps count) modes))
            λ simulations. tt
    where
      positive : (steps : ℕ) → d.to_unsigned (m.time_max ⊘ m.time_delta) ≡ some steps → 0 < steps
      positive zero count = absurd (h count)
      positive (suc steps) count = omega arith

  pub run_simulation-zero_steps :
      (modes : List (Mode System Input))
      → 0 < length modes
      → d.to_unsigned (m.time_max ⊘ m.time_delta) ≡ some 0
      → run_simulation m modes ≡ throw zero_steps
  unfolding run_simulation simulate_modes simulate_single_mode
  run_simulation-zero_steps [] many none_left = absurd (omega arith)
  run_simulation-zero_steps (mode ∷ modes) many none_left = rw none_left refl

-- `simulation_steps`
abbrev pub simulation_steps {ℓ} : {Real : Type ℓ} ⦃d : Double Real⦄ → Options Real → Option ℕ
simulation_steps ⦃d⦄ options = d.to_unsigned (options.time_max ⊘ options.time_delta)

module _ {ℓ} {Real Vector World : Type ℓ} (Matrix Timespec : Type ℓ) ⦃d : Double Real⦄
    ⦃t : Tolerant Real⦄ ⦃v : Indexed Real Vector⦄ ⦃lit : Literals Real⦄
    ⦃ctl : Control Real Vector Matrix⦄ ⦃seconds : Seconds Real Timespec⦄
    ⦃alg : Algorithms (Solution Real Vector (Resources Real))⦄ ⦃clock : Clock Real World⦄
    ⦃deadline : Deadline Timespec World⦄
    ⦃discrete_lin : Linear Vector (DiscreteStateSpace Real Matrix)⦄
    ⦃lin : Linear Vector (StateSpace Matrix)⦄ ⦃int : Integrator Real Vector⦄
    (options : Options Real) (fuel : ℕ) (world : World) (keys : List ℕ) (seeds : ℕ → ℕ → Real) where
  -- Asked to simulate, with a maximum time of at least one step and of a number of steps that fits
  -- `unsigned`, the run of either mode returns: it simulates every mode, in order, and the simulation
  -- of a mode is the trace of its updates up to the first complete solution, and to that number of
  -- them at most.
  pub execute-Evolves :
      options.run ≡ 1
      → (steps : ℕ) → 0 < steps
      → simulation_steps options ≡ some steps
      → Returns
          (Evolves {State = Vector}
            (discrete Matrix Timespec options)
            steps
            (discrete_modes options).1)
          (execute_in_discrete_mode Matrix Timespec options fuel world keys seeds)
        × Returns
            (Evolves {State = Vector}
              (continuous Matrix Timespec options)
              steps
              (continuous_modes options).1)
            (execute_in_continuous_mode Matrix Timespec options fuel world keys seeds)
  unfolding execute_in_discrete_mode execute_in_continuous_mode run_option
  execute-Evolves asks steps h count =
      let one : (options.run == 0) ≡ false = ground arith in
      let test = (==_iff options.run 1).1 asks in
      (
        rw (one, test)
            (run_simulation-Evolves (discrete Matrix Timespec options) (discrete_modes options).1
              steps h count),
        rw (one, test)
            (run_simulation-Evolves (continuous Matrix Timespec options)
              (continuous_modes options).1 steps h count),
      )

  -- Asked to simulate at least one gear, with a maximum time of less than one step, the run of either
  -- mode throws that the steps are zero, which nothing catches.
  pub execute_refuses :
      options.run ≡ 1
      → 0 < options.num_gear
      → simulation_steps options ≡ some 0
      → (execute_in_discrete_mode {Vector = Vector} Matrix Timespec options fuel world keys seeds
          ≡ throw zero_steps)
        × (execute_in_continuous_mode {Vector = Vector} Matrix Timespec options fuel world keys
              seeds
            ≡ throw zero_steps)
  unfolding execute_in_discrete_mode execute_in_continuous_mode run_option
  execute_refuses asks many none_left =
      let one : (options.run == 0) ≡ false = ground arith in
      let test = (==_iff options.run 1).1 asks in
      let (gears, (_, built, _), (_, built', _)) =
        discrete_modes-AreBuilt {Vector = Vector} {Matrix = Matrix} options in
      (
        rw (one, test)
            (run_simulation-zero_steps (discrete Matrix Timespec options) (discrete_modes options).1
              (omega (arith, gears, built)) none_left),
        rw (one, test)
            (run_simulation-zero_steps (continuous Matrix Timespec options)
              (continuous_modes options).1 (omega (arith, gears, built')) none_left),
      )

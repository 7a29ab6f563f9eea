-- ===== src/Swarm.antt =====
-- include/flexman/pso: particle swarm optimisation of the sequences of a result. The random numbers
-- are a parameter: what `initialize_random_generator(1.0, 10.0)` and its generator give.
pub mod Optimize
pub mod Fitness
pub mod Shape
pub mod Fronts
pub mod Ending
use flexman.Base.{
  ℕ, Bool, if◌then◌else◌, some, List, [], ◌∷◌, Outcome, ok, throw, ◌>>=◌, or_throw, undefined,
}
use flexman.Double.{Double, Consumable, Metered, ◌⊕◌, ◌⊖◌, ◌⊗◌, ◌≺◌, max_of}
use flexman.Core.Execution.{ModeExecution}
use flexman.Core.Solution.{Solution}
use flexman.Core.Manager.{Manager}
use flexman.Simulation.{generate_solution}

pub record SolverParameters {ℓ} (Real : Type ℓ) : Type ℓ where
  pub num_particles : ℕ
  pub max_iterations : ℕ
  pub inertia : Real
  pub cognitive : Real
  pub social : Real

-- One particle of the swarm: its entries in the five vectors.
pub record Particle {ℓ} (Real : Type ℓ) : Type ℓ where
  pub position : List ModeExecution
  pub velocity : List Real
  pub personal_best : List ModeExecution
  pub personal_best_fitness : Real

-- What `evaluate_particle` has by reference.
pub record Bests {ℓ} (Real : Type ℓ) : Type ℓ where
  pub global_best : List ModeExecution
  pub global_best_fitness : Real

module _ {ℓ} {Real : Type ℓ} ⦃d : Double Real⦄ where
  unfoldable pub update_particle_velocity_and_position :
      SolverParameters Real
      → (personal_best global_best : ModeExecution) (velocity : Real) (particle : ModeExecution)
      → Outcome (Real × ModeExecution)
  update_particle_velocity_and_position parameters personal_best global_best velocity particle =
      let here = d.of_ℕ particle.times in
      let inertia_contribution = parameters.inertia ⊗ velocity in
      let cognitive_contribution = parameters.cognitive ⊗ (d.of_ℕ personal_best.times ⊖ here) in
      let social_contribution = parameters.social ⊗ (d.of_ℕ global_best.times ⊖ here) in
      let velocity' = inertia_contribution ⊕ cognitive_contribution ⊕ social_contribution in
      let updated_times = here ⊕ velocity' in
      do
        times' ← or_throw (d.to_size (max_of updated_times (d.of_ℕ 1))) undefined
        ok (velocity', record particle { times = times' })

  -- The inner loop of `update_all_particles`, from mode `j` on. The vectors do not check `[j]`.
  unfoldable pub update_modes :
      SolverParameters Real
      → (personal_best global_best : List ModeExecution)
      → (velocities : List Real) (particle : List ModeExecution)
      → Outcome (List Real × List ModeExecution)
  update_modes parameters _ _ velocities [] = ok (velocities, [])
  update_modes parameters (p ∷ ps) (g ∷ gs) (v ∷ vs) (x ∷ xs) = do
    (v', x') ← update_particle_velocity_and_position parameters p g v x
    (vs', xs') ← update_modes parameters ps gs vs xs
    ok (v' ∷ vs', x' ∷ xs')
  update_modes parameters _ _ _ (x ∷ xs) = throw undefined

  unfoldable pub update_all_particles :
      SolverParameters Real
      → (global_best : List ModeExecution) (particles : List (Particle Real))
      → Outcome (List (Particle Real))
  update_all_particles parameters global_best [] = ok []
  update_all_particles parameters global_best (p ∷ ps) = do
    (velocity, position) ← update_modes parameters p.personal_best global_best p.velocity p.position
    rest ← update_all_particles parameters global_best ps
    ok (record p { velocity = velocity; position = position } ∷ rest)

module _ {ℓ} {Real State Mode Resources Timespec : Type ℓ} ⦃d : Double Real⦄
    ⦃c : Consumable Resources⦄ ⦃r : Metered Real Resources⦄ where
  -- The energy and the time of a complete solution; the highest number for another.
  unfoldable pub fitness_of :
      Manager Real State Mode Resources Timespec → Solution Real State Resources → Real
  fitness_of m solution =
      if m.is_complete solution
      then r.energy solution.resources ⊕ r.time solution.resources
      else d.highest

  unfoldable pub evaluate_particle :
      Manager Real State Mode Resources Timespec
      → (fuel : ℕ) (modes : List Mode) (particle : Particle Real) (bests : Bests Real)
      → Outcome (Bool × Particle Real × Bests Real)
  evaluate_particle m fuel modes p bests = do
    solution ← generate_solution (some m) fuel modes p.position
    let fitness = fitness_of m solution
    let p' =
        if fitness ≺ p.personal_best_fitness
        then (record p { personal_best = p.position; personal_best_fitness = fitness })
        else p
    let bests' =
        if fitness ≺ bests.global_best_fitness
        then (record bests { global_best = p.position; global_best_fitness = fitness })
        else bests
    ok (m.is_complete solution, p', bests')

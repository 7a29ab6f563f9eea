-- ===== src/Swarm/Optimize.antt =====
-- pso/optimize.hpp: `optimize_solution`, `optimize_pareto_front` and `optimize_result`.
-- Each call of `optimize_solution` has a generator of its own: `draws n` is the n-th number that a
-- generator gives, and `seeds k` are the draws of the k-th call.
use flexman.Base.{
  ℕ, zero, suc, ◌+◌, Option, some, List, [], ◌∷◌, Outcome, ok, throw, ◌>>=◌, or_throw, undefined,
  map,
}
use flexman.Double.{Double, Consumable, Metered, ◌⊕◌, ◌⊖◌, max_of}
use flexman.Core.Execution.{ModeExecution}
use flexman.Core.Solution.{Solution, ParetoFront, Result}
use flexman.Core.Manager.{Manager}
use flexman.Simulation.{generate_solution}
use flexman.Swarm.{SolverParameters, Particle, Bests, update_all_particles, evaluate_particle}

module _ {ℓ} {Real : Type ℓ} ⦃d : Double Real⦄ where
  -- The loop over the modes of a particle, from the n-th draw on.
  unfoldable pub randomize :
      (draws : ℕ → Real) (n : ℕ) → List ModeExecution → Outcome (List ModeExecution × ℕ)
  randomize draws n [] = ok ([], n)
  randomize draws n (e ∷ es) = do
    let shifted = d.of_ℕ e.times ⊕ draws n ⊖ d.of_ℕ 5
    times' ← or_throw (d.to_size (max_of shifted (d.of_ℕ 1))) undefined
    (rest, end) ← randomize draws (n + 1) es
    ok (record e { times = times' } ∷ rest, end)

  -- The initialisation of `count` particles.
  unfoldable pub initial_particles :
      (draws : ℕ → Real) (n count : ℕ) (sequence : List ModeExecution)
      → Outcome (List (Particle Real))
  initial_particles draws n zero sequence = ok []
  initial_particles draws n (suc count) sequence = do
    (position, end) ← randomize draws n sequence
    rest ← initial_particles draws end count sequence
    let particle : Particle Real = record {
      position = position;
      velocity = map (λ _. d.of_ℕ 0) sequence;
      personal_best = sequence;
      personal_best_fitness = d.highest;
    }
    ok (particle ∷ rest)

  -- `personal_best[0]`
  abbrev pub first_best : List (Particle Real) → Outcome (List ModeExecution)
  first_best [] = throw undefined
  first_best (p ∷ ps) = ok p.personal_best

module _ {ℓ} {Real State Mode Resources Timespec : Type ℓ} ⦃d : Double Real⦄
    ⦃c : Consumable Resources⦄ ⦃r : Metered Real Resources⦄ where
  -- The loop that evaluates the swarm. The count of valid solutions is only logged.
  unfoldable pub evaluate_all :
      Manager Real State Mode Resources Timespec
      → (fuel : ℕ) (modes : List Mode) (particles : List (Particle Real)) (bests : Bests Real)
      → Outcome (List (Particle Real) × Bests Real)
  evaluate_all m fuel modes [] bests = ok ([], bests)
  evaluate_all m fuel modes (p ∷ ps) bests = do
    (valid, p', bests') ← evaluate_particle m fuel modes p bests
    (rest, bests'') ← evaluate_all m fuel modes ps bests'
    ok (p' ∷ rest, bests'')

  -- The main loop, with `left` iterations to go.
  unfoldable pub swarm_rounds :
      Manager Real State Mode Resources Timespec
      → SolverParameters Real
      → (fuel : ℕ) (modes : List Mode) (left : ℕ) (particles : List (Particle Real))
      → (bests : Bests Real) → Outcome (List (Particle Real) × Bests Real)
  swarm_rounds m parameters fuel modes zero particles bests = ok (particles, bests)
  swarm_rounds m parameters fuel modes (suc left) particles bests = do
    (evaluated, bests') ← evaluate_all m fuel modes particles bests
    updated ← update_all_particles parameters bests'.global_best evaluated
    swarm_rounds m parameters fuel modes left updated bests'

  unfoldable pub optimize_solution :
      Option (Manager Real State Mode Resources Timespec)
      → SolverParameters Real
      → (fuel : ℕ) (modes : List Mode) (draws : ℕ → Real)
      → (initial : Solution Real State Resources) → Outcome (Solution Real State Resources)
  optimize_solution manager parameters fuel modes draws initial = do
    m ← or_throw manager undefined
    let fitness = r.energy initial.resources ⊕ r.time initial.resources
    particles ← initial_particles draws 0 parameters.num_particles initial.sequence
    best ← first_best particles
    (_, bests) ←
        swarm_rounds m parameters fuel modes parameters.max_iterations particles
          (record { global_best = best; global_best_fitness = fitness })
    generate_solution (some m) fuel modes bests.global_best

  -- The loop over the solutions of a front, from the k-th call of `optimize_solution` on.
  unfoldable pub optimize_solutions :
      Option (Manager Real State Mode Resources Timespec)
      → SolverParameters Real
      → (fuel : ℕ) (modes : List Mode) (seeds : ℕ → ℕ → Real) (k : ℕ)
      → (solutions : List (Solution Real State Resources))
      → Outcome (List (Solution Real State Resources) × ℕ)
  optimize_solutions manager parameters fuel modes seeds k [] = ok ([], k)
  optimize_solutions manager parameters fuel modes seeds k (s ∷ ss) = do
    better ← optimize_solution manager parameters fuel modes (seeds k) s
    (rest, end) ← optimize_solutions manager parameters fuel modes seeds (k + 1) ss
    ok (better ∷ rest, end)

  unfoldable pub optimize_pareto_front :
      Option (Manager Real State Mode Resources Timespec)
      → SolverParameters Real
      → (fuel : ℕ) (modes : List Mode) (seeds : ℕ → ℕ → Real) (k : ℕ)
      → (pareto_front : ParetoFront Real State Resources)
      → Outcome (ParetoFront Real State Resources × ℕ)
  optimize_pareto_front manager parameters fuel modes seeds k front = do
    (optimized, end) ← optimize_solutions manager parameters fuel modes seeds k front.solutions
    ok (record front { solutions = optimized }, end)

  -- The loop over the fronts.
  unfoldable pub optimize_fronts :
      Option (Manager Real State Mode Resources Timespec)
      → SolverParameters Real
      → (fuel : ℕ) (modes : List Mode) (seeds : ℕ → ℕ → Real) (k : ℕ)
      → (fronts : List (ParetoFront Real State Resources))
      → Outcome (List (ParetoFront Real State Resources))
  optimize_fronts manager parameters fuel modes seeds k [] = ok []
  optimize_fronts manager parameters fuel modes seeds k (f ∷ fs) = do
    (front, next) ← optimize_pareto_front manager parameters fuel modes seeds k f
    rest ← optimize_fronts manager parameters fuel modes seeds next fs
    ok (front ∷ rest)

  unfoldable pub optimize_result :
      Option (Manager Real State Mode Resources Timespec)
      → SolverParameters Real
      → (fuel : ℕ) (modes : List Mode) (seeds : ℕ → ℕ → Real)
      → (result : Result Real State Resources) → Outcome (Result Real State Resources)
  optimize_result manager parameters fuel modes seeds result = do
    fronts ← optimize_fronts manager parameters fuel modes seeds 0 result.pareto_fronts
    ok (record { pareto_fronts = fronts })

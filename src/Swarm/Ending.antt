-- ===== src/Swarm/Ending.antt =====
-- The optimisation of a result ends, where the interpolations of a replay end.
use flexman.Base.{
  ℕ, zero, suc, ◌+◌, ◌<◌, ◌≡◌, refl, true, false, some, List, [], ◌∷◌, get_elem?, or_throw,
  undefined, Settles, >>=-Settles, Ensures, >>=-Ensures, or_throw-Ensures, then-Settles,
  or_throw-Settles, Bool-cases, inl, inr,
}
use flexman.Double.{Double, Consumable, Metered, ◌≼◌}
use flexman.Core.Execution.{ModeExecution}
use flexman.Core.Solution.{Solution, ParetoFront, Result}
use flexman.Core.Manager.{Manager}
use flexman.Search.Interpolation.{interpolation_step}
use flexman.Search.Interpolation.Sampling.{time_after, find_solution_closest_to_zero-IsFirstSample}
use flexman.Search.Iteration.Stepwise.{Samples, find_solution_closest_to_zero-Ensures}
use flexman.Simulation.{empty_solution, replay_step, replay_rounds, replay, generate_solution}
use flexman.Swarm.{
  SolverParameters, Particle, Bests, update_particle_velocity_and_position, update_modes,
  update_all_particles, evaluate_particle,
}
use flexman.Swarm.Optimize.{
  randomize, initial_particles, first_best, evaluate_all, swarm_rounds, optimize_solution,
  optimize_solutions, optimize_pareto_front, optimize_fronts, optimize_result,
}

module _ {ℓ} {Real : Type ℓ} ⦃d : Double Real⦄ where
  update_modes-Settles :
      (parameters : SolverParameters Real) (ps gs : List ModeExecution) (vs : List Real)
      (xs : List ModeExecution)
      → Settles (update_modes parameters ps gs vs xs)
  unfolding update_modes update_particle_velocity_and_position
  update_modes-Settles parameters ps gs vs [] = tt
  update_modes-Settles parameters [] gs vs (x ∷ xs) = refl
  update_modes-Settles parameters (p ∷ ps) [] vs (x ∷ xs) = refl
  update_modes-Settles parameters (p ∷ ps) (g ∷ gs) [] (x ∷ xs) = refl
  update_modes-Settles parameters (p ∷ ps) (g ∷ gs) (v ∷ vs) (x ∷ xs) =
      then-Settles (update_particle_velocity_and_position parameters p g v x) _
        (then-Settles (or_throw (d.to_size _) undefined) _ (or_throw-Settles _) λ times'. tt)
        λ (v', x').
          then-Settles (update_modes parameters ps gs vs xs) _
            (update_modes-Settles parameters ps gs vs xs) λ _. tt

  update_all_particles-Settles :
      (parameters : SolverParameters Real) (global_best : List ModeExecution)
      (particles : List (Particle Real))
      → Settles (update_all_particles parameters global_best particles)
  unfolding update_all_particles
  update_all_particles-Settles parameters global_best [] = tt
  update_all_particles-Settles parameters global_best (p ∷ ps) =
      then-Settles (update_modes parameters p.personal_best global_best p.velocity p.position) _
        (update_modes-Settles parameters _ _ _ _)
        λ _.
          then-Settles (update_all_particles parameters global_best ps) _
            (update_all_particles-Settles parameters global_best ps) λ _. tt

  randomize-Settles :
      (draws : ℕ → Real) (n : ℕ) (sequence : List ModeExecution)
      → Settles (randomize draws n sequence)
  unfolding randomize
  randomize-Settles draws n [] = tt
  randomize-Settles draws n (e ∷ es) =
      then-Settles (or_throw (d.to_size _) undefined) _ (or_throw-Settles _) λ times'.
        then-Settles (randomize draws (n + 1) es) _ (randomize-Settles draws (n + 1) es) λ _. tt

  initial_particles-Settles :
      (draws : ℕ → Real) (n count : ℕ) (sequence : List ModeExecution)
      → Settles (initial_particles draws n count sequence)
  unfolding initial_particles
  initial_particles-Settles draws n zero sequence = tt
  initial_particles-Settles draws n (suc count) sequence =
      then-Settles (randomize draws n sequence) _ (randomize-Settles draws n sequence)
        λ (position, end).
          then-Settles (initial_particles draws end count sequence) _
            (initial_particles-Settles draws end count sequence) λ _. tt

  first_best-Settles : (particles : List (Particle Real)) → Settles (first_best particles)
  first_best-Settles [] = refl
  first_best-Settles (p ∷ ps) = tt

module _ {ℓ} {Real State Mode Resources Timespec : Type ℓ} ⦃d : Double Real⦄
    ⦃c : Consumable Resources⦄ (P : Solution Real State Resources → Type 0)
    (m : Manager Real State Mode Resources Timespec) (fuel : ℕ) (modes : List Mode) where
  -- The property holds of the empty solution, each round of a replay and each interpolation after a
  -- round that completes keep it;
  -- and whenever a round completes a solution that has it, the times of the interpolation that
  -- follows pass the time delta within the fuel. So a replay starts no other interpolations.
  pub record IsReplayable : Type ℓ where
    pub initial : P (empty_solution m)
    pub kept :
        (number : ℕ) (mode : Mode) (s : Solution Real State Resources)
        → get_elem? modes number ≡ some mode
        → P s
        → P (replay_step m number mode s)
          × (m.is_complete (replay_step m number mode s) ≡ true
              → Samples P m s (replay_step m number mode s))
    pub ends :
        (number : ℕ) (mode : Mode) (s : Solution Real State Resources)
        → get_elem? modes number ≡ some mode
        → P s
        → m.is_complete (replay_step m number mode s) ≡ true
        → (n : ℕ) × (n < fuel)
          × ((time_after (interpolation_step m s) n (d.of_ℕ 0) ≼ m.time_delta) ≡ false)

module _ {ℓ} {Real State Mode Resources Timespec : Type ℓ} ⦃d : Double Real⦄
    ⦃c : Consumable Resources⦄ (P : Solution Real State Resources → Type 0)
    (m : Manager Real State Mode Resources Timespec) (fuel : ℕ) (modes : List Mode)
    (replayable : IsReplayable P m fuel modes) where
  replay_rounds-Settles :
      (number left : ℕ) (s : Solution Real State Resources)
      → P s
      → Settles (replay_rounds m fuel number modes left s)
  unfolding replay_rounds
  replay_rounds-Settles number zero s h = tt
  replay_rounds-Settles number (suc left) s h =
      >>=-Settles _ (or_throw (get_elem? modes number) undefined) _ (or_throw-Settles _)
        (or_throw-Ensures _ _)
        λ mode at.
          let next = replay_step m number mode s in
          elim (Bool-cases (m.is_complete next)) [
            | inl e ↦
                let (n, l, out) = replayable.ends number mode s at h e in
                let (r, eq, _) =
                  find_solution_closest_to_zero-IsFirstSample m s next n fuel out l in
                rw (e, eq) tt
            | inr e ↦
                rw e (replay_rounds-Settles number left next (replayable.kept number mode s at h).0)
          ]

  replay_rounds-Ensures :
      (number left : ℕ) (s : Solution Real State Resources)
      → P s
      → Ensures P (replay_rounds m fuel number modes left s)
  unfolding replay_rounds
  replay_rounds-Ensures number zero s h = h
  replay_rounds-Ensures number (suc left) s h =
      >>=-Ensures _ _ (or_throw (get_elem? modes number) undefined) _ (or_throw-Ensures _ _)
        λ mode at.
          let next = replay_step m number mode s in
          let (k, sampled) = replayable.kept number mode s at h in
          elim (Bool-cases (m.is_complete next)) [
            | inl e ↦ rw e (find_solution_closest_to_zero-Ensures P m s next (sampled e) k fuel)
            | inr e ↦ rw e (replay_rounds-Ensures number left next k)
          ]

  replay-Settles :
      (sequence : List ModeExecution) (s : Solution Real State Resources)
      → P s
      → Settles (replay m fuel modes sequence s)
  unfolding replay
  replay-Settles [] s h = tt
  replay-Settles (e ∷ sequence) s h =
      >>=-Settles _ (replay_rounds m fuel e.mode modes e.times s) _
        (replay_rounds-Settles e.mode e.times s h) (replay_rounds-Ensures e.mode e.times s h)
        (replay-Settles sequence)

  generate_solution-Settles :
      (sequence : List ModeExecution) → Settles (generate_solution (some m) fuel modes sequence)
  unfolding generate_solution
  generate_solution-Settles sequence = replay-Settles sequence (empty_solution m) replayable.initial

  module _ ⦃r : Metered Real Resources⦄ (parameters : SolverParameters Real) where
    evaluate_all-Settles :
        (ps : List (Particle Real)) (b : Bests Real) → Settles (evaluate_all m fuel modes ps b)
    unfolding evaluate_all evaluate_particle
    evaluate_all-Settles [] b = tt
    evaluate_all-Settles (p ∷ ps) b =
        then-Settles (evaluate_particle m fuel modes p b) _
          (then-Settles (generate_solution (some m) fuel modes p.position) _
            (generate_solution-Settles p.position) λ _. tt)
          λ (valid, p', b').
            then-Settles (evaluate_all m fuel modes ps b') _ (evaluate_all-Settles ps b') λ _. tt

    swarm_rounds-Settles :
        (left : ℕ) (ps : List (Particle Real)) (b : Bests Real)
        → Settles (swarm_rounds m parameters fuel modes left ps b)
    unfolding swarm_rounds
    swarm_rounds-Settles zero ps b = tt
    swarm_rounds-Settles (suc left) ps b =
        then-Settles (evaluate_all m fuel modes ps b) _ (evaluate_all-Settles ps b)
          λ (evaluated, b').
            then-Settles (update_all_particles parameters b'.global_best evaluated) _
              (update_all_particles-Settles parameters b'.global_best evaluated)
              λ updated. swarm_rounds-Settles left updated b'

    optimize_solution-Settles :
        (draws : ℕ → Real) (initial : Solution Real State Resources)
        → Settles (optimize_solution (some m) parameters fuel modes draws initial)
    unfolding optimize_solution
    optimize_solution-Settles draws initial =
        then-Settles (initial_particles draws 0 parameters.num_particles initial.sequence) _
          (initial_particles-Settles draws 0 parameters.num_particles initial.sequence)
          λ particles. then-Settles (first_best particles) _ (first_best-Settles particles) λ best.
            then-Settles (swarm_rounds _ _ _ _ _ _ _) _ (swarm_rounds-Settles _ _ _)
              λ (_, b). generate_solution-Settles b.global_best

    optimize_solutions-Settles :
        (seeds : ℕ → ℕ → Real) (k : ℕ) (solutions : List (Solution Real State Resources))
        → Settles (optimize_solutions (some m) parameters fuel modes seeds k solutions)
    unfolding optimize_solutions
    optimize_solutions-Settles seeds k [] = tt
    optimize_solutions-Settles seeds k (s ∷ ss) =
        then-Settles (optimize_solution _ _ _ _ _ _) _ (optimize_solution-Settles (seeds k) s)
          λ better.
            then-Settles (optimize_solutions _ _ _ _ _ _ _) _
              (optimize_solutions-Settles seeds (k + 1) ss) λ _. tt

    optimize_fronts-Settles :
        (seeds : ℕ → ℕ → Real) (k : ℕ) (fronts : List (ParetoFront Real State Resources))
        → Settles (optimize_fronts (some m) parameters fuel modes seeds k fronts)
    unfolding optimize_fronts optimize_pareto_front
    optimize_fronts-Settles seeds k [] = tt
    optimize_fronts-Settles seeds k (f ∷ fs) =
        then-Settles (optimize_pareto_front _ _ _ _ _ _ _) _
          (then-Settles (optimize_solutions _ _ _ _ _ _ _) _
            (optimize_solutions-Settles seeds k f.solutions) λ _. tt)
          λ (front, next).
            then-Settles (optimize_fronts _ _ _ _ _ _ _) _ (optimize_fronts-Settles seeds next fs)
              λ _. tt

    -- It returns, or it meets behaviour that C++ leaves undefined.
    pub optimize_result-Settles :
        (seeds : ℕ → ℕ → Real) (result : Result Real State Resources)
        → Settles (optimize_result (some m) parameters fuel modes seeds result)
    unfolding optimize_result
    optimize_result-Settles seeds result =
        then-Settles (optimize_fronts _ _ _ _ _ _ _) _
          (optimize_fronts-Settles seeds 0 result.pareto_fronts) λ _. tt

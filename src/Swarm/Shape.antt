-- ===== src/Swarm/Shape.antt =====
-- The sequences that the swarm tries: they have the modes of the initial one, and only the counts
-- change.
use mathlib.Core.Path.{ap₂}
use flexman.Base.{
  ℕ, zero, suc, ◌+◌, ◌≡◌, refl, ap, ◌∙◌, Bool-cases, inl, inr, some, List, [], ◌∷◌, map, All, ok,
  Ensures, Ensures-eq, Ensures-map, >>=-Ensures, then-Ensures, or_throw, undefined,
}
use flexman.Double.{Double, Consumable, Metered, ◌⊕◌, ◌≺◌}
use flexman.Core.Execution.{ModeExecution}
use flexman.Core.Solution.{Solution}
use flexman.Core.Manager.{Manager}
use flexman.Simulation.{generate_solution}
use flexman.Swarm.{
  SolverParameters, Particle, Bests, update_particle_velocity_and_position, update_modes,
  update_all_particles, fitness_of, evaluate_particle,
}
use flexman.Swarm.Optimize.{
  randomize, initial_particles, first_best, evaluate_all, swarm_rounds, optimize_solution,
}

-- The modes of a sequence, without the counts.
abbrev pub modes_of : List ModeExecution → List ℕ
modes_of = map (λ e. e.mode)

module _ {ℓ} {Real : Type ℓ} where
  -- The particle has the modes of the sequence, now and where it was best.
  abbrev pub HasShape : List ModeExecution → Particle Real → Type 0
  HasShape sequence p =
      (modes_of p.position ≡ modes_of sequence) × (modes_of p.personal_best ≡ modes_of sequence)

module _ {ℓ} {Real : Type ℓ} ⦃d : Double Real⦄ where
  update_modes-modes_of :
      (parameters : SolverParameters Real) (ps gs : List ModeExecution) (vs : List Real)
      (xs : List ModeExecution)
      → Ensures (λ t. modes_of t.1 ≡ modes_of xs) (update_modes parameters ps gs vs xs)
  unfolding update_modes update_particle_velocity_and_position
  update_modes-modes_of parameters ps gs vs [] = refl
  update_modes-modes_of parameters [] gs vs (x ∷ xs) = tt
  update_modes-modes_of parameters (p ∷ ps) [] vs (x ∷ xs) = tt
  update_modes-modes_of parameters (p ∷ ps) (g ∷ gs) [] (x ∷ xs) = tt
  update_modes-modes_of parameters (p ∷ ps) (g ∷ gs) (v ∷ vs) (x ∷ xs) =
      >>=-Ensures (λ t. t.1.mode ≡ x.mode) _
        (update_particle_velocity_and_position parameters p g v x) _
        (then-Ensures _ (or_throw (d.to_size _) undefined) _ λ times'. refl)
        λ (v', x') same.
          >>=-Ensures _ _ (update_modes parameters ps gs vs xs) _
            (update_modes-modes_of parameters ps gs vs xs) λ (vs', xs') sames. ap₂ ◌∷◌ same sames

  update_all_particles-HasShape :
      (parameters : SolverParameters Real) (sequence global_best : List ModeExecution)
      (particles : List (Particle Real))
      → All (HasShape sequence) particles
      → Ensures (All (HasShape sequence)) (update_all_particles parameters global_best particles)
  unfolding update_all_particles
  update_all_particles-HasShape parameters sequence global_best [] h = tt
  update_all_particles-HasShape parameters sequence global_best (p ∷ ps) ((a, b), hs) =
      >>=-Ensures _ _ (update_modes parameters p.personal_best global_best p.velocity p.position) _
        (update_modes-modes_of parameters p.personal_best global_best p.velocity p.position)
        λ (velocity, position) same.
          >>=-Ensures _ _ (update_all_particles parameters global_best ps) _
            (update_all_particles-HasShape parameters sequence global_best ps hs)
            λ rest shaped. ((same ∙ a, b), shaped)

  randomize-modes_of :
      (draws : ℕ → Real) (n : ℕ) (sequence : List ModeExecution)
      → Ensures (λ t. modes_of t.0 ≡ modes_of sequence) (randomize draws n sequence)
  unfolding randomize
  randomize-modes_of draws n [] = refl
  randomize-modes_of draws n (e ∷ es) =
      then-Ensures _ (or_throw (d.to_size _) undefined) _ λ times'.
        >>=-Ensures _ _ (randomize draws (n + 1) es) _ (randomize-modes_of draws (n + 1) es)
          λ (rest, end) same. ap (λ ms. e.mode ∷ ms) same

  initial_particles-HasShape :
      (draws : ℕ → Real) (n count : ℕ) (sequence : List ModeExecution)
      → Ensures (All (HasShape sequence)) (initial_particles draws n count sequence)
  unfolding initial_particles
  initial_particles-HasShape draws n zero sequence = tt
  initial_particles-HasShape draws n (suc count) sequence =
      >>=-Ensures _ _ (randomize draws n sequence) _ (randomize-modes_of draws n sequence)
        λ (position, end) same.
          >>=-Ensures _ _ (initial_particles draws end count sequence) _
            (initial_particles-HasShape draws end count sequence)
            λ rest shaped. ((same, refl), shaped)

  first_best-modes_of :
      (sequence : List ModeExecution) (ps : List (Particle Real))
      → All (HasShape sequence) ps
      → Ensures (λ best. modes_of best ≡ modes_of sequence) (first_best ps)
  first_best-modes_of sequence [] h = tt
  first_best-modes_of sequence (p ∷ ps) (h, hs) = h.1

module _ {ℓ} {Real State Mode Resources Timespec : Type ℓ} ⦃d : Double Real⦄
    ⦃c : Consumable Resources⦄ ⦃r : Metered Real Resources⦄
    (m : Manager Real State Mode Resources Timespec) (fuel : ℕ) (modes : List Mode) where
  module _ (sequence : List ModeExecution) where
    -- The swarm has the modes of the sequence.
    abbrev IsShaped : List (Particle Real) × Bests Real → Type 0
    IsShaped (ps, b) = All (HasShape sequence) ps × (modes_of b.global_best ≡ modes_of sequence)

    evaluate_particle-HasShape :
        (p : Particle Real) (b : Bests Real)
        → HasShape sequence p
        → modes_of b.global_best ≡ modes_of sequence
        → Ensures
            (λ (valid, p', b').
              HasShape sequence p' × (modes_of b'.global_best ≡ modes_of sequence))
            (evaluate_particle m fuel modes p b)
    unfolding evaluate_particle
    evaluate_particle-HasShape p b (position, best) global =
        then-Ensures _ (generate_solution (some m) fuel modes p.position) _ λ s.
          let fitness = fitness_of m s in
          (
            elim (Bool-cases (fitness ≺ p.personal_best_fitness)) [
              | inl e ↦ rw e (position, position)
              | inr e ↦ rw e (position, best)
            ],
            elim (Bool-cases (fitness ≺ b.global_best_fitness)) [
              | inl e ↦ rw e position
              | inr e ↦ rw e global
            ],
          )

    evaluate_all-IsShaped :
        (ps : List (Particle Real)) (b : Bests Real)
        → IsShaped (ps, b)
        → Ensures IsShaped (evaluate_all m fuel modes ps b)
    unfolding evaluate_all
    evaluate_all-IsShaped [] b h = h
    evaluate_all-IsShaped (p ∷ ps) b ((h, hs), g) =
        >>=-Ensures _ _ (evaluate_particle m fuel modes p b) _ (evaluate_particle-HasShape p b h g)
          λ (valid, p', b') (shaped, global).
            >>=-Ensures _ _ (evaluate_all m fuel modes ps b') _
              (evaluate_all-IsShaped ps b' (hs, global))
              λ (rest, b'') (others, best). ((shaped, others), best)

    swarm_rounds-IsShaped :
        (parameters : SolverParameters Real) (left : ℕ) (ps : List (Particle Real)) (b : Bests Real)
        → IsShaped (ps, b)
        → Ensures IsShaped (swarm_rounds m parameters fuel modes left ps b)
    unfolding swarm_rounds
    swarm_rounds-IsShaped parameters zero ps b h = h
    swarm_rounds-IsShaped parameters (suc left) ps b h =
        >>=-Ensures _ _ (evaluate_all m fuel modes ps b) _ (evaluate_all-IsShaped ps b h)
          λ (evaluated, b') (shaped, best).
            >>=-Ensures _ _ (update_all_particles parameters b'.global_best evaluated) _
              (update_all_particles-HasShape parameters sequence b'.global_best evaluated shaped)
              λ updated moved. swarm_rounds-IsShaped parameters left updated b' (moved, best)

  -- Whatever the draws and the parameters: what `optimize_solution` returns, if it returns, is the
  -- replay of a sequence with the modes of the initial one, in the same order; only the counts may
  -- differ.
  pub optimize_solution-modes_of :
      (parameters : SolverParameters Real) (draws : ℕ → Real)
      (initial : Solution Real State Resources)
      → Ensures
          (λ t.
            (s : List ModeExecution) × (modes_of s ≡ modes_of initial.sequence)
            × (generate_solution (some m) fuel modes s ≡ ok t))
          (optimize_solution (some m) parameters fuel modes draws initial)
  unfolding optimize_solution
  optimize_solution-modes_of parameters draws initial =
      let sequence = initial.sequence in
      >>=-Ensures _ _ (initial_particles draws 0 parameters.num_particles sequence) _
        (initial_particles-HasShape draws 0 parameters.num_particles sequence)
        λ particles shaped.
          >>=-Ensures _ _ (first_best particles) _ (first_best-modes_of sequence particles shaped)
            λ best same.
              >>=-Ensures _ _ (swarm_rounds m parameters fuel modes parameters.max_iterations _ _) _
                (swarm_rounds-IsShaped sequence parameters parameters.max_iterations particles
                  (record {
                    global_best = best;
                    global_best_fitness = r.energy initial.resources ⊕ r.time initial.resources;
                  })
                  (shaped, same))
                λ (swarm, b) (_, varies).
                  Ensures-map _ _ (generate_solution (some m) fuel modes b.global_best)
                    (λ t eq. (b.global_best, varies, eq)) (Ensures-eq _)

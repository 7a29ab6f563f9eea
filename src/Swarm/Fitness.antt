-- ===== src/Swarm/Fitness.antt =====
-- The best fitness of the swarm: what `optimize_solution` gives is no worse than what it got.
use flexman.Base.{
  ℕ, zero, suc, ◌≡◌, refl, subst, ◌⊎◌, inl, inr, true, false, some, List, [], ◌∷◌, ok, Ensures,
  Ensures-map, Ensures-eq, >>=-Ensures, then-Ensures, Bool-cases,
}
use flexman.Double.{Double, Consumable, Metered, ◌⊕◌, ◌≺◌}
use flexman.Core.Execution.{ModeExecution}
use flexman.Core.Solution.{Solution}
use flexman.Core.Manager.{Manager}
use flexman.Simulation.{generate_solution}
use flexman.Swarm.{
  SolverParameters, Particle, Bests, update_all_particles, fitness_of, evaluate_particle,
}
use flexman.Swarm.Optimize.{
  randomize, initial_particles, first_best, evaluate_all, swarm_rounds, optimize_solution,
}

module _ {ℓ} {Real State Mode Resources Timespec : Type ℓ} ⦃d : Double Real⦄
    ⦃c : Consumable Resources⦄ ⦃r : Metered Real Resources⦄
    (m : Manager Real State Mode Resources Timespec) (fuel : ℕ) (modes : List Mode)
    (lt_trans : (x y z : Real) → (x ≺ y) ≡ true → (y ≺ z) ≡ true → (x ≺ z) ≡ true) where
  -- The best sequence is the first one, or its replay has the best fitness, which is lower.
  abbrev Attains : List ModeExecution → Real → Bests Real → Type ℓ
  Attains first start b =
      ((b.global_best ≡ first) × (b.global_best_fitness ≡ start))
      ⊎ (((b.global_best_fitness ≺ start) ≡ true)
          × ((s : Solution Real State Resources) × (generate_solution (some m) fuel modes
                  b.global_best
                ≡ ok s)
              × (fitness_of m s ≡ b.global_best_fitness)))

  module _ (first : List ModeExecution) (start : Real) where
    below :
        (b : Bests Real) (x : Real)
        → Attains first start b
        → (x ≺ b.global_best_fitness) ≡ true
        → (x ≺ start) ≡ true
    below b x (inl (_, e)) h = subst (λ y. (x ≺ y) ≡ true) e h
    below b x (inr (l, _)) h = lt_trans x b.global_best_fitness start h l

    evaluate_particle-Attains :
        (p : Particle Real) (b : Bests Real)
        → Attains first start b
        → Ensures (λ (valid, q, b'). Attains first start b') (evaluate_particle m fuel modes p b)
    unfolding evaluate_particle
    evaluate_particle-Attains p b h =
        >>=-Ensures _ _ (generate_solution (some m) fuel modes p.position) _ (Ensures-eq _) λ s eq.
          elim (Bool-cases (fitness_of m s ≺ b.global_best_fitness)) [
            | inl e ↦ rw e (inr (below b (fitness_of m s) h e, (s, eq, refl)))
            | inr e ↦ rw e h
          ]

    evaluate_all-Attains :
        (ps : List (Particle Real)) (b : Bests Real)
        → Attains first start b
        → Ensures (λ t. Attains first start t.1) (evaluate_all m fuel modes ps b)
    unfolding evaluate_all
    evaluate_all-Attains [] b h = h
    evaluate_all-Attains (p ∷ ps) b h =
        >>=-Ensures _ _ (evaluate_particle m fuel modes p b) _ (evaluate_particle-Attains p b h)
          λ (valid, p', b') h'.
            >>=-Ensures _ _ (evaluate_all m fuel modes ps b') _ (evaluate_all-Attains ps b' h')
              λ t k. k

    swarm_rounds-Attains :
        (parameters : SolverParameters Real) (left : ℕ) (ps : List (Particle Real)) (b : Bests Real)
        → Attains first start b
        → Ensures (λ t. Attains first start t.1) (swarm_rounds m parameters fuel modes left ps b)
    unfolding swarm_rounds
    swarm_rounds-Attains parameters zero ps b h = h
    swarm_rounds-Attains parameters (suc left) ps b h =
        >>=-Ensures _ _ (evaluate_all m fuel modes ps b) _ (evaluate_all-Attains ps b h)
          λ (evaluated, b') h'.
            then-Ensures _ (update_all_particles parameters b'.global_best evaluated) _
              λ updated. swarm_rounds-Attains parameters left updated b' h'

  -- `energy + time`, the fitness of a complete solution.
  abbrev pub spent : Solution Real State Resources → Real
  spent s = r.energy s.resources ⊕ r.time s.resources

  attained :
      (start : Real) (s : Solution Real State Resources)
      → (d.highest ≺ start) ≡ false
      → (fitness_of m s ≺ start) ≡ true
      → (m.is_complete s ≡ true) × ((spent s ≺ start) ≡ true)
  unfolding fitness_of
  attained start s top h = elim (Bool-cases (m.is_complete s)) [
    | inl e ↦ (e, rw e at h)
    | inr e ↦ let k : (d.highest ≺ start) ≡ true = rw e at h in cc
  ]

  settled :
      (first : List ModeExecution) (start : Real)
      → (d.highest ≺ start) ≡ false
      → (b : Bests Real) → Attains first start b
      → (t : Solution Real State Resources)
      → generate_solution (some m) fuel modes b.global_best ≡ ok t
      → (generate_solution (some m) fuel modes first ≡ ok t)
        ⊎ ((m.is_complete t ≡ true) × ((spent t ≺ start) ≡ true))
  settled first start top b (inl (same, _)) t eq =
      inl (subst (λ q. generate_solution (some m) fuel modes q ≡ ok t) same eq)
  settled first start top b (inr (l, (s, eq', fit))) t eq =
      let same : s ≡ t = cc in
      inr (attained start t top (subst (λ u. (fitness_of m u ≺ start) ≡ true) same (rw fit l)))

  first_best-sequence :
      (draws : ℕ → Real) (n count : ℕ) (sequence : List ModeExecution)
      → Ensures
          (λ ps. Ensures (λ best. best ≡ sequence) (first_best ps))
          (initial_particles draws n count sequence)
  unfolding initial_particles
  first_best-sequence draws n zero sequence = tt
  first_best-sequence draws n (suc count) sequence =
      then-Ensures _ (randomize draws n sequence) _ λ (position, end).
        then-Ensures _ (initial_particles draws end count sequence) _ λ rest. refl

  -- If `≺` is transitive and the sum of the initial solution's energy and time does not exceed the
  -- highest number: what `optimize_solution` returns, if it returns, is the replay of the initial
  -- sequence, or it is complete and the sum of its energy and time is less than that of the initial
  -- solution.
  pub optimize_solution-Ensures :
      (parameters : SolverParameters Real) (draws : ℕ → Real)
      (initial : Solution Real State Resources)
      → (d.highest ≺ spent initial) ≡ false
      → Ensures
          (λ t.
            (generate_solution (some m) fuel modes initial.sequence ≡ ok t)
            ⊎ ((m.is_complete t ≡ true) × ((spent t ≺ spent initial) ≡ true)))
          (optimize_solution (some m) parameters fuel modes draws initial)
  unfolding optimize_solution
  optimize_solution-Ensures parameters draws initial top =
      >>=-Ensures _ _ (initial_particles draws 0 parameters.num_particles initial.sequence) _
        (first_best-sequence draws 0 parameters.num_particles initial.sequence)
        λ particles first. >>=-Ensures _ _ (first_best particles) _ first λ best e.
          >>=-Ensures _ _ (swarm_rounds m parameters fuel modes parameters.max_iterations _ _) _
            (swarm_rounds-Attains initial.sequence (spent initial) parameters
              parameters.max_iterations _ _ (inl (e, refl)))
            λ (ps, b) h.
              Ensures-map _ _ (generate_solution (some m) fuel modes b.global_best)
                (settled initial.sequence (spent initial) top b h) (Ensures-eq _)

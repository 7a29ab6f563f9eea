-- ===== src/Search/Iteration/Returning.antt =====
-- A pass of the search returns, if each extension of a solution does and the solutions that it sorts
-- are ordered.
use flexman.Base.{
  ℕ, zero, suc, ◌<◌, ◌≡◌, true, false, some, List, [], ◌∷◌, ◌++◌, map, All, All-append, ok, IsOk,
  >>=-IsOk, then-IsOk, if-IsOk, Returns-IsOk, is_empty, pos-ne-zero,
}
use flexman.Double.{Double, ◌⊘◌, ◌⊗◌, Consumable}
use flexman.Core.Execution.{Mode}
use flexman.Core.Solution.{Solution, ParetoFront}
use flexman.Core.Manager.{Manager}
use flexman.Search.Algorithms.{Algorithms, IsStandard}
use flexman.Search.Dominance.{
  remove_dominated_by, remove_dominated_solutions, remove_duplicate_solutions, is_comparable,
}
use flexman.Search.Dominance.Removal.{
  remove_dominated_solutions-Antichain, remove_dominated_by_iff, remove_dominated_by-Ensures,
  remove_dominated_solutions-Ensures,
}
use flexman.Search.Splitting.{move_elements, split_complete_partial}
use flexman.Search.Extension.{
  SearchAlgorithm, exhaustive, heuristic, single_machine, Clock, extend_one, extend_all,
  extend_solutions,
}
use flexman.Search.Iteration.{
  Progress, switching, accept, prune, initial_solution, perform_search_single_iteration, rounds,
  perform_search_n_iterations,
}
use flexman.Search.Iteration.Carried.{Extends, Runs, split-All, extend_all-All, iteration-All}

module _ {ℓ} {Real State Resources : Type ℓ} ⦃c : Consumable Resources⦄
    (P : Solution Real State Resources → Type 0) where
  -- On solutions with the property, `operator<` is a strict weak order and `operator==` an
  -- equivalence relation.
  abbrev pub IsOrdered : Type ℓ
  IsOrdered = (xs : List (Solution Real State Resources)) → All P xs → is_comparable xs ≡ true

module _ {ℓ} {Real State Mode Resources Timespec : Type ℓ} ⦃c : Consumable Resources⦄
    ⦃alg : Algorithms (Solution Real State Resources)⦄ (P : Solution Real State Resources → Type 0)
    (m : Manager Real State Mode Resources Timespec) where
  split-IsOk :
      (xs : List (Solution Real State Resources)) → IsOk (split_complete_partial (some m) xs [] [])
  unfolding split_complete_partial
  split-IsOk [] = tt
  split-IsOk (x ∷ xs) = tt

  accept-IsOk :
      IsOrdered {Real = Real} {State = State} P
      → (complete accepted : List (Solution Real State Resources)) → All P complete
      → All P accepted
      → IsOk (accept (some m) complete accepted)
  unfolding accept move_elements remove_duplicate_solutions
  accept-IsOk ordered [] accepted h k = tt
  accept-IsOk ordered (x ∷ xs) accepted h k =
      >>=-IsOk _ (remove_dominated_solutions exhaustive (some m) (accepted ++ x ∷ xs)) _
        (Returns-IsOk _ (remove_dominated_solutions-Antichain exhaustive m (accepted ++ x ∷ xs)))
        (remove_dominated_solutions-Ensures exhaustive m P (accepted ++ x ∷ xs)
          (All-append P accepted (x ∷ xs) k h))
        λ ys (held, apart). rw (ordered ys held) tt

  prune-IsOk :
      (algorithm : SearchAlgorithm) (partial : List (Solution Real State Resources))
      → IsOk (prune algorithm (some m) partial)
  unfolding prune
  prune-IsOk exhaustive partial = tt
  prune-IsOk single_machine partial = tt
  prune-IsOk heuristic partial =
      Returns-IsOk _ (remove_dominated_by_iff heuristic m partial partial)

module _ {ℓ} {Real State Mode Resources Timespec : Type ℓ} ⦃d : Double Real⦄
    (m : Manager Real State Mode Resources Timespec) where
  -- The number of rounds of a pass fits `unsigned`, whatever the stride.
  abbrev pub FitsUnsigned : Type 0
  FitsUnsigned =
      (steps : ℕ)
      → 0 < steps
      → (n : ℕ) × (d.to_unsigned (m.time_max ⊘ (m.time_delta ⊗ d.of_ℕ steps)) ≡ some n)

module _ {ℓ} {Real State System Input Resources Timespec : Type ℓ} ⦃d : Double Real⦄
    (m : Manager Real State (Mode System Input) Resources Timespec) (fuel : ℕ)
    (P : Solution Real State Resources → Type 0) (algorithm : SearchAlgorithm)
    (modes : List (Mode System Input)) where
  extend_all-IsOk :
      {World : Type ℓ} ⦃clock : Clock Real World⦄
      → Runs P algorithm m fuel modes
      → (steps : ℕ) → 0 < steps
      → (partials : List (Solution Real State Resources)) (world : World) → All P partials
      → IsOk (extend_all (switching algorithm) (some m) fuel steps modes partials world)
  unfolding extend_all
  extend_all-IsOk runs steps some_steps [] world h = tt
  extend_all-IsOk ⦃clock⦄ runs steps some_steps (p ∷ ps) world (h, hs) =
      then-IsOk (extend_one (switching algorithm) (some m) fuel steps modes p) _
        (runs steps some_steps p h)
        λ new.
          let (timed_out, world') = clock.has_timeout world in
          let more = extend_all-IsOk runs steps some_steps ps world' hs in
          then-IsOk _ _ (if-IsOk timed_out (ok ([], world')) _ tt more) λ rest. tt

module _ {ℓ} {Real State System Input Resources Timespec World : Type ℓ} ⦃d : Double Real⦄
    ⦃c : Consumable Resources⦄ ⦃alg : Algorithms (Solution Real State Resources)⦄
    ⦃clock : Clock Real World⦄ (std : IsStandard (Solution Real State Resources))
    (P : Solution Real State Resources → Type 0) (algorithm : SearchAlgorithm)
    (m : Manager Real State (Mode System Input) Resources Timespec) (fuel : ℕ)
    (modes : List (Mode System Input)) (runs : Runs P algorithm m fuel modes)
    (ordered : IsOrdered {Real = Real} {State = State} P)
    (extends : Extends P algorithm m fuel modes) (some_modes : is_empty modes ≡ false)
    (fits : FitsUnsigned m) where
  module _ (steps : ℕ) (some_steps : 0 < steps) where
    iteration-IsOk :
        (s : Progress Real State Resources World)
        → All P s.partial_solutions
        → All P s.accepted_solutions
        → IsOk (perform_search_single_iteration algorithm (some m) fuel modes steps s)
    unfolding perform_search_single_iteration extend_solutions
    iteration-IsOk s hp ha =
        rw (pos-ne-zero steps some_steps, some_modes)
          (>>=-IsOk (λ r. All P r.0) (extend_all _ _ _ _ _ _ _) _
            (extend_all-IsOk m fuel P algorithm modes runs steps some_steps s.partial_solutions
              s.world hp)
            (extend_all-All std P algorithm m fuel modes extends steps s.partial_solutions s.world
              hp)
            λ (extended, world) he.
              >>=-IsOk (All P) (remove_dominated_by _ _ _ _ _) _
                (Returns-IsOk _
                  (remove_dominated_by_iff exhaustive m extended s.accepted_solutions))
                (remove_dominated_by-Ensures exhaustive m P false extended s.accepted_solutions he)
                λ undominated hu.
                  >>=-IsOk _ (split_complete_partial _ _ _ _) _ (split-IsOk P m undominated)
                    (split-All std P m undominated hu)
                    λ split (done, undone).
                      then-IsOk (accept _ _ _) _
                        (accept-IsOk P m ordered split.complete s.accepted_solutions done ha)
                        λ accepted.
                          then-IsOk (prune _ _ _) _ (prune-IsOk P m algorithm split.partial)
                            λ partial. tt)

    rounds-IsOk :
        (left iteration : ℕ) (s : Progress Real State Resources World)
        → All P s.partial_solutions
        → All P s.accepted_solutions
        → IsOk (rounds algorithm (some m) fuel modes steps left iteration s)
    unfolding rounds
    rounds-IsOk zero iteration s hp ha = tt
    rounds-IsOk (suc left) iteration s hp ha = if-IsOk (is_empty s.partial_solutions) _ _ tt (
        >>=-IsOk _ (perform_search_single_iteration _ _ _ _ _ s) _ (iteration-IsOk s hp ha)
          (iteration-All std P algorithm m fuel modes extends steps s hp ha)
          λ next (kp, ka).
            if-IsOk (clock.has_timeout next.world).0 _ _ tt
              (rounds-IsOk left _ (record next { world = (clock.has_timeout next.world).1 }) kp ka))

    pub n_iterations-IsOk :
        (previous : ParetoFront Real State Resources) (world : World)
        → All P (map (initial_solution m) modes)
        → All P previous.solutions
        → IsOk (perform_search_n_iterations algorithm (some m) fuel modes steps previous world)
    unfolding perform_search_n_iterations
    n_iterations-IsOk previous world hi hp =
        let (max_iterations, eq) = fits steps some_steps in
        rw (pos-ne-zero steps some_steps, some_modes, eq)
          (then-IsOk (rounds _ _ _ _ _ _ _ _) _ (rounds-IsOk max_iterations 0 _ hi hp) λ r. tt)

-- ===== src/Search/Iteration/Carried.antt =====
-- A property that every extension of a solution keeps is carried through a pass of the search.
use mathlib.Core.List.Permᴰ.{symm}
use flexman.Base.{
  ℕ, zero, suc, ◌<◌, IsOk, false, some, List, [], ◌∷◌, ◌++◌, map, All, All-append, All-append_left,
  All-append_right, ok, refuse_if, zero_steps, no_modes, or_throw, undefined, ◌==◌, if◌then◌else◌,
  Ensures, Ensures-map, >>=-Ensures, then-Ensures, if-Ensures, is_empty,
}
use flexman.Double.{Double, Consumable}
use flexman.Core.Execution.{Mode}
use flexman.Core.Solution.{Solution, ParetoFront}
use flexman.Core.Manager.{Manager}
use flexman.Search.Algorithms.{Algorithms, IsStandard}
use flexman.Search.Extension.{
  SearchAlgorithm, exhaustive, heuristic, single_machine, Clock, extend_one, extend_all,
  extend_solutions,
}
use flexman.Search.Dominance.{remove_dominated_by, remove_dominated_solutions}
use flexman.Search.Dominance.Laws.{Antichain}
use flexman.Search.Dominance.Duplicates.{All-perm}
use flexman.Search.Dominance.Removal.{
  remove_dominated_by-Ensures, remove_dominated_solutions-Ensures,
  remove_duplicate_solutions-Ensures,
}
use flexman.Search.Splitting.{move_elements, split_complete_partial}
use flexman.Search.Iteration.{
  Progress, switching, accept, prune, initial_solution, perform_search_single_iteration, rounds,
  perform_search_n_iterations,
}

module _ {ℓ} {Real State Mode Resources Timespec : Type ℓ} ⦃c : Consumable Resources⦄
    ⦃alg : Algorithms (Solution Real State Resources)⦄
    (std : IsStandard (Solution Real State Resources)) (P : Solution Real State Resources → Type 0)
    (m : Manager Real State Mode Resources Timespec) where
  pub split-All :
      (xs : List (Solution Real State Resources))
      → All P xs
      → Ensures (λ t. All P t.complete × All P t.partial) (split_complete_partial (some m) xs [] [])
  unfolding split_complete_partial
  split-All [] h = (tt, tt)
  split-All (x ∷ xs) h =
      let both = All-perm P (symm (std.partition-perm m.is_complete (x ∷ xs))) h in
      (All-append_left P _ _ both, All-append_right P _ _ both)

  pub accept-All :
      (complete accepted : List (Solution Real State Resources))
      → All P complete
      → All P accepted
      → Ensures (All P) (accept (some m) complete accepted)
  unfolding accept move_elements
  accept-All [] accepted h k = k
  accept-All (x ∷ xs) accepted h k =
      >>=-Ensures _ _ (remove_dominated_solutions exhaustive (some m) (accepted ++ x ∷ xs)) _
        (remove_dominated_solutions-Ensures exhaustive m P (accepted ++ x ∷ xs)
          (All-append P accepted (x ∷ xs) k h))
        λ ys (held, apart).
          Ensures-map (λ zs. All P zs × Antichain m.is_strictly_better_than zs) (All P) _
            (λ zs both. both.0)
            (remove_duplicate_solutions-Ensures std m.is_strictly_better_than P ys held apart)

  pub prune-All :
      (algorithm : SearchAlgorithm) (partial : List (Solution Real State Resources))
      → All P partial
      → Ensures (All P) (prune algorithm (some m) partial)
  unfolding prune
  prune-All exhaustive partial h = h
  prune-All single_machine partial h = h
  prune-All heuristic partial h = remove_dominated_by-Ensures heuristic m P false partial partial h

module _ {ℓ} {Real State System Input Resources Timespec : Type ℓ} ⦃d : Double Real⦄
    (P : Solution Real State Resources → Type 0) (algorithm : SearchAlgorithm)
    (m : Manager Real State (Mode System Input) Resources Timespec) (fuel : ℕ)
    (modes : List (Mode System Input)) where
  -- What extends a solution with the property has it, whatever the stride.
  abbrev pub Extends : Type ℓ
  Extends =
      (steps : ℕ) (partial : Solution Real State Resources)
      → P partial
      → Ensures (All P) (extend_one (switching algorithm) (some m) fuel steps modes partial)

  -- A solution with the property is extended without fail, whatever the stride.
  abbrev pub Runs : Type ℓ
  Runs =
      (steps : ℕ)
      → 0 < steps
      → (partial : Solution Real State Resources) → P partial
      → IsOk (extend_one (switching algorithm) (some m) fuel steps modes partial)

module _ {ℓ} {Real State System Input Resources Timespec World : Type ℓ} ⦃d : Double Real⦄
    ⦃c : Consumable Resources⦄ ⦃alg : Algorithms (Solution Real State Resources)⦄
    ⦃clock : Clock Real World⦄ (std : IsStandard (Solution Real State Resources))
    (P : Solution Real State Resources → Type 0) (algorithm : SearchAlgorithm)
    (m : Manager Real State (Mode System Input) Resources Timespec) (fuel : ℕ)
    (modes : List (Mode System Input)) where
  module _ (extends : Extends P algorithm m fuel modes) (steps : ℕ) where
    pub extend_all-All :
        (partials : List (Solution Real State Resources)) (world : World)
        → All P partials
        → Ensures
            (λ r. All P r.0)
            (extend_all (switching algorithm) (some m) fuel steps modes partials world)
    unfolding extend_all
    extend_all-All [] world h = tt
    extend_all-All (p ∷ ps) world (h, hs) =
        let (timed_out, world') = clock.has_timeout world in
        >>=-Ensures _ _ (extend_one (switching algorithm) (some m) fuel steps modes p) _
          (extends steps p h)
          λ new k.
            let tail = extend_all (switching algorithm) (some m) fuel steps modes ps world' in
            >>=-Ensures (λ r. All P r.0) _ (if timed_out then ok ([], world') else tail) _
              (if-Ensures {A = List (Solution Real State Resources) × World} _ timed_out
                (ok ([], world')) tail tt (extend_all-All ps world' hs))
              λ (rest, last) ks. All-append P new rest k ks

    pub extend_solutions-All :
        (partials : List (Solution Real State Resources)) (world : World)
        → All P partials
        → Ensures
            (λ r. All P r.0)
            (extend_solutions (switching algorithm) (some m) fuel modes steps partials world)
    unfolding extend_solutions
    extend_solutions-All partials world h =
        then-Ensures _ (refuse_if (steps == 0) zero_steps) _ λ _.
          then-Ensures _ (refuse_if (is_empty modes) no_modes) _
            λ _. extend_all-All partials world h

    pub iteration-All :
        (s : Progress Real State Resources World)
        → All P s.partial_solutions
        → All P s.accepted_solutions
        → Ensures
            (λ t. All P t.partial_solutions × All P t.accepted_solutions)
            (perform_search_single_iteration algorithm (some m) fuel modes steps s)
    unfolding perform_search_single_iteration
    iteration-All s hp ha = then-Ensures _ (refuse_if (steps == 0) zero_steps) _ λ _.
        then-Ensures _ (refuse_if (is_empty modes) no_modes) _ λ _.
          >>=-Ensures (λ r. All P r.0) _ (extend_solutions _ _ _ _ _ _ _) _
            (extend_solutions-All s.partial_solutions s.world hp)
            λ (extended, world) he.
              >>=-Ensures (All P) _ (remove_dominated_by _ _ _ _ _) _
                (remove_dominated_by-Ensures exhaustive m P false extended s.accepted_solutions he)
                λ undominated hu.
                  >>=-Ensures _ _ (split_complete_partial _ _ _ _) _
                    (split-All std P m undominated hu)
                    λ split (done, undone).
                      >>=-Ensures _ _ (accept _ _ _) _
                        (accept-All std P m split.complete s.accepted_solutions done ha)
                        λ accepted hk.
                          >>=-Ensures _ _ (prune _ _ _) _
                            (prune-All std P m algorithm split.partial undone)
                            λ partial rest. (rest, hk)

    -- For the partial solutions, nothing is asked of the accepted ones.
    pub iteration-Partial :
        (s : Progress Real State Resources World)
        → All P s.partial_solutions
        → Ensures
            (λ t. All P t.partial_solutions)
            (perform_search_single_iteration algorithm (some m) fuel modes steps s)
    unfolding perform_search_single_iteration
    iteration-Partial s h = then-Ensures _ (refuse_if (steps == 0) zero_steps) _ λ _.
        then-Ensures _ (refuse_if (is_empty modes) no_modes) _ λ _.
          >>=-Ensures (λ r. All P r.0) _ (extend_solutions _ _ _ _ _ _ _) _
            (extend_solutions-All s.partial_solutions s.world h)
            λ (extended, world) he.
              >>=-Ensures (All P) _ (remove_dominated_by _ _ _ _ _) _
                (remove_dominated_by-Ensures exhaustive m P false extended s.accepted_solutions he)
                λ undominated hu.
                  >>=-Ensures _ _ (split_complete_partial _ _ _ _) _
                    (split-All std P m undominated hu)
                    λ split (done, undone). then-Ensures _ (accept _ _ _) _ λ accepted.
                      >>=-Ensures _ _ (prune _ _ _) _
                        (prune-All std P m algorithm split.partial undone) λ partial rest. rest

    rounds-All :
        (left iteration : ℕ) (s : Progress Real State Resources World)
        → All P s.partial_solutions
        → All P s.accepted_solutions
        → Ensures
            (λ r. All P r.1.accepted_solutions)
            (rounds algorithm (some m) fuel modes steps left iteration s)
    unfolding rounds
    rounds-All zero iteration s hp ha = ha
    rounds-All (suc left) iteration s hp ha = if-Ensures _ (is_empty s.partial_solutions) _ _ ha (
        >>=-Ensures _ _ (perform_search_single_iteration _ _ _ _ _ s) _ (iteration-All s hp ha)
          λ next (kp, ka).
            if-Ensures _ (clock.has_timeout next.world).0 _ _ ka
              (rounds-All left _ (record next { world = (clock.has_timeout next.world).1 }) kp ka))

    pub n_iterations-All :
        (previous : ParetoFront Real State Resources) (world : World)
        → All P (map (initial_solution m) modes)
        → All P previous.solutions
        → Ensures
            (λ r. All P r.0.solutions)
            (perform_search_n_iterations algorithm (some m) fuel modes steps previous world)
    unfolding perform_search_n_iterations
    n_iterations-All previous world hi hp =
        then-Ensures _ (refuse_if (steps == 0) zero_steps) _ λ _.
          then-Ensures _ (refuse_if (is_empty modes) no_modes) _ λ _.
            then-Ensures _ (or_throw (d.to_unsigned _) undefined) _ λ max_iterations.
              >>=-Ensures _ _ (rounds _ _ _ _ _ max_iterations _ _) _
                (rounds-All max_iterations 0 _ hi hp) λ (iteration, s) front. front

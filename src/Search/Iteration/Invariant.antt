-- ===== src/Search/Iteration/Invariant.antt =====
-- What a round of the search, and a whole pass, do to the two lists of solutions.
use flexman.Base.{
  ℕ, zero, suc, ◌≡◌, refl, true, false, some, List, [], ◌∷◌, ◌++◌, All, All-append, refuse_if,
  zero_steps, no_modes, or_throw, undefined, ◌==◌, Ensures, >>=-Ensures, then-Ensures, if-Ensures,
  is_empty,
}
use flexman.Double.{Double, Consumable}
use flexman.Core.Execution.{Mode}
use flexman.Core.Solution.{Solution, ParetoFront}
use flexman.Core.Manager.{Manager}
use flexman.Search.Algorithms.{Algorithms, IsStandard}
use flexman.Search.Extension.{
  SearchAlgorithm, exhaustive, heuristic, single_machine, Clock, extend_solutions,
}
use flexman.Search.Dominance.{remove_dominated_by, remove_dominated_solutions}
use flexman.Search.Dominance.Laws.{Antichain}
use flexman.Search.Dominance.Removal.{
  remove_dominated_by-Ensures, remove_dominated_solutions-Ensures,
  remove_duplicate_solutions-Ensures,
}
use flexman.Search.Splitting.{move_elements, split_complete_partial}
use flexman.Search.Iteration.{
  Progress, accept, prune, perform_search_single_iteration, rounds, perform_search_n_iterations,
}

module _ {ℓ} {Real State Mode Resources Timespec : Type ℓ}
    (m : Manager Real State Mode Resources Timespec) where
  abbrev pub AllComplete : List (Solution Real State Resources) → Type 0
  AllComplete = All (λ s. m.is_complete s ≡ true)

  abbrev pub AllPartial : List (Solution Real State Resources) → Type 0
  AllPartial = All (λ s. m.is_complete s ≡ false)

  -- The accepted solutions are complete, and none is strictly better than another.
  abbrev pub IsFront : List (Solution Real State Resources) → Type 0
  IsFront xs = AllComplete xs × Antichain m.is_strictly_better_than xs

  module _ ⦃alg : Algorithms (Solution Real State Resources)⦄
      (std : IsStandard (Solution Real State Resources)) where
    pub split_complete_partial-Ensures :
        (xs : List (Solution Real State Resources))
        → Ensures
            (λ t. AllComplete t.complete × AllPartial t.partial)
            (split_complete_partial (some m) xs [] [])
    unfolding split_complete_partial
    split_complete_partial-Ensures [] = (tt, tt)
    split_complete_partial-Ensures (x ∷ xs) =
        (std.partition_first m.is_complete (x ∷ xs), std.partition_second m.is_complete (x ∷ xs))

    module _ ⦃c : Consumable Resources⦄ where
      accept-IsFront :
          (complete accepted : List (Solution Real State Resources))
          → AllComplete complete
          → IsFront accepted
          → Ensures IsFront (accept (some m) complete accepted)
      unfolding accept move_elements
      accept-IsFront [] accepted h f = f
      accept-IsFront (x ∷ xs) accepted h f =
          >>=-Ensures IsFront IsFront
            (remove_dominated_solutions exhaustive (some m) (accepted ++ x ∷ xs)) _
            (remove_dominated_solutions-Ensures exhaustive m _ (accepted ++ x ∷ xs)
              (All-append _ accepted (x ∷ xs) f.0 h))
            (λ ys (done, apart). remove_duplicate_solutions-Ensures std _ _ ys done apart)

      prune-AllPartial :
          (algorithm : SearchAlgorithm) (partial : List (Solution Real State Resources))
          → AllPartial partial
          → Ensures AllPartial (prune algorithm (some m) partial)
      unfolding prune
      prune-AllPartial exhaustive partial h = h
      prune-AllPartial single_machine partial h = h
      prune-AllPartial heuristic partial h =
          remove_dominated_by-Ensures heuristic m _ false partial partial h

module _ {ℓ} {Real State System Input Resources Timespec World : Type ℓ} ⦃d : Double Real⦄
    ⦃c : Consumable Resources⦄ ⦃alg : Algorithms (Solution Real State Resources)⦄
    ⦃clock : Clock Real World⦄ (std : IsStandard (Solution Real State Resources))
    (algorithm : SearchAlgorithm) (m : Manager Real State (Mode System Input) Resources Timespec)
    (fuel : ℕ) (modes : List (Mode System Input)) (steps : ℕ) where
  -- With `std::sort` and `std::partition` as C++ promises them: if the accepted solutions are
  -- complete with none strictly better than another, and a round of the search returns, then they
  -- are so after it, and the partial solutions that it leaves are incomplete.
  pub perform_search_single_iteration-Ensures :
      (s : Progress Real State Resources World)
      → IsFront m s.accepted_solutions
      → Ensures
          (λ t. IsFront m t.accepted_solutions × AllPartial m t.partial_solutions)
          (perform_search_single_iteration algorithm (some m) fuel modes steps s)
  unfolding perform_search_single_iteration
  perform_search_single_iteration-Ensures s f =
      then-Ensures _ (refuse_if (steps == 0) zero_steps) _ λ _.
        then-Ensures _ (refuse_if (is_empty modes) no_modes) _ λ _.
          then-Ensures _ (extend_solutions _ _ _ _ _ _ _) _ λ (extended, world).
            then-Ensures _ (remove_dominated_by _ _ _ _ _) _ λ undominated.
              >>=-Ensures _ _ (split_complete_partial _ _ _ _) _
                (split_complete_partial-Ensures m std undominated)
                λ split (done, undone).
                  >>=-Ensures _ _ (accept _ _ _) _ (accept-IsFront m std split.complete _ done f)
                    λ accepted front.
                      >>=-Ensures _ _ (prune _ _ _) _
                        (prune-AllPartial m std algorithm split.partial undone)
                        λ partial rest. (front, rest)

  rounds-IsFront :
      (left iteration : ℕ) (s : Progress Real State Resources World)
      → IsFront m s.accepted_solutions
      → Ensures
          (λ r. IsFront m r.1.accepted_solutions)
          (rounds algorithm (some m) fuel modes steps left iteration s)
  unfolding rounds
  rounds-IsFront zero iteration s f = f
  rounds-IsFront (suc left) iteration s f = if-Ensures _ (is_empty s.partial_solutions) _ _ f (
      >>=-Ensures _ _ (perform_search_single_iteration _ _ _ _ _ s) _
        (perform_search_single_iteration-Ensures s f)
        λ next (front, rest).
          if-Ensures _ (clock.has_timeout next.world).0 _ _ front (
            rounds-IsFront left _ (record next { world = (clock.has_timeout next.world).1 }) front))

  -- With `std::sort` and `std::partition` as C++ promises them: if a pass returns, and the
  -- solutions of the previous front are complete with none strictly better than another, then so
  -- are those of the new front, whose stride is the pass's.
  pub perform_search_n_iterations-Ensures :
      (previous : ParetoFront Real State Resources) (world : World)
      → IsFront m previous.solutions
      → Ensures
          (λ r. IsFront m r.0.solutions × (r.0.steps_per_iteration ≡ steps))
          (perform_search_n_iterations algorithm (some m) fuel modes steps previous world)
  unfolding perform_search_n_iterations
  perform_search_n_iterations-Ensures previous world f =
      then-Ensures _ (refuse_if (steps == 0) zero_steps) _ λ _.
        then-Ensures _ (refuse_if (is_empty modes) no_modes) _ λ _.
          then-Ensures _ (or_throw (d.to_unsigned _) undefined) _ λ max_iterations.
            >>=-Ensures _ _ (rounds _ _ _ _ _ max_iterations _ _) _
              (rounds-IsFront max_iterations 0 _ f) λ (iteration, s) front. (front, refl)

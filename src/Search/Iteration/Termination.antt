-- ===== src/Search/Iteration/Termination.antt =====
-- A round of the search and a whole pass end, where each interpolation ends.
use flexman.Search.Dominance.{
  remove_dominated_by, remove_dominated_solutions, remove_duplicate_solutions, is_comparable,
}
use flexman.Search.Dominance.Removal.{remove_dominated_solutions-Antichain, remove_dominated_by_iff}
use flexman.Search.Splitting.{move_elements, split_complete_partial}
use flexman.Base.{
  Returns-Settles, IsOk-Settles, >>=-Settles, or_throw-Ensures, All-get_elem?, All, ℕ, zero, suc,
  ◌<◌, ◌≡◌, ◌≢◌, refl, false, some, List, [], ◌∷◌, ◌++◌, ok, Settles, then-Settles, if-Settles,
  is_empty, Bool-cases, inl, inr, pos-ne-zero, get_elem?, back, or_throw, or_throw-Settles,
  undefined,
}
use flexman.Double.{Double, Consumable}
use flexman.Core.Execution.{Mode}
use flexman.Core.Solution.{Solution, ParetoFront}
use flexman.Core.Manager.{Manager}
use flexman.Search.Algorithms.{Algorithms, IsStandard}
use flexman.Search.Interpolation.{simulate_mode}
use flexman.Search.Extension.{
  SearchAlgorithm, exhaustive, heuristic, single_machine, SwitchingMode, free, increasing, Clock,
  extend_freely, extend_last, extend_one, extend_all, extend_solutions,
}
use flexman.Search.Iteration.Carried.{iteration-Partial}
use flexman.Search.Iteration.Stepwise.{IsKeptBy}
use flexman.Search.Iteration.Steady.{
  Interpolates, IsSteady, simulate_mode-IsOk, extend_freely-IsOk, steady-Extends,
}
use flexman.Search.Iteration.{
  Progress, switching, accept, prune, perform_search_single_iteration, rounds,
  perform_search_n_iterations,
}

module _ {ℓ} {Real State Mode Resources Timespec : Type ℓ} ⦃c : Consumable Resources⦄
    ⦃alg : Algorithms (Solution Real State Resources)⦄
    (m : Manager Real State Mode Resources Timespec) where
  split-Settles :
      (xs : List (Solution Real State Resources))
      → Settles (split_complete_partial (some m) xs [] [])
  unfolding split_complete_partial
  split-Settles [] = tt
  split-Settles (x ∷ xs) = tt

  duplicates-Settles :
      (xs : List (Solution Real State Resources)) → Settles (remove_duplicate_solutions xs)
  unfolding remove_duplicate_solutions
  duplicates-Settles xs = elim (Bool-cases (is_comparable xs)) [
    | inl e ↦ rw e tt
    | inr e ↦ rw e refl
  ]

  accept-Settles :
      (complete accepted : List (Solution Real State Resources))
      → Settles (accept (some m) complete accepted)
  unfolding accept move_elements
  accept-Settles [] accepted = tt
  accept-Settles (x ∷ xs) accepted =
      then-Settles (remove_dominated_solutions exhaustive (some m) (accepted ++ x ∷ xs)) _
        (Returns-Settles _ (remove_dominated_solutions-Antichain exhaustive m (accepted ++ x ∷ xs)))
        duplicates-Settles

  prune-Settles :
      (algorithm : SearchAlgorithm) (partial : List (Solution Real State Resources))
      → Settles (prune algorithm (some m) partial)
  unfolding prune
  prune-Settles exhaustive partial = tt
  prune-Settles single_machine partial = tt
  prune-Settles heuristic partial =
      Returns-Settles _ (remove_dominated_by_iff heuristic m partial partial)

switching_ne_increasing : (algorithm : SearchAlgorithm) → switching algorithm ≢ increasing
switching_ne_increasing exhaustive = λ e. cc
switching_ne_increasing heuristic = λ e. cc
switching_ne_increasing single_machine = λ e. cc

module _ {ℓ} {Real State System Input Resources Timespec : Type ℓ} ⦃d : Double Real⦄
    ⦃c : Consumable Resources⦄ (P : Solution Real State Resources → Type 0)
    (m : Manager Real State (Mode System Input) Resources Timespec) (fuel : ℕ)
    (modes : List (Mode System Input)) (steady : IsSteady P m fuel modes) (steps : ℕ)
    (some_steps : 0 < steps) where
  extend_last-Settles :
      (partial : Solution Real State Resources)
      → P partial
      → Settles (extend_last (some m) fuel steps partial modes)
  unfolding extend_last
  extend_last-Settles partial h =
      then-Settles (or_throw (back partial.sequence) undefined) _ (or_throw-Settles _) λ last.
        >>=-Settles _ (or_throw (get_elem? modes last.mode) undefined) _ (or_throw-Settles _)
          (or_throw-Ensures _ _)
          λ mode at.
            then-Settles (simulate_mode (some m) fuel mode steps partial) _
              (IsOk-Settles _ (
                simulate_mode-IsOk P m fuel mode
                  (All-get_elem? (IsKeptBy P m) modes last.mode mode steady.kept at)
                  (All-get_elem? (Interpolates P m fuel) modes last.mode mode steady.ends at) steps
                  partial some_steps h))
              λ s. tt

  extend_one-Settles :
      (switch : SwitchingMode) (partial : Solution Real State Resources)
      → switch ≢ increasing
      → P partial
      → Settles (extend_one switch (some m) fuel steps modes partial)
  unfolding extend_one
  extend_one-Settles free partial h k =
      IsOk-Settles (extend_freely (some m) fuel steps partial modes)
        (extend_freely-IsOk P m fuel steps some_steps partial k modes steady.kept steady.ends)
  extend_one-Settles SwitchingMode.none partial h k = extend_last-Settles partial k
  extend_one-Settles increasing partial h k = absurd (h refl)

  module _ {World : Type ℓ} ⦃clock : Clock Real World⦄ where
    extend_all-Settles :
        (switch : SwitchingMode) (partials : List (Solution Real State Resources)) (world : World)
        → switch ≢ increasing
        → All P partials
        → Settles (extend_all switch (some m) fuel steps modes partials world)
    unfolding extend_all
    extend_all-Settles switch [] world h ks = tt
    extend_all-Settles switch (p ∷ ps) world h (k, ks) =
        then-Settles (extend_one switch (some m) fuel steps modes p) _
          (extend_one-Settles switch p h k)
          λ new.
            let (timed_out, world') = clock.has_timeout world in
            let more = extend_all-Settles switch ps world' h ks in
            then-Settles _ _ (if-Settles timed_out (ok ([], world')) _ tt more) λ rest. tt

    module _ ⦃alg : Algorithms (Solution Real State Resources)⦄
        (std : IsStandard (Solution Real State Resources)) (algorithm : SearchAlgorithm)
        (some_modes : is_empty modes ≡ false) where
      iteration-Settles :
          (s : Progress Real State Resources World)
          → All P s.partial_solutions
          → Settles (perform_search_single_iteration algorithm (some m) fuel modes steps s)
      unfolding perform_search_single_iteration extend_solutions
      iteration-Settles s h =
          rw (pos-ne-zero steps some_steps, some_modes)
            (then-Settles (extend_all _ _ _ _ _ _ _) _
              (extend_all-Settles (switching algorithm) s.partial_solutions s.world
                (switching_ne_increasing algorithm) h)
              λ (extended, world).
                then-Settles (remove_dominated_by _ _ _ _ _) _
                  (Returns-Settles _
                    (remove_dominated_by_iff exhaustive m extended s.accepted_solutions))
                  λ undominated.
                    then-Settles (split_complete_partial _ _ _ _) _ (split-Settles m undominated)
                      λ split.
                        then-Settles (accept _ _ _) _
                          (accept-Settles m split.complete s.accepted_solutions)
                          λ accepted.
                            then-Settles (prune _ _ _) _ (prune-Settles m algorithm split.partial)
                              λ _. tt)

      rounds-Settles :
          (left iteration : ℕ) (s : Progress Real State Resources World)
          → All P s.partial_solutions
          → Settles (rounds algorithm (some m) fuel modes steps left iteration s)
      unfolding rounds
      rounds-Settles zero iteration s h = tt
      rounds-Settles (suc left) iteration s h = if-Settles (is_empty s.partial_solutions) _ _ tt (
          >>=-Settles _ (perform_search_single_iteration _ _ _ _ _ _) _ (iteration-Settles s h)
            (iteration-Partial std P algorithm m fuel modes
              (steady-Extends P m fuel modes steady algorithm) steps s h)
            λ next k.
              let (timed_out, world) = clock.has_timeout next.world in
              if-Settles timed_out _ _ tt (rounds-Settles left _ (record next { world = world }) k))

      -- A pass with modes and at least one step ends: it returns, or meets undefined behaviour.
      pub perform_search_n_iterations-Settles :
          (previous : ParetoFront Real State Resources) (world : World)
          → Settles (perform_search_n_iterations algorithm (some m) fuel modes steps previous world)
      unfolding perform_search_n_iterations
      perform_search_n_iterations-Settles previous world =
          rw (pos-ne-zero steps some_steps, some_modes)
            (then-Settles (or_throw (d.to_unsigned _) undefined) _ (or_throw-Settles _)
              λ max_iterations.
                then-Settles (rounds _ _ _ _ _ max_iterations _ _) _
                  (rounds-Settles max_iterations 0 _ steady.initial) λ _. tt)

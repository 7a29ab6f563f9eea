-- ===== src/Search/Iteration/Clocked.antt =====
-- The global timer does not go back during a pass of the search.
use flexman.Base.{
  ℕ, zero, suc, ◌+◌, ◌%◌, ◌≡◌, true, some, List, [], ◌∷◌, ok, Ensures, >>=-Ensures, then-Ensures,
  Ensures-map, if-Ensures, is_empty, unsigned_mod, if◌then◌else◌, refuse_if, zero_steps, no_modes,
  or_throw, undefined, ◌==◌,
}
use flexman.Double.{Double, Consumable, ◌≼◌}
use flexman.Core.Execution.{Mode}
use flexman.Core.Solution.{Solution, ParetoFront}
use flexman.Core.Manager.{Manager}
use flexman.Search.Algorithms.{Algorithms}
use flexman.Search.Dominance.{remove_dominated_by}
use flexman.Search.Splitting.{split_complete_partial}
use flexman.Search.Extension.{SearchAlgorithm, Clock, extend_one, extend_all, extend_solutions}
use flexman.Search.Iteration.{
  Progress, switching, accept, prune, perform_search_single_iteration, rounds,
  perform_search_n_iterations,
}

-- The time on the global timer.
abbrev pub time_at {ℓ} : (Real : Type ℓ) {World : Type ℓ} ⦃clock : Clock Real World⦄ → World → Real
time_at _ ⦃clock⦄ w = (clock.elapsed w).0

-- `≤` is an order, and the time on the global timer does not fall when a timer is asked, when the
-- timer of a front starts, and when the global one is paused and started again.
pub record NeverGoesBack {ℓ} (Real World : Type ℓ) ⦃d : Double Real⦄ ⦃clock : Clock Real World⦄
    : Type ℓ where
  pub le_refl : (a : Real) → a ≼ a ≡ true
  pub le_trans : (a b c : Real) → a ≼ b ≡ true → b ≼ c ≡ true → a ≼ c ≡ true
  pub elapsed_after : (w : World) → time_at Real w ≼ time_at Real (clock.elapsed w).1 ≡ true
  pub has_timeout_after : (w : World) → time_at Real w ≼ time_at Real (clock.has_timeout w).1 ≡ true
  pub start_pareto_after : (w : World) → time_at Real w ≼ time_at Real (clock.start_pareto w) ≡ true
  pub elapsed_pareto_after :
      (w : World) → time_at Real w ≼ time_at Real (clock.elapsed_pareto w).1 ≡ true
  pub start-pause_after :
      (w : World) → time_at Real w ≼ time_at Real (clock.start (clock.pause w)) ≡ true

module _ {ℓ} {Real State System Input Resources Timespec World : Type ℓ} ⦃d : Double Real⦄
    ⦃c : Consumable Resources⦄ ⦃alg : Algorithms (Solution Real State Resources)⦄
    ⦃clock : Clock Real World⦄ (laws : NeverGoesBack Real World) (algorithm : SearchAlgorithm)
    (m : Manager Real State (Mode System Input) Resources Timespec) (fuel : ℕ)
    (modes : List (Mode System Input)) (steps : ℕ) where
  extend_all-after :
      (partials : List (Solution Real State Resources)) (world : World)
      → Ensures
          (λ r. time_at Real world ≼ time_at Real r.1 ≡ true)
          (extend_all (switching algorithm) (some m) fuel steps modes partials world)
  unfolding extend_all
  extend_all-after [] world = laws.le_refl (time_at Real world)
  extend_all-after (p ∷ ps) world =
      then-Ensures _ (extend_one (switching algorithm) (some m) fuel steps modes p) _ λ new.
        let (timed_out, world') = clock.has_timeout world in
        let tail = extend_all (switching algorithm) (some m) fuel steps modes ps world' in
        let here = laws.has_timeout_after world in
        >>=-Ensures (λ r. time_at Real world' ≼ time_at Real r.1 ≡ true) _
          (if timed_out then ok ([], world') else tail) _
          (if-Ensures {A = List (Solution Real State Resources) × World} _ timed_out
            (ok ([], world')) tail (laws.le_refl (time_at Real world'))
            (extend_all-after ps world'))
          λ (rest, last) after. laws.le_trans _ _ _ here after

  iteration-after :
      (s : Progress Real State Resources World)
      → Ensures
          (λ t. time_at Real s.world ≼ time_at Real t.world ≡ true)
          (perform_search_single_iteration algorithm (some m) fuel modes steps s)
  unfolding perform_search_single_iteration extend_solutions
  iteration-after s = then-Ensures _ (refuse_if (steps == 0) zero_steps) _ λ _.
      then-Ensures _ (refuse_if (is_empty modes) no_modes) _ λ _.
        >>=-Ensures (λ r. time_at Real s.world ≼ time_at Real r.1 ≡ true) _
          (extend_solutions (switching algorithm) (some m) fuel modes steps s.partial_solutions
            s.world)
          _
          (then-Ensures _ (refuse_if (steps == 0) zero_steps) _ λ _.
            then-Ensures _ (refuse_if (is_empty modes) no_modes) _
              λ _. extend_all-after s.partial_solutions s.world)
          λ (extended, world) after. then-Ensures _ (remove_dominated_by _ _ _ _ _) _ λ undominated.
            then-Ensures _ (split_complete_partial _ _ _ _) _ λ split.
              then-Ensures _ (accept _ _ _) _
                λ accepted. then-Ensures _ (prune _ _ _) _ λ partial. after

  rounds-after :
      (left iteration : ℕ) (s : Progress Real State Resources World)
      → Ensures
          (λ r. time_at Real s.world ≼ time_at Real r.1.world ≡ true)
          (rounds algorithm (some m) fuel modes steps left iteration s)
  unfolding rounds
  rounds-after zero iteration s = laws.le_refl (time_at Real s.world)
  rounds-after (suc left) iteration s =
      if-Ensures _ (is_empty s.partial_solutions) _ _ (laws.le_refl (time_at Real s.world)) (
        >>=-Ensures _ _ (perform_search_single_iteration _ _ _ _ _ s) _ (iteration-after s)
          λ next after.
            let t : Progress Real State Resources World = record next {
              world = (clock.has_timeout next.world).1;
            } in
            let here = laws.le_trans _ _ _ after (laws.has_timeout_after next.world) in
            let count = (iteration + 1) % unsigned_mod in
            if-Ensures _ (clock.has_timeout next.world).0 _ _ here (
              Ensures-map _ _ (rounds algorithm (some m) fuel modes steps left count t)
                (λ r k. laws.le_trans _ _ _ here k) (rounds-after left count t)))

  pub n_iterations-after :
      (previous : ParetoFront Real State Resources) (world : World)
      → Ensures
          (λ r. time_at Real world ≼ time_at Real r.1 ≡ true)
          (perform_search_n_iterations algorithm (some m) fuel modes steps previous world)
  unfolding perform_search_n_iterations
  n_iterations-after previous world = then-Ensures _ (refuse_if (steps == 0) zero_steps) _ λ _.
      then-Ensures _ (refuse_if (is_empty modes) no_modes) _ λ _.
        then-Ensures _ (or_throw (d.to_unsigned _) undefined) _ λ max_iterations.
          >>=-Ensures _ _ (rounds _ _ _ _ _ max_iterations _ _) _ (rounds-after max_iterations 0 _)
            λ (iteration, s) after.
              laws.le_trans _ _ _ (laws.start_pareto_after world)
                (laws.le_trans _ _ _ after (laws.elapsed_pareto_after s.world))

-- ===== src/Swarm/Fronts.antt =====
-- What the optimisation of a result leaves as it was.
use flexman.Base.{
  ℕ, suc, ◌+◌, ◌≡◌, refl, ap, Option, List, [], ◌∷◌, map, length, Ensures, >>=-Ensures,
  then-Ensures,
}
use mathlib.Core.Path.{ap₂}
use flexman.Double.{Double, Consumable, Metered}
use flexman.Core.Solution.{Solution, ParetoFront, Result}
use flexman.Core.Manager.{Manager}
use flexman.Swarm.{SolverParameters}
use flexman.Swarm.Optimize.{
  optimize_solution, optimize_solutions, optimize_pareto_front, optimize_fronts, optimize_result,
}

-- All of a front but its solutions, of which it has the number.
abbrev pub outline {ℓ} :
    {Real State Resources : Type ℓ} → ParetoFront Real State Resources → ℕ × Real × ℕ × ℕ × Real
outline f = (length f.solutions, f.step_length, f.steps_per_iteration, f.iteration, f.runtime)

module _ {ℓ} {Real State Mode Resources Timespec : Type ℓ} ⦃d : Double Real⦄
    ⦃c : Consumable Resources⦄ ⦃r : Metered Real Resources⦄
    (manager : Option (Manager Real State Mode Resources Timespec))
    (parameters : SolverParameters Real) (fuel : ℕ) (modes : List Mode) (seeds : ℕ → ℕ → Real) where
  length-optimize_solutions :
      (k : ℕ) (solutions : List (Solution Real State Resources))
      → Ensures
          (λ t. length t.0 ≡ length solutions)
          (optimize_solutions manager parameters fuel modes seeds k solutions)
  unfolding optimize_solutions
  length-optimize_solutions k [] = refl
  length-optimize_solutions k (s ∷ ss) =
      then-Ensures _ (optimize_solution manager parameters fuel modes (seeds k) s) _ λ better.
        >>=-Ensures _ _ (optimize_solutions manager parameters fuel modes seeds (k + 1) ss) _
          (length-optimize_solutions (k + 1) ss) λ (rest, end) same. ap suc same

  outline-optimize_pareto_front :
      (k : ℕ) (f : ParetoFront Real State Resources)
      → Ensures
          (λ t. outline t.0 ≡ outline f)
          (optimize_pareto_front manager parameters fuel modes seeds k f)
  unfolding optimize_pareto_front
  outline-optimize_pareto_front k f =
      >>=-Ensures _ _ (optimize_solutions manager parameters fuel modes seeds k f.solutions) _
        (length-optimize_solutions k f.solutions)
        λ (optimized, end) same.
          ap (λ n. (n, f.step_length, f.steps_per_iteration, f.iteration, f.runtime)) same

  outline-optimize_fronts :
      (k : ℕ) (fronts : List (ParetoFront Real State Resources))
      → Ensures
          (λ t. map outline t ≡ map outline fronts)
          (optimize_fronts manager parameters fuel modes seeds k fronts)
  unfolding optimize_fronts
  outline-optimize_fronts k [] = refl
  outline-optimize_fronts k (f ∷ fs) =
      >>=-Ensures _ _ (optimize_pareto_front manager parameters fuel modes seeds k f) _
        (outline-optimize_pareto_front k f)
        λ (front, next) same.
          >>=-Ensures _ _ (optimize_fronts manager parameters fuel modes seeds next fs) _
            (outline-optimize_fronts next fs) λ rest sames. ap₂ ◌∷◌ same sames

  -- Whatever the draws, the fuel and the manager: if `optimize_result` returns, its result has as
  -- many fronts, and each front as many solutions and the same step length, stride, iteration and
  -- runtime as before.
  pub outline-optimize_result :
      (result : Result Real State Resources)
      → Ensures
          (λ t. map outline t.pareto_fronts ≡ map outline result.pareto_fronts)
          (optimize_result manager parameters fuel modes seeds result)
  unfolding optimize_result
  outline-optimize_result result =
      >>=-Ensures _ _ (optimize_fronts manager parameters fuel modes seeds 0 result.pareto_fronts) _
        (outline-optimize_fronts 0 result.pareto_fronts) λ fronts same. same

-- ===== src/Program/Comparing.antt =====
-- The comparison of a result with the one that the optimisation makes of it.
use flexman.Base.{
  ℕ, suc, ◌+◌, ◌≡◌, refl, sym, ap, ◌∙◌, Option, List, [], ◌∷◌, map, length, length-append, All,
  All-append, ==_iff, Ensures, Ensures-map, arith,
}
use flexman.Double.{Double, Consumable, Metered}
use flexman.Core.Solution.{Solution, ParetoFront, Result}
use flexman.Core.Manager.{Manager}
use flexman.Swarm.{SolverParameters}
use flexman.Swarm.Optimize.{optimize_result}
use flexman.Swarm.Fronts.{outline, outline-optimize_result}
use flexman.Program.{
  Line, fronts_differ, solutions_differ, compared, compare_solutions, compare_fronts,
  compare_results,
}

-- The line compares a solution, and is no warning.
abbrev pub IsCompared {ℓ} : {Real : Type ℓ} → Line Real → Type 0
IsCompared (fronts_differ m n) = ⊥
IsCompared (solutions_differ i m n) = ⊥
IsCompared (compared j i v t1 t2 w e1 e2) = Unit

-- A line for each of `n` solutions.
abbrev pub Compares {ℓ} : {Real : Type ℓ} → ℕ → List (Line Real) → Type 0
Compares n lines = All IsCompared lines × (length lines ≡ n)

module _ {ℓ} {Real State Resources : Type ℓ} where
  -- The number of solutions in the fronts.
  abbrev pub count_solutions : List (ParetoFront Real State Resources) → ℕ
  count_solutions [] = 0
  count_solutions (f ∷ fs) = length f.solutions + count_solutions fs

  module _ ⦃d : Double Real⦄ ⦃r : Metered Real Resources⦄ where
    compare_solutions-Compares :
        (i j : ℕ) (xs ys : List (Solution Real State Resources))
        → length xs ≡ length ys
        → Compares (length xs) (compare_solutions i j xs ys)
    unfolding compare_solutions
    compare_solutions-Compares i j [] ys h = (tt, refl)
    compare_solutions-Compares i j (x ∷ xs) [] h = cc
    compare_solutions-Compares i j (x ∷ xs) (y ∷ ys) h =
        let (lines, count) = compare_solutions-Compares i (j + 1) xs ys (omega arith) in
        ((tt, lines), ap suc count)

    compare_fronts-Compares :
        (i : ℕ) (fs gs : List (ParetoFront Real State Resources))
        → map outline gs ≡ map outline fs
        → Compares (count_solutions fs) (compare_fronts i fs gs)
    unfolding compare_fronts
    compare_fronts-Compares i [] gs h = (tt, refl)
    compare_fronts-Compares i (f ∷ fs) [] h = cc
    compare_fronts-Compares i (f ∷ fs) (g ∷ gs) h =
        let heads : outline g ≡ outline f = cc in
        let tails : map outline gs ≡ map outline fs = cc in
        let same : length f.solutions ≡ length g.solutions = sym (ap (λ o. o.0) heads) in
        let test = (==_iff (length f.solutions) (length g.solutions)).1 same in
        let (here, count) = compare_solutions-Compares i 1 f.solutions g.solutions same in
        let (rest, counts) = compare_fronts-Compares (i + 1) fs gs tails in
        rw test (
          All-append IsCompared (compare_solutions i 1 f.solutions g.solutions) _ here rest,
          length-append (compare_solutions i 1 f.solutions g.solutions) _
              ∙ omega (arith, count, counts),
        )

    length-outline :
        (fs gs : List (ParetoFront Real State Resources))
        → map outline gs ≡ map outline fs
        → length fs ≡ length gs
    length-outline [] [] h = refl
    length-outline [] (g ∷ gs) h = cc
    length-outline (f ∷ fs) [] h = cc
    length-outline (f ∷ fs) (g ∷ gs) h =
        let tails : map outline gs ≡ map outline fs = cc in ap suc (length-outline fs gs tails)

    -- Whatever the draws, the fuel and the manager: if `optimize_result` returns, then
    -- `compare_results` of the result and of the optimised one gives no warning, but one line for
    -- each solution.
    pub compare_results-optimize_result :
        {Mode Timespec : Type ℓ} ⦃c : Consumable Resources⦄
        → (manager : Option (Manager Real State Mode Resources Timespec))
        → (parameters : SolverParameters Real) (fuel : ℕ) (modes : List Mode)
        → (seeds : ℕ → ℕ → Real) (result : Result Real State Resources)
        → Ensures
            (λ t.
              All IsCompared (compare_results result t)
              × (length (compare_results result t) ≡ count_solutions result.pareto_fronts))
            (optimize_result manager parameters fuel modes seeds result)
    unfolding compare_results
    compare_results-optimize_result manager parameters fuel modes seeds result =
        Ensures-map _ _ (optimize_result manager parameters fuel modes seeds result)
          (λ t h.
            let test =
              (==_iff (length result.pareto_fronts) (length t.pareto_fronts)).1
                (length-outline result.pareto_fronts t.pareto_fronts h) in
            rw test (compare_fronts-Compares 1 result.pareto_fronts t.pareto_fronts h))
          (outline-optimize_result manager parameters fuel modes seeds result)

-- ===== src/Program.antt =====
-- examples/tapping/main.cpp: the gear factors, the comparison and the sorting of results, and the
-- modes that the program searches with. `execute_in_discrete_mode`, `execute_in_continuous_mode` and
-- `main` are in Program.Execute, the file that is saved in Program.Saving.
pub mod Execute
pub mod Saving
pub mod Logs
pub mod Factors
pub mod Numbering
pub mod Comparing
pub mod Sorting
pub mod Running
pub mod Simulating
pub mod Ending
pub mod Returning
use flexman.Base.{
  ℕ, zero, suc, ◌+◌, ◌-◌, Bool, not, if◌then◌else◌, ◌==◌, List, [], ◌∷◌, ◌++◌, length, Outcome, ok,
  ◌>>=◌, ◌>>◌, refuse_if, undefined,
}
use flexman.Double.{Double, Metered, ◌⊕◌, ◌⊖◌, ◌⊗◌, ◌⊘◌, ◌≺◌}
use flexman.Core.Execution.{Mode}
use flexman.Core.Solution.{Solution, ParetoFront, Result}
use flexman.Search.Algorithms.{Algorithms, strict_weak_on}
use flexman.Tapping.{Tolerant, Resources}
use flexman.Tapping.Systems.{Parameters}

module _ {ℓ} {Real : Type ℓ} ⦃d : Double Real⦄ where
  -- A loop that sets `result[i]`, with `left` indices to go, from `i` on: what it sets.
  unfoldable pub entries : (ℕ → Real) → (left i : ℕ) → List Real
  entries f zero i = []
  entries f (suc left) i = f i ∷ entries f left (i + 1)

  -- `linspace<double>`
  unfoldable pub linspace : ⦃t : Tolerant Real⦄ → (start stop : Real) (num : ℕ) → List Real
  linspace ⦃t⦄ start stop num =
      let rising = (stop ⊖ start) ⊘ d.of_ℕ (num - 1) in
      let falling = (start ⊖ stop) ⊘ d.of_ℕ (num - 1) in
      if num == 0
      then []
      else if num == 1
      then stop ∷ []
      else if t.approximately_equal start stop
      then entries (λ i. stop) num 0
      else if start ≺ stop
      then entries (λ i. start ⊕ rising ⊗ d.of_ℕ i) num 0
      else entries (λ i. start ⊖ falling ⊗ d.of_ℕ i) num 0

module _ {ℓ} {Real State : Type ℓ} ⦃d : Double Real⦄ ⦃t : Tolerant Real⦄ where
  unfoldable pub compare_ascending : (lhs rhs : Solution Real State (Resources Real)) → Bool
  compare_ascending lhs rhs =
      if not (t.approximately_equal lhs.resources.energy rhs.resources.energy)
      then lhs.resources.energy ≺ rhs.resources.energy
      else lhs.resources.time ≺ rhs.resources.time

  -- The loop of `std::sort`. Sorting by what is no strict weak order is undefined.
  unfoldable pub sort_fronts :
      ⦃alg : Algorithms (Solution Real State (Resources Real))⦄
      → List (ParetoFront Real State (Resources Real))
      → Outcome (List (ParetoFront Real State (Resources Real)))
  sort_fronts [] = ok []
  sort_fronts ⦃alg⦄ (f ∷ fs) = do
    refuse_if (not (strict_weak_on compare_ascending f.solutions)) undefined
    rest ← sort_fronts fs
    ok (record f { solutions = alg.sort compare_ascending f.solutions } ∷ rest)

-- The words of `compare_state`, without their colours.
pub data Verdict : Type 0 where
  improved worsened unchanged : Verdict

-- What `compare_results` logs: a warning that the fronts differ in number, or the solutions of one
-- front, or a line for a solution, with its number and that of its front.
pub data Line {ℓ} (Real : Type ℓ) : Type ℓ where
  fronts_differ : (count1 count2 : ℕ) → Line Real
  solutions_differ : (front count1 count2 : ℕ) → Line Real
  compared :
      (solution front : ℕ) (time : Verdict) (time1 time2 : Real) (energy : Verdict)
      (energy1 energy2 : Real)
      → Line Real

module _ {ℓ} {Real : Type ℓ} ⦃d : Double Real⦄ where
  unfoldable pub compare_state : (value1 value2 : Real) → Verdict
  compare_state value1 value2 =
      if value2 ≺ value1 then improved else if value1 ≺ value2 then worsened else unchanged

  module _ {State Resources : Type ℓ} ⦃r : Metered Real Resources⦄ where
    -- The loop over the solutions of two fronts of one size, the first with number `j`.
    unfoldable pub compare_solutions :
        (i j : ℕ) (solutions1 solutions2 : List (Solution Real State Resources)) → List (Line Real)
    compare_solutions i j (sol1 ∷ rest1) (sol2 ∷ rest2) =
        let time1 = r.time sol1.resources in
        let time2 = r.time sol2.resources in
        let energy1 = r.energy sol1.resources in
        let energy2 = r.energy sol2.resources in
        compared j i (compare_state time1 time2) time1 time2 (compare_state energy1 energy2) energy1
          energy2
        ∷ compare_solutions i (j + 1) rest1 rest2
    compare_solutions i j _ _ = []

    -- The loop over the fronts of two results of one size, the first with number `i`.
    unfoldable pub compare_fronts :
        (i : ℕ) (fronts1 fronts2 : List (ParetoFront Real State Resources)) → List (Line Real)
    compare_fronts i (front1 ∷ rest1) (front2 ∷ rest2) =
        let count1 = length front1.solutions in
        let count2 = length front2.solutions in
        let lines = compare_fronts (i + 1) rest1 rest2 in
        if not (count1 == count2)
        then solutions_differ i count1 count2 ∷ lines
        else compare_solutions i 1 front1.solutions front2.solutions ++ lines
    compare_fronts i _ _ = []

    unfoldable pub compare_results :
        (result1 result2 : Result Real State Resources) → List (Line Real)
    compare_results result1 result2 =
        let count1 = length result1.pareto_fronts in
        let count2 = length result2.pareto_fronts in
        if not (count1 == count2)
        then fronts_differ count1 count2 ∷ []
        else compare_fronts 1 result1.pareto_fronts result2.pareto_fronts

module _ {ℓ} {Real System Input : Type ℓ} where
  -- The loop over the gear factors, from number `i` on: the parameters and the modes that it appends.
  -- `build` makes a mode of the parameters and its number.
  unfoldable pub build_modes :
      (build : Parameters Real → ℕ → Mode System Input)
      → (i : ℕ) (base_parameters : Parameters Real) (gear_factors : List Real)
      → List (Parameters Real) × List (Mode System Input)
  build_modes build i base [] = ([], [])
  build_modes build i base (g ∷ gs) =
      let base' = record base { gr = g } in
      let (parameters, modes) = build_modes build (i + 1) base' gs in
      (base' ∷ parameters, build base' i ∷ modes)

-- ===== src/Examples/Removing.antt =====
-- The theorems of Search/Dominance and Core/Execution at work on the small plant.
use flexman.Core.Execution.Laws.{executions, executions-add_mode_execution}
use flexman.Core.Execution.{execution, add_mode_execution_to_sequence}
use flexman.Base.{◌↔◌, List, [], ◌∷◌, ◌≡◌, refl, true, false, some, ◌++◌, All, Returns, arith}
use mathlib.Core.List.{Memᴰ}
use flexman.Core.Solution.{solution_eq}
use flexman.Search.Algorithms.{strict_weak_on, equivalence_on}
use flexman.Search.Algorithms.Insertion.{insertion, insertion-IsStandard}
use flexman.Search.Extension.{exhaustive}
use flexman.Search.Dominance.{
  remove_dominated_by, remove_dominated_solutions, remove_duplicate_solutions, is_comparable,
}
use flexman.Search.Dominance.Laws.{Antichain}
use flexman.Search.Dominance.Cover.{Covers}
use flexman.Search.Dominance.Duplicates.{Represents}
use flexman.Search.Dominance.Removal.{
  remove_dominated_solutions-remove_dominated_by, remove_dominated_solutions-Antichain,
  remove_dominated_solutions-Covers, remove_dominated_by_iff, remove_duplicate_solutions-Represents,
}
use flexman.Plant.{drilled, meters, numbers, costs, Drilled, drill, ticking, untimed}

-- Three complete solutions: the last is dominated by the first.
abbrev three : List Drilled
three = drilled 6 1 9 ∷ drilled 7 9 1 ∷ drilled 8 2 9 ∷ []

remove_dominated_solutions-Antichain_example :
    Returns
      (Antichain (drill 400 6).is_strictly_better_than)
      (remove_dominated_solutions exhaustive (some (drill 400 6)) three)
remove_dominated_solutions-Antichain_example =
    remove_dominated_solutions-Antichain exhaustive (drill 400 6) three

better_irr : (x : Drilled) → (drill 400 6).is_strictly_better_than x x ≡ false
better_irr x = ground arith

better_trans :
    (x y z : Drilled)
    → (drill 400 6).is_strictly_better_than x y ≡ true
    → (drill 400 6).is_strictly_better_than y z ≡ true
    → (drill 400 6).is_strictly_better_than x z ≡ true
better_trans x y z h k = ground arith

remove_dominated_solutions-remove_dominated_by_example :
    remove_dominated_solutions exhaustive (some (drill 400 6)) three
    ≡ remove_dominated_by exhaustive (some (drill 400 6)) false three three
remove_dominated_solutions-remove_dominated_by_example =
    remove_dominated_solutions-remove_dominated_by exhaustive (drill 400 6) better_irr three

remove_dominated_solutions-Covers_example :
    Returns
      (λ ys. (a : Drilled) → Memᴰ a three → Covers (drill 400 6).is_strictly_better_than ys a)
      (remove_dominated_solutions exhaustive (some (drill 400 6)) three)
remove_dominated_solutions-Covers_example =
    remove_dominated_solutions-Covers exhaustive (drill 400 6) better_irr better_trans three

remove_dominated_by_iff_example :
    Returns
      (λ ys.
        (a : Drilled)
        → Memᴰ a ys ↔ (
            Memᴰ a three
            × All (λ b. (drill 400 6).is_strictly_better_than b a ≡ false) (drilled 6 1 10 ∷ [])))
      (remove_dominated_by exhaustive (some (drill 400 6)) false three (drilled 6 1 10 ∷ []))
remove_dominated_by_iff_example =
    remove_dominated_by_iff exhaustive (drill 400 6) three (drilled 6 1 10 ∷ [])

ordered : is_comparable three ≡ true
unfolding strict_weak_on equivalence_on
ordered = refl

remove_duplicate_solutions-Represents_example :
    Returns
      (λ ys. (a : Drilled) → Memᴰ a three → Represents solution_eq ys a)
      (remove_duplicate_solutions three)
remove_duplicate_solutions-Represents_example =
    remove_duplicate_solutions-Represents insertion-IsStandard three ordered

executions-add_mode_execution_example :
    executions (add_mode_execution_to_sequence 1 (execution 0 3 ∷ execution 1 2 ∷ []))
    ≡ executions (execution 0 3 ∷ execution 1 2 ∷ []) ++ 1 ∷ []
executions-add_mode_execution_example =
    executions-add_mode_execution 1 (execution 0 3 ∷ execution 1 2 ∷ [])
      (omega arith, (omega arith, tt))

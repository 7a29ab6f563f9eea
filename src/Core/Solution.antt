-- ===== src/Core/Solution.antt =====
-- core/solution.hpp, core/pareto_front.hpp and core/result.hpp.
use flexman.Base.{ℕ, Bool, not, ◌&&◌, ◌||◌, List, [], ◌∷◌}
use flexman.Double.{Double, ◌⊕◌, Consumable}
use flexman.Core.Execution.{ModeExecution, sequence_eq}

pub record Solution {ℓ} (Real State Resources : Type ℓ) : Type ℓ where
  pub sequence : List ModeExecution
  pub state : State
  pub resources : Resources
  pub distance : Real

pub record ParetoFront {ℓ} (Real State Resources : Type ℓ) : Type ℓ where
  pub solutions : List (Solution Real State Resources)
  pub step_length : Real
  pub steps_per_iteration : ℕ
  pub iteration : ℕ
  pub runtime : Real

pub record Result {ℓ} (Real State Resources : Type ℓ) : Type ℓ where
  pub pareto_fronts : List (ParetoFront Real State Resources)

module _ {ℓ} {Real State Resources : Type ℓ} ⦃c : Consumable Resources⦄ where
  -- `operator==`
  abbrev pub solution_eq : Solution Real State Resources → Solution Real State Resources → Bool
  solution_eq a b = sequence_eq a.sequence b.sequence || c.beq a.resources b.resources

  -- `operator<`
  abbrev pub solution_lt : Solution Real State Resources → Solution Real State Resources → Bool
  solution_lt a b = not (sequence_eq a.sequence b.sequence) && c.less a.resources b.resources

module _ {ℓ} {Real State Resources : Type ℓ} ⦃d : Double Real⦄ where
  abbrev add_runtimes : Real → List (ParetoFront Real State Resources) → Real
  add_runtimes total [] = total
  add_runtimes total (f ∷ fs) = add_runtimes (total ⊕ f.runtime) fs

  unfoldable pub get_total_runtime : Result Real State Resources → Real
  get_total_runtime r = add_runtimes (d.of_ℕ 0) r.pareto_fronts

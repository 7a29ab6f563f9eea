-- ===== src/Search/Dominance.antt =====
-- search/common.hpp: the two overloads of `remove_dominated_solutions` and
-- `remove_duplicate_solutions`. `std::sort` is a parameter, since C++ leaves the order of
-- equivalent elements open.
pub mod Laws
pub mod Cover
pub mod Duplicates
pub mod Removal
use flexman.Base.{
  ℕ, ◌+◌, Bool, true, false, not, ◌&&◌, if◌then◌else◌, Option, ◌==◌, List, [], ◌∷◌, get_elem?,
  is_empty, any_of, remove_if, Outcome, ok, ◌>>=◌, ◌>>◌, refuse_if, or_throw, null_manager,
  same_vector, undefined,
}
use flexman.Core.Solution.{Solution, solution_eq, solution_lt}
use flexman.Core.Manager.{Manager}
use flexman.Double.{Consumable}
use flexman.Search.Algorithms.{Algorithms, strict_weak_on, equivalence_on}
use flexman.Search.Extension.{SearchAlgorithm, exhaustive, heuristic, single_machine}

module _ {ℓ} {Real State Mode Resources Timespec : Type ℓ} where
  -- The comparison that `if constexpr (Algorithm == ...)` picks.
  abbrev pub better :
      SearchAlgorithm
      → Manager Real State Mode Resources Timespec
      → Solution Real State Resources
      → Solution Real State Resources
      → Bool
  better heuristic m = m.is_probably_better_than
  better exhaustive m = m.is_strictly_better_than
  better single_machine m = m.is_strictly_better_than

module _ {ℓ} {A : Type ℓ} where
  -- The inner loop: some element, other than the one at `i`, is better. `j` counts the elements.
  unfoldable pub is_dominated : (A → A → Bool) → (i : ℕ) (x : A) (j : ℕ) → List A → Bool
  is_dominated beats i x j [] = false
  is_dominated beats i x j (y ∷ ys) =
      let rest = is_dominated beats i x (j + 1) ys in
      if i == j then rest else (if beats y x then true else rest)

  -- The outer loop, from index `i` on: the indices of the elements to keep.
  unfoldable pub keep_indices : (A → A → Bool) → (all : List A) (i : ℕ) → List A → List ℕ
  keep_indices beats all i [] = []
  keep_indices beats all i (x ∷ xs) =
      let rest = keep_indices beats all (i + 1) xs in
      if is_dominated beats i x 0 all then rest else i ∷ rest

  -- `filtered_solutions`: the elements at the indices.
  unfoldable pub gather : List A → List ℕ → Outcome (List A)
  gather all [] = ok []
  gather all (i ∷ is) = do
    x ← or_throw (get_elem? all i) undefined
    rest ← gather all is
    ok (x ∷ rest)

  -- `std::unique` and `erase`: an element goes if it equals the last one kept.
  unfoldable pub unique_after : (A → A → Bool) → A → List A → List A
  unique_after eq kept [] = []
  unique_after eq kept (x ∷ xs) =
      let dropped = unique_after eq kept xs in
      let held = x ∷ unique_after eq x xs in if eq kept x then dropped else held

  unfoldable pub unique : (A → A → Bool) → List A → List A
  unique eq [] = []
  unique eq (x ∷ xs) = x ∷ unique_after eq x xs

module _ {ℓ} {Real State Mode Resources Timespec : Type ℓ} where
  -- The overload with two vectors; `same` says that both references name one vector.
  unfoldable pub remove_dominated_by :
      SearchAlgorithm
      → Option (Manager Real State Mode Resources Timespec)
      → (same : Bool) (solutions solutions_to_check_against : List (Solution Real State Resources))
      → Outcome (List (Solution Real State Resources))
  remove_dominated_by algorithm manager same solutions against = do
    m ← or_throw manager null_manager
    refuse_if same same_vector
    if is_empty against
        then ok solutions
        else ok (remove_if (λ s. any_of (λ other. better algorithm m other s) against) solutions)

  -- The overload with one vector.
  unfoldable pub remove_dominated_solutions :
      SearchAlgorithm
      → Option (Manager Real State Mode Resources Timespec)
      → (solutions : List (Solution Real State Resources))
      → Outcome (List (Solution Real State Resources))
  remove_dominated_solutions algorithm manager solutions = do
    m ← or_throw manager null_manager
    if is_empty solutions
        then ok solutions
        else gather solutions (keep_indices (better algorithm m) solutions 0 solutions)

module _ {ℓ} {Real State Resources : Type ℓ} ⦃c : Consumable Resources⦄ where
  -- What `std::sort` and `std::unique` ask of the vector: `<` is a strict weak order on it, and `==`
  -- an equivalence relation.
  abbrev pub is_comparable : List (Solution Real State Resources) → Bool
  is_comparable solutions =
      strict_weak_on solution_lt solutions && equivalence_on solution_eq solutions

module _ {ℓ} {Real State Resources : Type ℓ} ⦃c : Consumable Resources⦄
    ⦃alg : Algorithms (Solution Real State Resources)⦄ where
  -- Without these, the calls are undefined.
  unfoldable pub remove_duplicate_solutions :
      List (Solution Real State Resources) → Outcome (List (Solution Real State Resources))
  remove_duplicate_solutions solutions = do
    refuse_if (not (is_comparable solutions)) undefined
    ok (unique solution_eq (alg.sort solution_lt solutions))

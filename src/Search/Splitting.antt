-- ===== src/Search/Splitting.antt =====
-- search/common.hpp: `move_elements` and `split_complete_partial`.
use flexman.Base.{
  if◌then◌else◌, Option, List, [], ◌++◌, is_empty, Outcome, ok, ◌>>=◌, or_throw, null_manager,
}
use flexman.Core.Solution.{Solution}
use flexman.Core.Manager.{Manager}
use flexman.Search.Algorithms.{Algorithms}

-- The source, emptied, and the destination.
unfoldable pub move_elements {ℓ} : {A : Type ℓ} → List A → List A → List A × List A
move_elements source destination = ([], destination ++ source)

-- The three vectors after the call.
pub record Split {ℓ} (A : Type ℓ) : Type ℓ where
  pub solutions : List A
  pub complete : List A
  pub partial : List A

module _ {ℓ} {Real State Mode Resources Timespec : Type ℓ}
    ⦃alg : Algorithms (Solution Real State Resources)⦄ where
  unfoldable pub split_complete_partial :
      Option (Manager Real State Mode Resources Timespec)
      → (solutions complete partial : List (Solution Real State Resources))
      → Outcome (Split (Solution Real State Resources))
  split_complete_partial manager solutions complete partial = do
    m ← or_throw manager null_manager
    let (first, second) = alg.partition m.is_complete solutions
    if is_empty solutions
        then ok (record { solutions = solutions; complete = complete; partial = partial })
        else ok
            (record { solutions = []; complete = complete ++ first; partial = partial ++ second })

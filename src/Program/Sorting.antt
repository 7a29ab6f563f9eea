-- ===== src/Program/Sorting.antt =====
-- The sorting of a result: its fronts keep their solutions, in ascending order.
use mathlib.Core.List.{Permᴰ}
use mathlib.Core.List.Permᴰ.{symm}
use flexman.Base.{
  ℕ, ◌<◌, ◌≡◌, refl, sym, ◌∙◌, List, [], ◌∷◌, All, is_empty, Ensures, >>=-Ensures, Bool-cases, inl,
  inr,
}
use flexman.Double.{Double}
use flexman.Core.Solution.{Solution, ParetoFront}
use flexman.Core.Manager.{Manager}
use flexman.Search.Algorithms.{Algorithms, IsStandard, IsSorted, strict_weak_on}
use flexman.Search.Dominance.Duplicates.{All-perm, Antichain-perm}
use flexman.Search.Perform.Fronts.{IsFalling, IsKept, IsSearched}
use flexman.Tapping.{Tolerant, Resources}
use flexman.Program.{compare_ascending, sort_fronts}

is_empty-perm {ℓ} : {A : Type ℓ} {xs ys : List A} → Permᴰ xs ys → is_empty xs ≡ is_empty ys
is_empty-perm Permᴰ.nil = refl
is_empty-perm (Permᴰ.cons e p) = refl
is_empty-perm (Permᴰ.swap e f) = refl
is_empty-perm (Permᴰ.trans p q) = is_empty-perm p ∙ is_empty-perm q

module _ {ℓ} {Real State : Type ℓ} ⦃d : Double Real⦄ ⦃t : Tolerant Real⦄ where
  -- The second list has the fronts of the first, with their solutions in ascending order.
  pub data Sorts
      : List (ParetoFront Real State (Resources Real))
        → List (ParetoFront Real State (Resources Real))
        → Type ℓ where
    none_left : Sorts [] []
    sorts :
        {f g : ParetoFront Real State (Resources Real)}
        {fs gs : List (ParetoFront Real State (Resources Real))}
        → Permᴰ f.solutions g.solutions
        → IsSorted compare_ascending g.solutions
        → g.steps_per_iteration ≡ f.steps_per_iteration
        → Sorts fs gs
        → Sorts (f ∷ fs) (g ∷ gs)

  abbrev pub AllAscending : List (ParetoFront Real State (Resources Real)) → Type 0
  AllAscending = All (λ f. IsSorted compare_ascending f.solutions)

  pub Sorts-AllAscending :
      {fs gs : List (ParetoFront Real State (Resources Real))} → Sorts fs gs → AllAscending gs
  Sorts-AllAscending none_left = tt
  Sorts-AllAscending (sorts p sorted e h) = (sorted, Sorts-AllAscending h)

  pub Sorts-All {κ} :
      (P : Solution Real State (Resources Real) → Type κ)
      {fs gs : List (ParetoFront Real State (Resources Real))}
      → Sorts fs gs
      → All (λ f. All P f.solutions) fs
      → All (λ f. All P f.solutions) gs
  Sorts-All P none_left a = tt
  Sorts-All P (sorts p sorted e h) (a, as') = (All-perm P p a, Sorts-All P h as')

  Sorts-below :
      (n : ℕ) {fs gs : List (ParetoFront Real State (Resources Real))}
      → Sorts fs gs
      → All (λ f. f.steps_per_iteration < n) fs
      → All (λ f. f.steps_per_iteration < n) gs
  Sorts-below n none_left a = tt
  Sorts-below n (sorts p sorted e h) (a, as') = (rw e a, Sorts-below n h as')

  Sorts-IsFalling :
      {fs gs : List (ParetoFront Real State (Resources Real))}
      → Sorts fs gs
      → IsFalling fs
      → IsFalling gs
  Sorts-IsFalling none_left a = tt
  Sorts-IsFalling (sorts p sorted e h) (a, as') = (rw e (Sorts-below _ h a), Sorts-IsFalling h as')

  pub Sorts-IsSearched :
      {Mode Timespec : Type ℓ} (m : Manager Real State Mode (Resources Real) Timespec)
      {fs gs : List (ParetoFront Real State (Resources Real))}
      → Sorts fs gs
      → IsSearched m (record { pareto_fronts = fs })
      → IsSearched m (record { pareto_fronts = gs })
  Sorts-IsSearched m h (kept, falling) = (keeps h kept, Sorts-IsFalling h falling)
    where
      keeps :
          {fs gs : List (ParetoFront Real State (Resources Real))}
          → Sorts fs gs
          → All (IsKept m) fs
          → All (IsKept m) gs
      keeps none_left a = tt
      keeps (sorts p sorted e h) (((complete, antichain), some_left), as') = (
        (
          (All-perm _ p complete, Antichain-perm m.is_strictly_better_than p antichain),
          sym (is_empty-perm p) ∙ some_left,
        ),
        keeps h as',
      )

  pub sort_fronts-Sorts :
      ⦃alg : Algorithms (Solution Real State (Resources Real))⦄
      → IsStandard (Solution Real State (Resources Real))
      → (fs : List (ParetoFront Real State (Resources Real))) → Ensures (Sorts fs) (sort_fronts fs)
  unfolding sort_fronts
  sort_fronts-Sorts std [] = none_left
  sort_fronts-Sorts ⦃alg⦄ std (f ∷ fs) =
      elim (Bool-cases (strict_weak_on compare_ascending f.solutions)) [
        | inr bad ↦ rw bad tt
        | inl good ↦ rw good (
            >>=-Ensures _ _ (sort_fronts fs) _ (sort_fronts-Sorts std fs) λ gs h.
              sorts (symm (std.sort-perm compare_ascending f.solutions good))
                (std.sort-IsSorted compare_ascending f.solutions good) refl h)
      ]

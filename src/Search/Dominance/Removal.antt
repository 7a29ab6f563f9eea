-- ===== src/Search/Dominance/Removal.antt =====
-- What the three removals of search/common.hpp return.
use mathlib.Core.List.{Memᴰ}
use mathlib.Core.List.Permᴰ.{symm}
use flexman.Base.{
  ◌≡◌, ◌∙◌, ap, refl, ◌↔◌, Bool, true, false, some, List, [], ◌∷◌, All, All-remove_if, any_of,
  remove_if, ok, Returns, Ensures, Bool-cases, inl, inr, mem-remove_if, remove_if-mem, any_of-false,
  All-any_of, arith,
}
use flexman.Double.{Consumable}
use flexman.Core.Solution.{Solution, solution_eq, solution_lt}
use flexman.Core.Manager.{Manager}
use flexman.Search.Algorithms.{Algorithms, IsStandard, strict_weak_on}
use flexman.Search.Extension.{SearchAlgorithm}
use flexman.Search.Dominance.{
  better, remove_dominated_by, remove_dominated_solutions, remove_duplicate_solutions, unique,
  is_comparable,
}
use flexman.Search.Dominance.Laws.{
  Antichain, undominated, undominated-Antichain, All-undominated, gather-keep_indices,
  undominated-remove_if,
}
use flexman.Search.Dominance.Cover.{Covers, undominated-Covers}
use flexman.Search.Dominance.Duplicates.{
  All-perm, mem-perm, Antichain-perm, All-unique, Antichain-unique, Represents, unique-Represents,
}

module _ {ℓ} {Real State Mode Resources Timespec : Type ℓ} (algorithm : SearchAlgorithm)
    (m : Manager Real State Mode Resources Timespec) where
  pub remove_dominated_solutions-undominated :
      (xs : List (Solution Real State Resources))
      → remove_dominated_solutions algorithm (some m) xs
        ≡ ok (undominated (better algorithm m) [] xs)
  unfolding remove_dominated_solutions undominated
  remove_dominated_solutions-undominated [] = refl
  remove_dominated_solutions-undominated (x ∷ xs) =
      gather-keep_indices (better algorithm m) (x ∷ xs) [] (x ∷ xs) 0 refl refl

  pub remove_dominated_solutions-Ensures :
      (P : Solution Real State Resources → Type 0) (xs : List (Solution Real State Resources))
      → All P xs
      → Ensures
          (λ ys. All P ys × Antichain (better algorithm m) ys)
          (remove_dominated_solutions algorithm (some m) xs)
  remove_dominated_solutions-Ensures P xs h = rw (remove_dominated_solutions-undominated xs) (
    All-undominated (better algorithm m) P [] xs h,
    undominated-Antichain (better algorithm m) [] xs,
  )

  -- With a manager, the one-vector `remove_dominated_solutions` returns, and by the comparison of
  -- its algorithm no solution that it keeps is better than another one that it keeps.
  pub remove_dominated_solutions-Antichain :
      (xs : List (Solution Real State Resources))
      → Returns (Antichain (better algorithm m)) (remove_dominated_solutions algorithm (some m) xs)
  remove_dominated_solutions-Antichain xs = (
    undominated (better algorithm m) [] xs,
    remove_dominated_solutions-undominated xs,
    undominated-Antichain (better algorithm m) [] xs,
  )

  pub remove_dominated_by-Ensures :
      (P : Solution Real State Resources → Type 0)
      → (same : Bool) (xs against : List (Solution Real State Resources)) → All P xs
      → Ensures (All P) (remove_dominated_by algorithm (some m) same xs against)
  unfolding remove_dominated_by
  remove_dominated_by-Ensures P true xs against h = tt
  remove_dominated_by-Ensures P false xs [] h = h
  remove_dominated_by-Ensures P false xs (b ∷ bs) h =
      All-remove_if P (λ s. any_of (λ other. better algorithm m other s) (b ∷ bs)) xs h

  -- If the comparison is irreflexive and transitive, the one-vector `remove_dominated_solutions`
  -- loses nothing: each solution of the vector is kept, or a kept one is better.
  pub remove_dominated_solutions-Covers :
      ((x : Solution Real State Resources) → better algorithm m x x ≡ false)
      → ((x y z : Solution Real State Resources)
          → better algorithm m x y ≡ true
          → better algorithm m y z ≡ true
          → better algorithm m x z ≡ true)
      → (xs : List (Solution Real State Resources))
      → Returns
          (λ ys. (a : Solution Real State Resources) → Memᴰ a xs → Covers (better algorithm m) ys a)
          (remove_dominated_solutions algorithm (some m) xs)
  remove_dominated_solutions-Covers irr trans xs = (
    undominated (better algorithm m) [] xs,
    remove_dominated_solutions-undominated xs,
    undominated-Covers (better algorithm m) irr trans xs,
  )

  -- If the comparison is irreflexive, the one-vector `remove_dominated_solutions` gives, with the
  -- order kept, what the two-vector one gives for the vector and a copy of it.
  pub remove_dominated_solutions-remove_dominated_by :
      ((x : Solution Real State Resources) → better algorithm m x x ≡ false)
      → (xs : List (Solution Real State Resources))
      → remove_dominated_solutions algorithm (some m) xs
        ≡ remove_dominated_by algorithm (some m) false xs xs
  unfolding remove_dominated_by undominated
  remove_dominated_solutions-remove_dominated_by irr [] = remove_dominated_solutions-undominated []
  remove_dominated_solutions-remove_dominated_by irr (x ∷ xs) =
      remove_dominated_solutions-undominated (x ∷ xs)
      ∙ ap ok (undominated-remove_if (better algorithm m) irr (x ∷ xs) [] (x ∷ xs) refl)

  -- The two-vector `remove_dominated_solutions`, with a manager and two different vectors, returns
  -- just those solutions of the first for which no solution of the second is better.
  pub remove_dominated_by_iff :
      (xs against : List (Solution Real State Resources))
      → Returns
          (λ ys.
            (a : Solution Real State Resources)
            → Memᴰ a ys ↔ (Memᴰ a xs × All (λ b. better algorithm m b a ≡ false) against))
          (remove_dominated_by algorithm (some m) false xs against)
  unfolding remove_dominated_by
  remove_dominated_by_iff xs [] = (xs, refl, λ a. (λ h. (h, tt), λ h. h.0))
  remove_dominated_by_iff xs (b ∷ bs) = (
    remove_if (λ s. any_of (λ other. better algorithm m other s) (b ∷ bs)) xs,
    refl,
    λ a. (
      λ h. let (k, e) = remove_if-mem _ xs h in (k, any_of-false _ (b ∷ bs) e),
      λ h. mem-remove_if _ xs (All-any_of _ (b ∷ bs) h.1) h.0,
    ),
  )

module _ {ℓ} {Real State Resources : Type ℓ} ⦃c : Consumable Resources⦄ where
  is_comparable-sorts :
      (xs : List (Solution Real State Resources))
      → is_comparable xs ≡ true
      → strict_weak_on solution_lt xs ≡ true
  is_comparable-sorts xs h = ground arith

module _ {ℓ} {Real State Resources : Type ℓ} ⦃c : Consumable Resources⦄
    ⦃alg : Algorithms (Solution Real State Resources)⦄
    (std : IsStandard (Solution Real State Resources)) where
  -- With `std::sort` as C++ promises it: what `remove_duplicate_solutions` returns, if it
  -- returns, has every property that all solutions of the vector have, and is an antichain if the
  -- vector is one.
  pub remove_duplicate_solutions-Ensures :
      (beats : Solution Real State Resources → Solution Real State Resources → Bool)
      → (P : Solution Real State Resources → Type 0) → (xs : List (Solution Real State Resources))
      → All P xs
      → Antichain beats xs
      → Ensures (λ ys. All P ys × Antichain beats ys) (remove_duplicate_solutions xs)
  unfolding remove_duplicate_solutions
  remove_duplicate_solutions-Ensures beats P xs h a = elim (Bool-cases (is_comparable xs)) [
    | inl e ↦
        let p = symm (std.sort-perm solution_lt xs (is_comparable-sorts xs e)) in
        rw e (
          All-unique solution_eq P _ (All-perm P p h),
          Antichain-unique solution_eq beats _ (Antichain-perm beats p a),
        )
    | inr e ↦ rw e tt
  ]

  -- With `std::sort` as C++ promises it: if on the vector `operator<` is a strict weak order
  -- and `operator==` an equivalence relation, `remove_duplicate_solutions` returns, and each solution
  -- of the vector is kept, or is `==` to one that is kept.
  pub remove_duplicate_solutions-Represents :
      (xs : List (Solution Real State Resources))
      → is_comparable xs ≡ true
      → Returns
          (λ ys. (a : Solution Real State Resources) → Memᴰ a xs → Represents solution_eq ys a)
          (remove_duplicate_solutions xs)
  unfolding remove_duplicate_solutions
  remove_duplicate_solutions-Represents xs e = (
    unique solution_eq (alg.sort solution_lt xs),
    rw e refl,
    λ a m.
        unique-Represents solution_eq _ a
          (mem-perm (symm (std.sort-perm solution_lt xs (is_comparable-sorts xs e))) m),
  )

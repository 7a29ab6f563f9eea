-- ===== src/Search/Algorithms.antt =====
-- `std::sort` and `std::partition` of <algorithm>, and what `std::sort` and `std::unique` ask for. C++ leaves the order of equivalent elements open,
-- so both are parameters, and `IsStandard` states what the standard promises of them.
pub mod Insertion
use mathlib.Core.List.{Permᴰ}
use flexman.Base.{◌≡◌, Bool, true, false, not, ◌&&◌, ◌||◌, List, [], ◌∷◌, ◌++◌, All}

pub record Algorithms {ℓ} (A : Type ℓ) : Type ℓ where
  pub sort : (A → A → Bool) → List A → List A
  -- The ranges `[begin, it)` and `[it, end)`.
  pub partition : (A → Bool) → List A → List A × List A

abbrev pub implies : Bool → Bool → Bool
implies a b = not a || b

module _ {ℓ} {A : Type ℓ} where
  abbrev pub all_of : (A → Bool) → List A → Bool
  all_of p [] = true
  all_of p (x ∷ xs) = p x && all_of p xs

  abbrev pub equivalent : (A → A → Bool) → A → A → Bool
  equivalent lt x y = not (lt x y) && not (lt y x)

  -- The precondition of `std::sort`: on the range, the comparison is a strict weak order.
  unfoldable pub strict_weak_on : (A → A → Bool) → List A → Bool
  strict_weak_on lt xs =
      all_of (λ x. not (lt x x)) xs
      && all_of
          (λ x.
            all_of
              (λ y.
                all_of
                  (λ z.
                    implies (lt x y && lt y z) (lt x z)
                    && implies (equivalent lt x y && equivalent lt y z) (equivalent lt x z))
                  xs)
              xs)
          xs

  -- The precondition of `std::unique`: on the range, the comparison is an equivalence relation.
  unfoldable pub equivalence_on : (A → A → Bool) → List A → Bool
  equivalence_on eq xs =
      all_of (λ x. eq x x) xs
      && all_of
          (λ x.
            all_of
              (λ y.
                all_of (λ z. implies (eq x y) (eq y x) && implies (eq x y && eq y z) (eq x z)) xs)
              xs)
          xs

  -- No later element comes before an earlier one.
  abbrev pub IsSorted : (A → A → Bool) → List A → Type 0
  IsSorted lt [] = Unit
  IsSorted lt (x ∷ xs) = All (λ y. lt y x ≡ false) xs × IsSorted lt xs

pub record IsStandard {ℓ} (A : Type ℓ) ⦃alg : Algorithms A⦄ : Type ℓ where
  pub sort-perm :
      (lt : A → A → Bool) (xs : List A) → strict_weak_on lt xs ≡ true → Permᴰ (alg.sort lt xs) xs
  pub sort-IsSorted :
      (lt : A → A → Bool) (xs : List A) → strict_weak_on lt xs ≡ true → IsSorted lt (alg.sort lt xs)
  pub partition-perm :
      (p : A → Bool) (xs : List A) → Permᴰ ((alg.partition p xs).0 ++ (alg.partition p xs).1) xs
  pub partition_first : (p : A → Bool) (xs : List A) → All (λ x. p x ≡ true) (alg.partition p xs).0
  pub partition_second :
      (p : A → Bool) (xs : List A) → All (λ x. p x ≡ false) (alg.partition p xs).1

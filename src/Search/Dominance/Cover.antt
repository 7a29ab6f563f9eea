-- ===== src/Search/Dominance/Cover.antt =====
-- Nothing is lost: if beating is a strict order, what `remove_dominated_solutions` removes is beaten
-- by something that it keeps.
use mathlib.Core.List.{Memᴰ}
use flexman.Base.{
  ℕ, zero, suc, ◌<◌, ◌≡◌, refl, sym, subst, ◌⊎◌, inl, inr, Bool, true, false, List, [], Some,
  any_of-true, mem-remove_if, count_if, count_if-lt, remove_if, Bool-cases, arith,
}
use flexman.Search.Dominance.Laws.{beaten, undominated, undominated-remove_if}

module _ {ℓ} {A : Type ℓ} (beats : A → A → Bool) where
  -- Some element of the list is `a` or beats `a`.
  abbrev pub Covers : List A → A → Type ℓ
  Covers ys a = Some (λ b. (b ≡ a) ⊎ (beats b a ≡ true)) ys

  module _ (irr : (x : A) → beats x x ≡ false)
      (trans : (x y z : A) → beats x y ≡ true → beats y z ≡ true → beats x z ≡ true) where
    cover_below :
        (n : ℕ) (all : List A) (a : A)
        → Memᴰ a all
        → count_if (λ y. beats y a) all < n
        → Covers (remove_if (beaten beats all) all) a
    cover_below zero all a m h = absurd (omega arith)
    cover_below (suc n) all a m h = elim (Bool-cases (beaten beats all a)) [
      | inr e ↦ (a, mem-remove_if (beaten beats all) all e m, inl refl)
      | inl e ↦
          let (b, mb, eb) = any_of-true (λ y. beats y a) all e in
          let fewer =
            count_if-lt (λ y. beats y b) (λ y. beats y a) all (λ y t. trans y b a t eb) mb (irr b)
              eb in
          let (c, mc, d) = cover_below n all b mb (omega arith) in
          (
            c,
            mc,
            inr (elim d [
              | inl e' ↦ subst (λ x. beats x a ≡ true) (sym e') eb
              | inr t ↦ trans c b a t eb
            ]),
          )
    ]

    pub undominated-Covers :
        (all : List A) (a : A) → Memᴰ a all → Covers (undominated beats [] all) a
    undominated-Covers all a m =
        rw (undominated-remove_if beats irr all [] all refl)
          (cover_below (suc (count_if (λ y. beats y a) all)) all a m (omega arith))

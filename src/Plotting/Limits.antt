-- ===== src/Plotting/Limits.antt =====
-- The axis limits of a plot: every point of it is inside.
use mathlib.Core.List.{Memᴰ}
use mathlib.Core.List.Memᴰ.{head, tail}
use flexman.Base.{
  ℕ, ◌≡◌, sym, subst, true, false, if◌then◌else◌, List, [], ◌∷◌, Bool-cases, inl, inr,
}
use flexman.Double.{Double, ◌⊕◌, ◌⊖◌, ◌⊗◌, ◌≺◌, ◌≼◌}
use flexman.Core.Solution.{Solution, ParetoFront, Result}
use flexman.Tapping.{Tolerant, Resources}
use flexman.Plotting.{
  Roundable, Range, include, include_solutions, include_fronts, widen, add_margin, no_range,
  compute_global_limits,
}

-- What the limits rely on: `≤` is an order that `<` decides, and an operation on numbers that are not
-- negative has no negative result, also when it is rounded.
pub record IsMonotone {ℓ} (Real : Type ℓ) ⦃d : Double Real⦄ : Type ℓ where
  pub le_refl : (a : Real) → a ≼ a ≡ true
  pub le_trans : (a b c : Real) → a ≼ b ≡ true → b ≼ c ≡ true → a ≼ c ≡ true
  pub le_of_lt : (a b : Real) → a ≺ b ≡ true → a ≼ b ≡ true
  pub le_of_not_lt : (a b : Real) → a ≺ b ≡ false → b ≼ a ≡ true
  pub whole : (n : ℕ) → d.of_ℕ 0 ≼ d.of_ℕ n ≡ true
  pub abs_nonneg : (a : Real) → d.of_ℕ 0 ≼ d.abs a ≡ true
  pub mul_nonneg :
      (a b : Real) → d.of_ℕ 0 ≼ a ≡ true → d.of_ℕ 0 ≼ b ≡ true → d.of_ℕ 0 ≼ a ⊗ b ≡ true
  pub sub_nonneg : (a b : Real) → a ≼ b ≡ true → d.of_ℕ 0 ≼ b ⊖ a ≡ true
  pub sub_le : (a b : Real) → d.of_ℕ 0 ≼ b ≡ true → a ⊖ b ≼ a ≡ true
  pub le_add : (a b : Real) → d.of_ℕ 0 ≼ b ≡ true → a ≼ a ⊕ b ≡ true

module _ {ℓ} {Real : Type ℓ} ⦃d : Double Real⦄ where
  -- The number lies between the ends.
  abbrev pub Within : Real → Range Real → Type 0
  Within a r = (r.lower ≼ a ≡ true) × (a ≼ r.upper ≡ true)

  -- The point of a solution lies between the ends of both axes.
  abbrev pub Shows :
      {State : Type ℓ} → Range Real × Range Real → Solution Real State (Resources Real) → Type 0
  Shows (x, y) s = Within s.resources.time x × Within s.resources.energy y

  module _ ⦃o : Roundable Real⦄ (laws : IsMonotone Real) where
    include-Within : (r : Range Real) (a : Real) → Within a (include r a)
    unfolding include
    include-Within r a = (lower, upper)
      where
        lower : (if a ≺ r.lower then a else r.lower) ≼ a ≡ true
        lower = elim (Bool-cases (a ≺ r.lower)) [
          | inl e ↦ rw e (laws.le_refl a)
          | inr e ↦ rw e (laws.le_of_not_lt a r.lower e)
        ]

        upper : a ≼ (if r.upper ≺ a then a else r.upper) ≡ true
        upper = elim (Bool-cases (r.upper ≺ a)) [
          | inl e ↦ rw e (laws.le_refl a)
          | inr e ↦ rw e (laws.le_of_not_lt r.upper a e)
        ]

    include-keeps : (r : Range Real) (a b : Real) → Within b r → Within b (include r a)
    unfolding include
    include-keeps r a b (low, high) = (lower, upper)
      where
        lower : (if a ≺ r.lower then a else r.lower) ≼ b ≡ true
        lower = elim (Bool-cases (a ≺ r.lower)) [
          | inl e ↦ rw e (laws.le_trans a r.lower b (laws.le_of_lt a r.lower e) low)
          | inr e ↦ rw e low
        ]

        upper : b ≼ (if r.upper ≺ a then a else r.upper) ≡ true
        upper = elim (Bool-cases (r.upper ≺ a)) [
          | inl e ↦ rw e (laws.le_trans b r.upper a high (laws.le_of_lt r.upper a e))
          | inr e ↦ rw e high
        ]

    module _ {State : Type ℓ} where
      include_solutions-keeps :
          (limits : Range Real × Range Real) (ss : List (Solution Real State (Resources Real)))
          (s : Solution Real State (Resources Real))
          → Shows limits s
          → Shows (include_solutions limits ss) s
      unfolding include_solutions
      include_solutions-keeps limits [] s h = h
      include_solutions-keeps (x, y) (u ∷ ss) s (h, k) =
          include_solutions-keeps (include x u.resources.time, include y u.resources.energy) ss s
            (include-keeps x _ _ h, include-keeps y _ _ k)

      include_solutions-Shows :
          (limits : Range Real × Range Real) (ss : List (Solution Real State (Resources Real)))
          (s : Solution Real State (Resources Real))
          → Memᴰ s ss
          → Shows (include_solutions limits ss) s
      unfolding include_solutions
      include_solutions-Shows limits [] s m = elim m [ ]
      include_solutions-Shows (x, y) (u ∷ ss) s (head e) =
          subst (Shows (include_solutions (x, y) (u ∷ ss))) (sym e) (
            include_solutions-keeps (include x u.resources.time, include y u.resources.energy) ss u
              (include-Within x u.resources.time, include-Within y u.resources.energy))
      include_solutions-Shows (x, y) (u ∷ ss) s (tail m) =
          include_solutions-Shows (include x u.resources.time, include y u.resources.energy) ss s m

      include_fronts-keeps :
          (limits : Range Real × Range Real) (fs : List (ParetoFront Real State (Resources Real)))
          (s : Solution Real State (Resources Real))
          → Shows limits s
          → Shows (include_fronts limits fs) s
      unfolding include_fronts
      include_fronts-keeps limits [] s h = h
      include_fronts-keeps limits (f ∷ fs) s h =
          include_fronts-keeps (include_solutions limits f.solutions) fs s
            (include_solutions-keeps limits f.solutions s h)

      include_fronts-Shows :
          (limits : Range Real × Range Real) (fs : List (ParetoFront Real State (Resources Real)))
          (f : ParetoFront Real State (Resources Real)) (s : Solution Real State (Resources Real))
          → Memᴰ f fs
          → Memᴰ s f.solutions
          → Shows (include_fronts limits fs) s
      unfolding include_fronts
      include_fronts-Shows limits [] f s m k = elim m [ ]
      include_fronts-Shows limits (g ∷ fs) f s (head e) k =
          include_fronts-keeps (include_solutions limits g.solutions) fs s
            (include_solutions-Shows limits g.solutions s (subst (λ h. Memᴰ s h.solutions) e k))
      include_fronts-Shows limits (g ∷ fs) f s (tail m) k =
          include_fronts-Shows (include_solutions limits g.solutions) fs f s m k

    module _ ⦃t : Tolerant Real⦄ (margin_fraction : Real)
        (positive : d.of_ℕ 0 ≼ margin_fraction ≡ true) where
      stretch-Within :
          (r : Range Real) (margin a : Real)
          → d.of_ℕ 0 ≼ margin ≡ true
          → Within a r
          → Within a (record { lower = r.lower ⊖ margin; upper = r.upper ⊕ margin })
      stretch-Within r margin a h (low, high) = (
        laws.le_trans _ _ _ (laws.sub_le r.lower margin h) low,
        laws.le_trans _ _ _ high (laws.le_add r.upper margin h),
      )

      widen-Within : (r : Range Real) (a : Real) → Within a r → Within a (widen margin_fraction r)
      unfolding widen
      widen-Within r a h = elim (Bool-cases (t.approximately_equal r.lower r.upper)) [
        | inr e ↦ rw e h
        | inl e ↦ elim (Bool-cases (o.approximately_equal_to_zero r.lower)) [
          | inl z ↦ rw (e, z) (stretch-Within r (d.of_ℕ 1) a (laws.whole 1) h)
          | inr z ↦
              rw (e, z)
                (stretch-Within r (d.abs r.lower ⊗ margin_fraction) a
                  (laws.mul_nonneg _ _ (laws.abs_nonneg r.lower) positive) h)
        ]
      ]

      add_margin-Within :
          (r : Range Real) (a : Real) → Within a r → Within a (add_margin margin_fraction r)
      unfolding add_margin
      add_margin-Within r a (low, high) =
          stretch-Within r ((r.upper ⊖ r.lower) ⊗ margin_fraction) a
            (laws.mul_nonneg _ _ (laws.sub_nonneg r.lower r.upper (laws.le_trans _ _ _ low high))
              positive)
            (low, high)

      -- If the numbers are ordered, their operations do not turn signs, and the margin is not
      -- negative: then every solution of every front of a result lies, with its time and its energy,
      -- within the limits that `compute_global_limits` gives.
      pub compute_global_limits-Shows :
          {State : Type ℓ} (results : Result Real State (Resources Real))
          (f : ParetoFront Real State (Resources Real)) (s : Solution Real State (Resources Real))
          → Memᴰ f results.pareto_fronts
          → Memᴰ s f.solutions
          → Shows (compute_global_limits results margin_fraction) s
      unfolding compute_global_limits
      compute_global_limits-Shows results f s m k =
          let (h, l) = include_fronts-Shows (no_range, no_range) results.pareto_fronts f s m k in
          let (x, y) = include_fronts (no_range, no_range) results.pareto_fronts in
          (
            add_margin-Within (widen margin_fraction x) _ (widen-Within x _ h),
            add_margin-Within (widen margin_fraction y) _ (widen-Within y _ l),
          )

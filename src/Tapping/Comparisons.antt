-- ===== src/Tapping/Comparisons.antt =====
-- The comparisons of the tapping example, as the search uses them.
use flexman.Base.{◌≡◌, Bool, true, false, arith}
use flexman.Double.{Double, ◌≺◌, ◌≼◌}
use flexman.Core.Solution.{Solution}
use flexman.Search.Extension.{SearchAlgorithm, exhaustive, heuristic, single_machine}
use flexman.Search.Dominance.{better}
use flexman.Tapping.{
  Tolerant, Indexed, Linear, Resources, distance, resources_le, resources_ne, resources_lt,
  is_strictly_better_than, is_probably_better_than, discrete_search,
}

module _ {ℓ} {Real Vector : Type ℓ} ⦃d : Double Real⦄ ⦃t : Tolerant Real⦄ ⦃v : Indexed Real Vector⦄
    (lesser_antisym : (a b : Real)
      → t.approximately_lesser_than_equal a b ≡ true
      → t.approximately_lesser_than_equal b a ≡ true
      → t.approximately_equal a b ≡ true) where
  strictly-asymmetric :
      (target_state : Vector) (threshold : Real) (x y : Solution Real Vector (Resources Real))
      → is_strictly_better_than target_state threshold x y ≡ true
      → is_strictly_better_than target_state threshold y x ≡ false
  unfolding is_strictly_better_than resources_le resources_ne
  strictly-asymmetric target_state threshold x y h =
      ground (arith, lesser_antisym x.resources.energy y.resources.energy)

  module _ (lt_asymm : (a b : Real) → (a ≺ b) ≡ true → (b ≺ a) ≡ false)
      (lt_not_le : (a b : Real) → (a ≺ b) ≡ true → (b ≼ a) ≡ false) where
    probably-asymmetric :
        (target_state : Vector) (x y : Solution Real Vector (Resources Real))
        → is_probably_better_than target_state x y ≡ true
        → is_probably_better_than target_state y x ≡ false
    unfolding is_probably_better_than resources_le resources_lt
    probably-asymmetric target_state x y h = ground (
      arith,
      lesser_antisym x.resources.energy y.resources.energy,
      lesser_antisym y.resources.energy x.resources.energy,
      lt_asymm x.resources.time y.resources.time,
      lt_not_le (distance target_state x) (distance target_state y),
      lt_not_le (distance target_state y) (distance target_state x),
    )

    -- If the tolerant `<=` is antisymmetric up to the tolerant equality, `<` of numbers is
    -- asymmetric, and `<` and the reverse `<=` exclude each other, then whatever the algorithm
    -- compares by, no two solutions of the discrete search are better than each other.
    pub better-asymmetric :
        (System : Type ℓ) {Timespec : Type ℓ} ⦃lin : Linear Vector System⦄
        → (initial_state target_state : Vector) (time_delta time_max threshold : Real)
        → (timeout : Timespec) (interactive : Bool) (algorithm : SearchAlgorithm)
        → (x y : Solution Real Vector (Resources Real))
        → better algorithm
            (discrete_search {System = System} initial_state target_state time_delta time_max
              threshold timeout interactive)
            x
            y
          ≡ true
        → better algorithm
            (discrete_search {System = System} initial_state target_state time_delta time_max
              threshold timeout interactive)
            y
            x
          ≡ false
    better-asymmetric System i target_state delta max threshold o n exhaustive x y =
        strictly-asymmetric target_state threshold x y
    better-asymmetric System i target_state delta max threshold o n single_machine x y =
        strictly-asymmetric target_state threshold x y
    better-asymmetric System i target_state delta max threshold o n heuristic x y =
        probably-asymmetric target_state x y

-- ===== src/Plotting.antt =====
-- examples/tapping/plotting.hpp: the data and the axis limits of the plots.
pub mod Limits
pub mod Calls
use flexman.Base.{ℕ, Bool, not, if◌then◌else◌, List, [], ◌∷◌}
use flexman.Double.{Double, ◌⊕◌, ◌⊖◌, ◌⊗◌, ◌⊘◌, ◌≺◌, max_of}
use flexman.Core.Solution.{Solution, ParetoFront, Result}
use flexman.Tapping.{Tolerant, Indexed, Resources}

-- `std::numeric_limits<double>::lowest()`, `std::round` and `fsmlib::feq::approximately_equal_to_zero`.
pub record Roundable {ℓ} (Real : Type ℓ) : Type ℓ where
  pub lowest : Real
  pub round : Real → Real
  pub approximately_equal_to_zero : Real → Bool

-- The two numbers of an axis, `x_min` and `x_max` or `y_min` and `y_max`.
pub record Range {ℓ} (Real : Type ℓ) : Type ℓ where
  pub lower : Real
  pub upper : Real

module _ {ℓ} {Real State : Type ℓ} where
  unfoldable pub extract_time_energy :
      List (Solution Real State (Resources Real)) → List Real × List Real
  extract_time_energy [] = ([], [])
  extract_time_energy (s ∷ ss) =
      let (time, energy) = extract_time_energy ss in
      (s.resources.time ∷ time, s.resources.energy ∷ energy)

  unfoldable pub extract_time_depth :
      ⦃v : Indexed Real State⦄ → List (Solution Real State (Resources Real)) → List Real × List Real
  extract_time_depth [] = ([], [])
  extract_time_depth ⦃v⦄ (s ∷ ss) =
      let (time, depth) = extract_time_depth ss in (s.resources.time ∷ time, v.at s.state 2 ∷ depth)

module _ {ℓ} {Real : Type ℓ} ⦃d : Double Real⦄ ⦃o : Roundable Real⦄ where
  unfoldable pub round_to_multiple : (value multiple : Real) → Real
  round_to_multiple value multiple =
      if o.approximately_equal_to_zero multiple
      then value
      else o.round (value ⊘ multiple) ⊗ multiple

  -- `std::min(a, b)`
  abbrev pub min_of : Real → Real → Real
  min_of a b = if b ≺ a then b else a

  abbrev pub no_range : Range Real
  no_range = record { lower = d.highest; upper = o.lowest }

  unfoldable pub include : Range Real → Real → Range Real
  include r value = record { lower = min_of r.lower value; upper = max_of r.upper value }

  -- The inner loop, and the outer one.
  unfoldable pub include_solutions :
      {State : Type ℓ}
      → Range Real × Range Real
      → List (Solution Real State (Resources Real))
      → Range Real × Range Real
  include_solutions limits [] = limits
  include_solutions (x, y) (s ∷ ss) =
      include_solutions (include x s.resources.time, include y s.resources.energy) ss

  unfoldable pub include_fronts :
      {State : Type ℓ}
      → Range Real × Range Real
      → List (ParetoFront Real State (Resources Real))
      → Range Real × Range Real
  include_fronts limits [] = limits
  include_fronts limits (f ∷ fs) = include_fronts (include_solutions limits f.solutions) fs

  module _ ⦃t : Tolerant Real⦄ where
    -- The case of an axis on which all points are the same.
    unfoldable pub widen : (margin_fraction : Real) → Range Real → Range Real
    widen margin_fraction r =
        let margin =
          if not (o.approximately_equal_to_zero r.lower)
          then d.abs r.lower ⊗ margin_fraction
          else d.of_ℕ 1 in
        if t.approximately_equal r.lower r.upper
        then (record { lower = r.lower ⊖ margin; upper = r.upper ⊕ margin })
        else r

    unfoldable pub add_margin : (margin_fraction : Real) → Range Real → Range Real
    add_margin margin_fraction r =
        let margin = (r.upper ⊖ r.lower) ⊗ margin_fraction in
        record { lower = r.lower ⊖ margin; upper = r.upper ⊕ margin }

    unfoldable pub compute_global_limits :
        {State : Type ℓ}
        → Result Real State (Resources Real)
        → (margin_fraction : Real) → Range Real × Range Real
    compute_global_limits results margin_fraction =
        let (x, y) = include_fronts (no_range, no_range) results.pareto_fronts in
        (
          add_margin margin_fraction (widen margin_fraction x),
          add_margin margin_fraction (widen margin_fraction y),
        )

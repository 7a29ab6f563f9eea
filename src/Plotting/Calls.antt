-- ===== src/Plotting/Calls.antt =====
-- examples/tapping/plotting.hpp: the calls that the two functions make of gnuplot's library, in their
-- order, with their arguments.
use Prim.Native.String.{String}
use mathlib.Core.List.{Memᴰ}
use flexman.Base.{ℕ, ◌≡◌, Bool, true, List, [], ◌∷◌, ◌++◌, All, Option, none, some, map}
use flexman.Double.{Double}
use flexman.Core.Solution.{Solution, ParetoFront, Result}
use flexman.Simulation.{Simulation}
use flexman.Stream.{
  Text, Printable, new_stream, ◌<<◌, setw, setprecision, fixed, right, put, put_double,
}
use flexman.Tapping.{Tolerant, Indexed, Resources}
use flexman.Tapping.Systems.{Literals}
use flexman.Plotting.{
  Roundable, Range, extract_time_energy, extract_time_depth, compute_global_limits,
}
use flexman.Plotting.Limits.{Shows}

pub data Call {ℓ} (Real : Type ℓ) : Type ℓ where
  set_terminal : (terminal : String) → Call Real
  set_xtics_minor : ℕ → Call Real
  set_ytics_minor : ℕ → Call Real
  set_grid_line_type : (grid line color : String) (width : Real) → Call Real
  apply_grid : (tics layer : String) → Call Real
  set_xrange : (lower upper : Real) → Call Real
  set_yrange : (lower upper : Real) → Call Real
  set_xlabel : String → Call Real
  set_ylabel : String → Call Real
  set_legend : (place options title : String) (box : Bool) (spacing width : Real) → Call Real
  -- `plot_xy(x, y, name).set_plot_type(plot_type).set_line_width(width)`
  plot_xy : (x y : List Real) (name : Text) (plot_type : String) (width : Real) → Call Real
  show : Call Real

-- `simulation_t`
pub record NamedSimulation {ℓ} (Real State : Type ℓ) : Type ℓ where
  pub simulation_data : Simulation Real State (Resources Real)
  pub name : Text

-- `none` is the `std::runtime_error`; `to_float` is `static_cast<float>`.
unfoldable pub color_to_rgb {ℓ} :
    {Real Float : Type ℓ} → (Real → Float) → List Real → Option (Float × Float × Float)
color_to_rgb to_float (red ∷ green ∷ blue ∷ []) = some (to_float red, to_float green, to_float blue)
color_to_rgb to_float _ = none

module _ {ℓ} {Real : Type ℓ} ⦃lit : Literals Real⦄ where
  -- The calls at the start, the same in both functions.
  unfoldable pub set_up : List (Call Real)
  set_up =
      set_terminal "wxt"
      ∷ set_xtics_minor 2
      ∷ set_ytics_minor 2
      ∷ set_grid_line_type "major" "solid" "black" (lit.decimal 5 1)
      ∷ set_grid_line_type "minor" "dashed" "black" (lit.decimal 25 2)
      ∷ apply_grid "xtics ytics mxtics mytics" "back"
      ∷ []

module _ {ℓ} {Real State : Type ℓ} ⦃d : Double Real⦄ ⦃lit : Literals Real⦄ where
  module _ ⦃p : Printable Real⦄ where
    unfoldable pub build_plot_name : ParetoFront Real State (Resources Real) → Text
    build_plot_name pareto =
        (new_stream
          << setprecision 2
          << fixed
          << put "Pareto ["
          << right
          << setw 6
          << put_double pareto.step_length
          << put "]").text

    -- The body of the loop over the fronts.
    unfoldable pub plot_front : ParetoFront Real State (Resources Real) → Call Real
    plot_front pareto =
        let (time, energy) = extract_time_energy pareto.solutions in
        plot_xy time energy (build_plot_name pareto) "steps" (lit.decimal 20 1)

    unfoldable pub plot_pareto_front :
        ⦃o : Roundable Real⦄
        → ⦃t : Tolerant Real⦄ → Result Real State (Resources Real)
        → List (Call Real)
    plot_pareto_front results =
        let (x_limits, y_limits) = compute_global_limits results (lit.decimal 1 1) in
        set_up
        ++ (set_xrange x_limits.lower x_limits.upper
            ∷ set_yrange y_limits.lower y_limits.upper
            ∷ set_xlabel "Time (s)"
            ∷ set_ylabel "Energy (W)"
            ∷ set_legend "top right" "" "Pareto Fronts" true (lit.decimal 10 1) (lit.decimal 20 1)
            ∷ [])
        ++ map plot_front results.pareto_fronts
        ++ (show ∷ [])

  unfoldable pub plot_simulation : ⦃v : Indexed Real State⦄ → NamedSimulation Real State → Call Real
  plot_simulation simulation =
      let (time, depth) = extract_time_depth simulation.simulation_data.evolution in
      plot_xy time depth simulation.name "steps" (lit.decimal 20 1)

  unfoldable pub plot_simulations :
      ⦃v : Indexed Real State⦄ → List (NamedSimulation Real State) → List (Call Real)
  plot_simulations simulations =
      set_up
      ++ (set_xlabel "Time (s)"
          ∷ set_ylabel "Depth (mm)"
          ∷ set_legend "top right" "" "Simulations" true (lit.decimal 10 1) (lit.decimal 20 1)
          ∷ [])
      ++ map plot_simulation simulations
      ++ (show ∷ [])

module _ {ℓ} {Real State : Type ℓ} ⦃d : Double Real⦄ where
  -- A call that sets the range of an axis sets it to these limits, and a call that plots takes the
  -- times and the energies of the solutions of one of the fronts, each within the limits.
  abbrev pub IsFramed :
      List (ParetoFront Real State (Resources Real)) → Range Real × Range Real → Call Real → Type ℓ
  IsFramed fronts (x, y) (set_xrange lower upper) = (lower ≡ x.lower) × (upper ≡ x.upper)
  IsFramed fronts (x, y) (set_yrange lower upper) = (lower ≡ y.lower) × (upper ≡ y.upper)
  IsFramed fronts limits (plot_xy xs ys name plot_type width) =
      (f : ParetoFront Real State (Resources Real)) × Memᴰ f fronts
      × (xs ≡ map (λ s. s.resources.time) f.solutions)
      × (ys ≡ map (λ s. s.resources.energy) f.solutions)
      × All (Shows limits) f.solutions
  IsFramed fronts limits call = Unit {ℓ}

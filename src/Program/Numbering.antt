-- ===== src/Program/Numbering.antt =====
-- The modes that the program builds: their numbers, and the gear factor of each.
use flexman.Base.{
  ℕ, zero, suc, ◌+◌, ◌≡◌, refl, sym, ap, ◌∙◌, some, List, [], ◌∷◌, length, get_elem?, arith,
}
use mathlib.Core.Path.{ap₂}
use flexman.Double.{Double}
use flexman.Core.Execution.{Mode}
use flexman.Search.Perform.SingleMachine.{IsNumbered}
use flexman.Tapping.{Tolerant}
use flexman.Tapping.Systems.{
  Literals, Control, Parameters, default_parameters, make_continuous_mode, make_discrete_mode,
}
use flexman.Program.{build_modes}
use flexman.Program.Execute.{Options, gear_factors, discrete_modes, continuous_modes}
use flexman.Program.Factors.{length-linspace}

-- The parameters with another gear ratio.
abbrev pub with_gear {ℓ} : {Real : Type ℓ} → Real → Parameters Real → Parameters Real
with_gear g p = record p { gr = g }

module _ {ℓ} {Real System Input : Type ℓ} (build : Parameters Real → ℕ → Mode System Input) where
  -- As many parameters and modes as factors, and at place `k` those of the k-th factor, the mode with
  -- number `i + k`.
  abbrev pub AreBuilt :
      ℕ → Parameters Real → List Real → List (Parameters Real) × List (Mode System Input) → Type ℓ
  AreBuilt i base gs (parameters, modes) =
      (length parameters ≡ length gs)
      × (length modes ≡ length gs)
      × ((k : ℕ) (g : Real)
          → get_elem? gs k ≡ some g
          → (get_elem? parameters k ≡ some (with_gear g base))
            × (get_elem? modes k ≡ some (build (with_gear g base) (i + k))))

  build_modes-AreBuilt :
      (i : ℕ) (base : Parameters Real) (gs : List Real)
      → AreBuilt i base gs (build_modes build i base gs)
  unfolding build_modes
  build_modes-AreBuilt i base [] = (refl, refl, λ k g e. cc)
  build_modes-AreBuilt i base (h ∷ gs) =
      let (same, sames, rest) = build_modes-AreBuilt (i + 1) (with_gear h base) gs in
      (ap suc same, ap suc sames, at rest)
    where
      at :
          ((k : ℕ) (g : Real)
            → get_elem? gs k ≡ some g
            → (get_elem? (build_modes build (i + 1) (with_gear h base) gs).0 k
                ≡ some (with_gear g base))
              × (get_elem? (build_modes build (i + 1) (with_gear h base) gs).1 k
                  ≡ some (build (with_gear g base) (i + 1 + k))))
          → (k : ℕ) (g : Real) → get_elem? (h ∷ gs) k ≡ some g
          → (get_elem? (build_modes build i base (h ∷ gs)).0 k ≡ some (with_gear g base))
            × (get_elem? (build_modes build i base (h ∷ gs)).1 k
                ≡ some (build (with_gear g base) (i + k)))
      at rest zero g e =
          let same : h ≡ g = cc in
          let here : i ≡ i + 0 = omega arith in
          (
            ap (λ x. some (with_gear x base)) same,
            ap₂ (λ x n. some (build (with_gear x base) n)) same here,
          )
      at rest (suc k) g e =
          let (parameters, mode) = rest k g e in
          let next : i + 1 + k ≡ i + suc k = omega arith in
          (parameters, mode ∙ ap (λ n. some (build (with_gear g base) n)) next)

  -- If `build` gives a mode the number it is told, then the modes have the numbers of their places.
  build_modes-IsNumbered :
      ((p : Parameters Real) (i : ℕ) → (build p i).id ≡ i)
      → (i : ℕ) (base : Parameters Real) (gs : List Real) → (k : ℕ) (mode : Mode System Input)
      → get_elem? (build_modes build i base gs).1 k ≡ some mode
      → mode.id ≡ i + k
  unfolding build_modes
  build_modes-IsNumbered h i base [] k mode e = cc
  build_modes-IsNumbered h i base (g ∷ gs) zero mode e =
      let same : build (with_gear g base) i ≡ mode = cc in
      let here : i ≡ i + 0 = omega arith in
      ap (λ x. x.id) (sym same) ∙ (h (with_gear g base) i ∙ here)
  build_modes-IsNumbered h i base (g ∷ gs) (suc k) mode e =
      let next : i + 1 + k ≡ i + suc k = omega arith in
      build_modes-IsNumbered h (i + 1) (with_gear g base) gs k mode e ∙ next

module _ {ℓ} {Real Vector Matrix : Type ℓ} ⦃d : Double Real⦄ ⦃t : Tolerant Real⦄
    ⦃lit : Literals Real⦄ ⦃ctl : Control Real Vector Matrix⦄ (options : Options Real) where
  pub discrete_modes-IsNumbered :
      IsNumbered {Input = Vector} (discrete_modes {Matrix = Matrix} options).1
  unfolding discrete_modes make_discrete_mode
  discrete_modes-IsNumbered k mode e =
      let start : 0 + k ≡ k = omega arith in
      build_modes-IsNumbered (λ p i. make_discrete_mode p i options.time_delta) (λ p i. refl) 0
        default_parameters (gear_factors options) k mode e
      ∙ start

  pub continuous_modes-IsNumbered :
      IsNumbered {Input = Vector} (continuous_modes {Matrix = Matrix} options).1
  unfolding continuous_modes make_continuous_mode
  continuous_modes-IsNumbered k mode e =
      let start : 0 + k ≡ k = omega arith in
      build_modes-IsNumbered make_continuous_mode (λ p i. refl) 0 default_parameters
        (gear_factors options) k mode e
      ∙ start

  -- With `--num_gear` gears, the discrete and the continuous search each have that many parameters
  -- and modes; and at each place stand the default parameters with the gear factor of that place,
  -- and the mode that is built of them, with the place as its number.
  pub discrete_modes-AreBuilt :
      (length (gear_factors options) ≡ options.num_gear)
      × AreBuilt
          (λ p i. make_discrete_mode p i options.time_delta)
          0
          default_parameters
          (gear_factors options)
          (discrete_modes {Vector = Vector} {Matrix = Matrix} options)
      × AreBuilt make_continuous_mode 0 default_parameters
          (gear_factors options)
          (continuous_modes {Vector = Vector} {Matrix = Matrix} options)
  unfolding gear_factors discrete_modes continuous_modes
  discrete_modes-AreBuilt = (
    length-linspace (d.of_ℕ options.max_gear) (d.of_ℕ options.min_gear) options.num_gear,
    build_modes-AreBuilt (λ p i. make_discrete_mode p i options.time_delta) 0 default_parameters
        (gear_factors options),
    build_modes-AreBuilt make_continuous_mode 0 default_parameters (gear_factors options),
  )

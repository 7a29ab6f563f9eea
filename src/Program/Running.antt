-- ===== src/Program/Running.antt =====
-- What the program leaves when it searches.
use flexman.Base.{
  ℕ, ◌<◌, ◌≡◌, refl, Bool, true, false, ◌==◌, ==_iff, ◌||◌, Bool-cases, inl, inr, Option, none,
  some, List, All, Ensures, >>=-Ensures, Outcome, arith,
}
use flexman.Double.{Double}
use flexman.Core.Execution.{Mode}
use flexman.Core.Solution.{Solution, Result}
use flexman.Core.Manager.{Manager, KeepsSequence}
use flexman.Search.Algorithms.{Algorithms, IsStandard}
use flexman.Search.Extension.{SearchAlgorithm, Clock, Deadline}
use flexman.Search.Perform.Fronts.{IsSearched, perform_search-IsSearched}
use flexman.Search.Perform.SingleMachine.{IsSingle, IsNumbered, perform_search-IsSingle}
use flexman.Swarm.Optimize.{optimize_result}
use flexman.Tapping.{
  Tolerant, Indexed, Linear, Integrator, Resources, tapping_resources, tapping_meters,
  discrete_updated_solution, continuous_updated_solution, account,
}
use flexman.Tapping.Systems.{Literals, Control, StateSpace, DiscreteStateSpace}
use flexman.Program.{sort_fronts}
use flexman.Program.Execute.{
  Options, Seconds, Run, searched, simulated, neither, algorithm_of, search_with, run_search,
  run_option, discrete_modes, continuous_modes, discrete, continuous, execute_in_discrete_mode,
  execute_in_continuous_mode, main,
}
use flexman.Program.Comparing.{Compares, count_solutions, compare_results-optimize_result}
use flexman.Program.Sorting.{
  AllAscending, Sorts, Sorts-AllAscending, Sorts-All, Sorts-IsSearched, sort_fronts-Sorts,
}
use flexman.Program.Numbering.{discrete_modes-IsNumbered, continuous_modes-IsNumbered}

module _ {ℓ} {Real State : Type ℓ} where
  -- The run is a search, and its result has the property. With `--pso` the result was optimised and
  -- a line was logged for each solution; without, it was not.
  abbrev pub Finds :
      (pso : Bool) → (Result Real State (Resources Real) → Type 0) → Run Real State → Type 0
  Finds pso P (searched r none) = P r × (pso ≡ false)
  Finds pso P (searched r (some (optimized, lines))) =
      P r × (pso ≡ true) × Compares (count_solutions r.pareto_fronts) lines
  Finds pso P (simulated simulations) = ⊥
  Finds pso P neither = ⊥

module _ {ℓ} {Real State System Input Timespec World : Type ℓ} ⦃d : Double Real⦄ ⦃t : Tolerant Real⦄
    (m : Manager Real State (Mode System Input) (Resources Real) Timespec) (fuel : ℕ)
    (modes : List (Mode System Input)) (options : Options Real)
    ⦃alg : Algorithms (Solution Real State (Resources Real))⦄ ⦃clock : Clock Real World⦄
    ⦃deadline : Deadline Timespec World⦄ (world : World) (keys : List ℕ) (seeds : ℕ → ℕ → Real)
    (std : IsStandard (Solution Real State (Resources Real))) where
  run_search-Finds :
      (P Q : Result Real State (Resources Real) → Type 0)
      → ((r s : Result Real State (Resources Real))
          → Sorts r.pareto_fronts s.pareto_fronts
          → P r
          → Q s)
      → Ensures P (search_with m fuel modes options world keys (algorithm_of options.algorithm))
      → Ensures (Finds options.pso Q) (run_search m fuel modes options world keys seeds)
  unfolding run_search
  run_search-Finds P Q sorted h =
      >>=-Ensures P _ (search_with m fuel modes options world keys _) _ h λ found p.
        >>=-Ensures _ _ (sort_fronts found.pareto_fronts) _ (sort_fronts-Sorts std _) λ fronts s.
          let results : Result Real State (Resources Real) = record { pareto_fronts = fronts } in
          let q = sorted found results s p in
          elim (Bool-cases options.pso) [
            | inl on ↦ rw on (
                >>=-Ensures _ _ (optimize_result (some m) options.solver fuel modes seeds results) _
                  (compare_results-optimize_result (some m) options.solver fuel modes seeds results)
                  λ optimized lines. (q, refl, lines))
            | inr off ↦ rw off (q, refl)
          ]

  search_with-IsSearched :
      (algorithm : Option SearchAlgorithm)
      → Ensures (IsSearched m) (search_with m fuel modes options world keys algorithm)
  unfolding search_with
  search_with-IsSearched none = (tt, tt)
  search_with-IsSearched (some algorithm) =
      perform_search-IsSearched std algorithm m fuel modes options.iterations world keys

  pub run_search-IsSearched :
      Ensures
        (Finds options.pso (λ r. IsSearched m r × AllAscending r.pareto_fronts))
        (run_search m fuel modes options world keys seeds)
  run_search-IsSearched =
      run_search-Finds (IsSearched m) _ (λ r s h p. (Sorts-IsSearched m h p, Sorts-AllAscending h))
        (search_with-IsSearched _)

  pub run_search-IsSingle :
      KeepsSequence m
      → IsNumbered modes
      → options.algorithm ≡ 2
      → Ensures
          (Finds options.pso (λ r. All (λ f. All IsSingle f.solutions) r.pareto_fronts))
          (run_search m fuel modes options world keys seeds)
  unfolding search_with algorithm_of
  run_search-IsSingle keep numbered h =
      run_search-Finds _ _ (λ r s sorts p. Sorts-All IsSingle sorts p)
        (rw h
          (perform_search-IsSingle m fuel keep modes numbered std options.iterations world keys))

module _ {ℓ} {Real Vector World : Type ℓ} (Matrix Timespec : Type ℓ) ⦃d : Double Real⦄
    ⦃t : Tolerant Real⦄ ⦃v : Indexed Real Vector⦄ ⦃lit : Literals Real⦄
    ⦃ctl : Control Real Vector Matrix⦄ ⦃seconds : Seconds Real Timespec⦄
    ⦃alg : Algorithms (Solution Real Vector (Resources Real))⦄ ⦃clock : Clock Real World⦄
    ⦃deadline : Deadline Timespec World⦄
    ⦃discrete_lin : Linear Vector (DiscreteStateSpace Real Matrix)⦄
    ⦃lin : Linear Vector (StateSpace Matrix)⦄ ⦃int : Integrator Real Vector⦄
    (options : Options Real) (fuel : ℕ) (world : World) (keys : List ℕ) (seeds : ℕ → ℕ → Real)
    (asked : (options.no_arguments || options.help) ≡ false) where
  abbrev run : Outcome (Run Real Vector)
  run = main Matrix Timespec options fuel world keys seeds

  main-Ensures :
      (P : Run Real Vector → Type 0)
      → options.mode < 2
      → (options.mode ≡ 0
          → Ensures P (execute_in_discrete_mode Matrix Timespec options fuel world keys seeds))
      → (options.mode ≡ 1
          → Ensures P (execute_in_continuous_mode Matrix Timespec options fuel world keys seeds))
      → Ensures P run
  unfolding main
  main-Ensures P h f g = elim (Bool-cases (options.mode == 0)) [
    | inl e ↦ rw (asked, e) (f ((==_iff options.mode 0).0 e))
    | inr e ↦ elim (Bool-cases (options.mode == 1)) [
      | inl e' ↦ rw (asked, e, e') (g ((==_iff options.mode 1).0 e'))
      | inr e' ↦ absurd (ground arith)
    ]
  ]

  -- With `std::sort` and `std::partition` as C++ promises them: asked to search, in either mode and
  -- with any algorithm, if `main` returns, then its fronts have solutions in ascending order, all of
  -- them complete and none strictly better than another of the front, with strides that fall from
  -- front to front. With `--pso` a line is logged for each solution, and no warning; without, the
  -- result is not optimised.
  pub main-IsSearched :
      IsStandard (Solution Real Vector (Resources Real))
      → options.run ≡ 0
      → options.mode < 2
      → Ensures
          (Finds options.pso
            λ r. IsSearched (discrete Matrix Timespec options) r × AllAscending r.pareto_fronts)
          run
  unfolding execute_in_discrete_mode execute_in_continuous_mode run_option
  main-IsSearched std asks h =
      let test = (==_iff options.run 0).1 asks in
      main-Ensures _ h
        (λ e. rw test (
          run_search-IsSearched (discrete Matrix Timespec options) fuel (discrete_modes options).1
            options world keys seeds std))
        (λ e. rw test (
          run_search-IsSearched (continuous Matrix Timespec options) fuel
            (continuous_modes options).1 options world keys seeds std))

  discrete-KeepsSequence : KeepsSequence {State = Vector} (discrete Matrix Timespec options)
  unfolding discrete_updated_solution account
  discrete-KeepsSequence s mode = refl

  continuous-KeepsSequence : KeepsSequence {State = Vector} (continuous Matrix Timespec options)
  unfolding continuous_updated_solution account
  continuous-KeepsSequence s mode = refl

  -- With `std::sort` and `std::partition` as C++ promises them: asked to search with the
  -- single-machine algorithm, in either mode, if `main` returns, then the sequence of every solution
  -- has one entry. With `--pso` a line is logged for each solution; without, the result is not
  -- optimised.
  pub main-IsSingle :
      IsStandard (Solution Real Vector (Resources Real))
      → options.run ≡ 0
      → options.mode < 2
      → options.algorithm ≡ 2
      → Ensures (Finds options.pso λ r. All (λ f. All IsSingle f.solutions) r.pareto_fronts) run
  unfolding execute_in_discrete_mode execute_in_continuous_mode run_option
  main-IsSingle std asks h single =
      let test = (==_iff options.run 0).1 asks in
      main-Ensures _ h
        (λ e. rw test (
          run_search-IsSingle (discrete Matrix Timespec options) fuel (discrete_modes options).1
            options world keys seeds std discrete-KeepsSequence (discrete_modes-IsNumbered options)
            single))
        (λ e. rw test (
          run_search-IsSingle (continuous Matrix Timespec options) fuel (continuous_modes options).1
            options world keys seeds std continuous-KeepsSequence
            (continuous_modes-IsNumbered options) single))

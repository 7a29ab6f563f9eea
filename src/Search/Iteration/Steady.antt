-- ===== src/Search/Iteration/Steady.antt =====
-- Solutions of which each interpolation ends, and the extensions of them.
use flexman.Base.{
  ℕ, zero, suc, ◌<◌, ◌≡◌, ◌≢◌, refl, true, false, some, List, [], ◌∷◌, map, All, IsOk, then-IsOk,
  Bool-cases, inl, inr,
}
use flexman.Double.{Double, Consumable, ◌≼◌}
use flexman.Core.Execution.{Mode}
use flexman.Core.Solution.{Solution}
use flexman.Core.Manager.{Manager}
use flexman.Search.Interpolation.{interpolation_step, advance, simulate_rounds, simulate_mode}
use flexman.Search.Interpolation.Sampling.{time_after, find_solution_closest_to_zero-IsFirstSample}
use flexman.Search.Interpolation.Simulating.{simulate_mode-rounds}
use flexman.Search.Extension.{
  SearchAlgorithm, exhaustive, heuristic, single_machine, extend_freely, extend_one,
}
use flexman.Search.Iteration.{initial_solution, switching}
use flexman.Search.Iteration.Carried.{Extends, Runs}
use flexman.Search.Iteration.Stepwise.{IsKeptBy, advance-Extends}

module _ {ℓ} {Real State System Input Resources Timespec : Type ℓ} ⦃d : Double Real⦄
    (P : Solution Real State Resources → Type 0)
    (m : Manager Real State (Mode System Input) Resources Timespec) (fuel : ℕ) where
  -- Whenever a step of the mode completes a solution that has the property, the times of the
  -- interpolation that follows pass the time delta within the fuel.
  abbrev pub Interpolates : Mode System Input → Type ℓ
  Interpolates mode =
      (s : Solution Real State Resources)
      → P s
      → m.is_complete (advance m mode s) ≡ true
      → (n : ℕ) × (n < fuel)
        × ((time_after (interpolation_step m s) n (d.of_ℕ 0) ≼ m.time_delta) ≡ false)

  -- The property holds of the initial solutions, each step and each interpolation after
  -- a step that completes keep it, and of
  -- the solutions that have it each interpolation ends. So a search starts no other interpolations.
  pub record IsSteady ⦃c : Consumable Resources⦄ (modes : List (Mode System Input)) : Type ℓ where
    pub initial : All P (map (initial_solution m) modes)
    pub kept : All (IsKeptBy P m) modes
    pub ends : All Interpolates modes

  module _ (mode : Mode System Input) (kept : IsKeptBy P m mode) (ends : Interpolates mode) where
    simulate_rounds-IsOk :
        (left : ℕ) (s : Solution Real State Resources)
        → P s
        → IsOk (simulate_rounds m fuel mode left s)
    unfolding simulate_rounds
    simulate_rounds-IsOk zero s h = tt
    simulate_rounds-IsOk (suc left) s h = elim (Bool-cases (m.is_complete (advance m mode s))) [
      | inl e ↦
          let (n, l, out) = ends s h e in
          let (r, eq, _) =
            find_solution_closest_to_zero-IsFirstSample m s (advance m mode s) n fuel out l in
          rw (e, eq) tt
      | inr e ↦ rw e (simulate_rounds-IsOk left (advance m mode s) (kept s h).0)
    ]

    pub simulate_mode-IsOk :
        (steps : ℕ) (s : Solution Real State Resources)
        → 0 < steps
        → P s
        → IsOk (simulate_mode (some m) fuel mode steps s)
    simulate_mode-IsOk steps s some_steps h =
        rw (simulate_mode-rounds m mode fuel steps s some_steps) (simulate_rounds-IsOk steps s h)

  pub extend_freely-IsOk :
      (steps : ℕ)
      → 0 < steps
      → (partial : Solution Real State Resources) → P partial
      → (modes : List (Mode System Input)) → All (IsKeptBy P m) modes
      → All Interpolates modes
      → IsOk (extend_freely (some m) fuel steps partial modes)
  unfolding extend_freely
  extend_freely-IsOk steps some_steps partial h [] ks es = tt
  extend_freely-IsOk steps some_steps partial h (mode ∷ modes) (k, ks) (e, es) =
      then-IsOk (simulate_mode (some m) fuel mode steps partial) _
        (simulate_mode-IsOk mode k e steps partial some_steps h)
        λ s.
          then-IsOk (extend_freely (some m) fuel steps partial modes) _
            (extend_freely-IsOk steps some_steps partial h modes ks es) λ rest. tt

  module _ ⦃c : Consumable Resources⦄ (modes : List (Mode System Input)) (steady : IsSteady modes)
      (algorithm : SearchAlgorithm) where
    pub steady-Extends : Extends P algorithm m fuel modes
    steady-Extends = advance-Extends P m fuel algorithm modes steady.kept

    -- The algorithms that extend a solution by every mode do so without fail.
    pub steady-Runs : algorithm ≢ single_machine → Runs P algorithm m fuel modes
    unfolding extend_one
    steady-Runs h steps some_steps partial held = go algorithm h
      where
        go :
            (a : SearchAlgorithm)
            → a ≢ single_machine
            → IsOk (extend_one (switching a) (some m) fuel steps modes partial)
        go exhaustive k =
            extend_freely-IsOk steps some_steps partial held modes steady.kept steady.ends
        go heuristic k =
            extend_freely-IsOk steps some_steps partial held modes steady.kept steady.ends
        go single_machine k = absurd (k refl)

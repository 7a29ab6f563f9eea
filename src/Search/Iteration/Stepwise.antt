-- ===== src/Search/Iteration/Stepwise.antt =====
-- A property that each step of a simulation keeps is kept by every extension of a solution.
use flexman.Base.{
  ℕ, zero, suc, some, List, [], ◌∷◌, All, get_elem?, back, or_throw, or_throw-Ensures,
  All-get_elem?, undefined, refuse_if, zero_steps, ◌==◌, Ensures, >>=-Ensures, then-Ensures,
  if-Ensures, ◌≡◌, true, Bool-cases, inl, inr,
}
use flexman.Double.{Double, ◌⊕◌, ◌≼◌}
use flexman.Core.Execution.{Mode}
use flexman.Core.Solution.{Solution}
use flexman.Core.Manager.{Manager}
use flexman.Search.Extension.{
  SearchAlgorithm, exhaustive, heuristic, single_machine, extend_freely, extend_last, extend_one,
}
use flexman.Search.Interpolation.{
  interpolated, interpolate_from, interpolation_step, find_solution_closest_to_zero, advance,
  simulate_rounds, simulate_mode,
}
use flexman.Search.Iteration.Carried.{Extends}

module _ {ℓ} {Real State Mode Resources Timespec : Type ℓ} ⦃d : Double Real⦄
    (P : Solution Real State Resources → Type 0) (m : Manager Real State Mode Resources Timespec)
    (previous current : Solution Real State Resources) where
  -- Every complete sample between the two solutions has the property.
  abbrev pub Samples : Type ℓ
  Samples =
      (t : Real)
      → m.is_complete (interpolated m previous current t) ≡ true
      → P (interpolated m previous current t)

  module _ (sampled : Samples) (h : P current) where
    interpolate_from-Ensures :
        (step : Real) (left : ℕ) (t : Real)
        → Ensures P (interpolate_from m previous current step left t)
    unfolding interpolate_from
    interpolate_from-Ensures step zero t = tt
    interpolate_from-Ensures step (suc left) t =
        if-Ensures _ (t ≼ m.time_delta) _ _
          (elim (Bool-cases (m.is_complete (interpolated m previous current t))) [
            | inl e ↦ rw e (sampled t e)
            | inr e ↦ rw e (interpolate_from-Ensures step left (t ⊕ step))
          ])
          h

    pub find_solution_closest_to_zero-Ensures :
        (fuel : ℕ) → Ensures P (find_solution_closest_to_zero m fuel previous current)
    unfolding find_solution_closest_to_zero
    find_solution_closest_to_zero-Ensures fuel =
        interpolate_from-Ensures (interpolation_step m previous) fuel (d.of_ℕ 0)

module _ {ℓ} {Real State System Input Resources Timespec : Type ℓ} ⦃d : Double Real⦄
    (P : Solution Real State Resources → Type 0)
    (m : Manager Real State (Mode System Input) Resources Timespec) where
  -- A step of the mode keeps the property, and so does the interpolation after a step that completes.
  abbrev pub IsKeptBy : Mode System Input → Type ℓ
  IsKeptBy mode =
      (s : Solution Real State Resources)
      → P s
      → P (advance m mode s)
        × (m.is_complete (advance m mode s) ≡ true → Samples P m s (advance m mode s))

module _ {ℓ} {Real State System Input Resources Timespec : Type ℓ} ⦃d : Double Real⦄
    (P : Solution Real State Resources → Type 0)
    (m : Manager Real State (Mode System Input) Resources Timespec) (fuel : ℕ)
    (mode : Mode System Input) (kept : IsKeptBy P m mode) where
  simulate_rounds-Ensures :
      (left : ℕ) (s : Solution Real State Resources)
      → P s
      → Ensures P (simulate_rounds m fuel mode left s)
  unfolding simulate_rounds
  simulate_rounds-Ensures zero s h = h
  simulate_rounds-Ensures (suc left) s h =
      let (k, sampled) = kept s h in
      elim (Bool-cases (m.is_complete (advance m mode s))) [
        | inl e ↦
            rw e (find_solution_closest_to_zero-Ensures P m s (advance m mode s) (sampled e) k fuel)
        | inr e ↦ rw e (simulate_rounds-Ensures left (advance m mode s) k)
      ]

  pub simulate_mode-Ensures :
      (steps : ℕ) (s : Solution Real State Resources)
      → P s
      → Ensures P (simulate_mode (some m) fuel mode steps s)
  unfolding simulate_mode
  simulate_mode-Ensures steps s h =
      then-Ensures _ (refuse_if (steps == 0) zero_steps) _ λ _. simulate_rounds-Ensures steps s h

module _ {ℓ} {Real State System Input Resources Timespec : Type ℓ} ⦃d : Double Real⦄
    (P : Solution Real State Resources → Type 0)
    (m : Manager Real State (Mode System Input) Resources Timespec) (fuel : ℕ) where
  extend_freely-Ensures :
      (steps : ℕ) (partial : Solution Real State Resources) (modes : List (Mode System Input))
      → P partial
      → All (IsKeptBy P m) modes
      → Ensures (All P) (extend_freely (some m) fuel steps partial modes)
  unfolding extend_freely
  extend_freely-Ensures steps partial [] h k = tt
  extend_freely-Ensures steps partial (mode ∷ modes) h (k, ks) =
      >>=-Ensures P _ (simulate_mode (some m) fuel mode steps partial) _
        (simulate_mode-Ensures P m fuel mode k steps partial h)
        λ s a.
          >>=-Ensures (All P) _ (extend_freely (some m) fuel steps partial modes) _
            (extend_freely-Ensures steps partial modes h ks) λ rest b. (a, b)

  extend_last-Ensures :
      (steps : ℕ) (partial : Solution Real State Resources) (modes : List (Mode System Input))
      → P partial
      → All (IsKeptBy P m) modes
      → Ensures (All P) (extend_last (some m) fuel steps partial modes)
  unfolding extend_last
  extend_last-Ensures steps partial modes h ks =
      then-Ensures _ (or_throw (back partial.sequence) undefined) _ λ last.
        >>=-Ensures _ _ (or_throw (get_elem? modes last.mode) undefined) _ (or_throw-Ensures _ _)
          λ mode at.
            let k = All-get_elem? (IsKeptBy P m) modes last.mode mode ks at in
            >>=-Ensures P _ (simulate_mode (some m) fuel mode steps partial) _
              (simulate_mode-Ensures P m fuel mode k steps partial h) λ s a. (a, tt)

  -- Whatever the algorithm.
  pub advance-Extends :
      (algorithm : SearchAlgorithm) (modes : List (Mode System Input))
      → All (IsKeptBy P m) modes
      → Extends P algorithm m fuel modes
  unfolding extend_one
  advance-Extends exhaustive modes ks steps partial h =
      extend_freely-Ensures steps partial modes h ks
  advance-Extends heuristic modes ks steps partial h =
      extend_freely-Ensures steps partial modes h ks
  advance-Extends single_machine modes ks steps partial h =
      extend_last-Ensures steps partial modes h ks

-- ===== src/Tapping/Updates.antt =====
-- The updates of the discrete search of the tapping example, in a simulation of a mode.
use flexman.Base.{ℕ, zero, suc, ◌<◌, ◌≡◌, refl, Bool, some, ◌++◌, Returns, size_mod, arith}
use flexman.Double.{Double}
use flexman.Core.Execution.{Mode}
use flexman.Core.Execution.Laws.{executions, replicate, HasRoom}
use flexman.Core.Solution.{Solution}
use flexman.Core.Manager.{Manager}
use flexman.Search.Interpolation.{advance, simulate_mode}
use flexman.Search.Interpolation.Sampling.{time_after}
use flexman.Search.Interpolation.Simulating.{
  advances, StaysPartial, simulate_mode_lem, executions-advances,
}
use flexman.Tapping.{
  Tolerant, Indexed, Linear, Resources, distance, account, discrete_updated_solution,
  discrete_search,
}

module _ {ℓ} {Real Vector System Timespec : Type ℓ} ⦃d : Double Real⦄ ⦃t : Tolerant Real⦄
    ⦃v : Indexed Real Vector⦄ ⦃lin : Linear Vector System⦄ (initial_state target_state : Vector)
    (time_delta time_max threshold : Real) (timeout : Timespec) (interactive : Bool)
    (mode : Mode System Vector) where
  abbrev tapping_search : Manager Real Vector (Mode System Vector) (Resources Real) Timespec
  tapping_search =
      discrete_search initial_state target_state time_delta time_max threshold timeout interactive

  time-advances :
      (k : ℕ) (s : Solution Real Vector (Resources Real))
      → (advances tapping_search mode k s).resources.time ≡ time_after time_delta k s.resources.time
  unfolding advance discrete_updated_solution account
  time-advances zero s = refl
  time-advances (suc k) s = time-advances k (advance tapping_search mode s)

  distance-advances :
      (k : ℕ) (s : Solution Real Vector (Resources Real))
      → (advances tapping_search mode (suc k) s).distance
        ≡ distance target_state (advances tapping_search mode (suc k) s)
  unfolding advance discrete_updated_solution account distance
  distance-advances zero s = refl
  distance-advances (suc k) s = distance-advances k (advance tapping_search mode s)

  -- If no round completes the solution and no counter wraps, `simulate_mode` on the discrete search
  -- returns a solution whose sequence has one execution of the mode more for each step, whose time
  -- is a time delta later for each step, and whose distance is that of its state.
  pub simulate_mode-discrete_search :
      (fuel steps : ℕ) (s : Solution Real Vector (Resources Real))
      → suc steps < size_mod
      → HasRoom (suc steps) s.sequence
      → StaysPartial tapping_search mode (suc steps) s
      → Returns
          (λ r.
            (executions r.sequence ≡ executions s.sequence ++ replicate (suc steps) mode.id)
            × (r.resources.time ≡ time_after time_delta (suc steps) s.resources.time)
            × (r.distance ≡ distance target_state r))
          (simulate_mode (some tapping_search) fuel mode (suc steps) s)
  unfolding discrete_updated_solution account
  simulate_mode-discrete_search fuel steps s b room partial = (
    advances tapping_search mode (suc steps) s,
    (simulate_mode_lem tapping_search mode fuel (suc steps) s (omega arith)).0 partial,
    (
      executions-advances tapping_search mode (λ s' n. refl) (suc steps) s b room,
      time-advances (suc steps) s,
      distance-advances steps s,
    ),
  )

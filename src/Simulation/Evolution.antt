-- ===== src/Simulation/Evolution.antt =====
-- `simulate_single_mode`: the list of the solutions that it runs through.
use flexman.Base.{
  ℕ, zero, suc, ◌≤◌, ◌<◌, ◌≡◌, refl, ap, ◌⊎◌, inl, inr, true, false, some, List, [], ◌∷◌, Returns,
  Bool-cases, pos-ne-zero, arith,
}
use flexman.Double.{Double, Consumable}
use flexman.Core.Solution.{Solution}
use flexman.Core.Manager.{Manager}
use flexman.Simulation.{empty_solution, simulate_one_step, evolve, simulate_single_mode}

module _ {ℓ} {Real State Mode Resources Timespec : Type ℓ}
    (m : Manager Real State Mode Resources Timespec) (mode : Mode) where
  -- The solution after `k` updates.
  abbrev pub updates : ℕ → Solution Real State Resources → Solution Real State Resources
  updates zero s = s
  updates (suc k) s = updates k (m.updated_solution s mode)

  -- The solutions after one to `k` updates.
  abbrev pub trace : ℕ → Solution Real State Resources → List (Solution Real State Resources)
  trace zero s = []
  trace (suc k) s = m.updated_solution s mode ∷ trace k (m.updated_solution s mode)

  -- The trace up to the first complete solution, and to `steps` updates at most.
  abbrev pub IsEvolution :
      ℕ → Solution Real State Resources → List (Solution Real State Resources) → Type ℓ
  IsEvolution steps s xs =
      (k : ℕ) × (k ≤ steps)
      × (xs ≡ trace k s)
      × ((j : ℕ) → j < k → m.is_complete (updates j s) ≡ false)
      × ((k ≡ steps) ⊎ (m.is_complete (updates k s) ≡ true))

  evolve-Returns :
      (left : ℕ) (s : Solution Real State Resources)
      → Returns (IsEvolution left s) (evolve m mode left s)
  unfolding evolve simulate_one_step
  evolve-Returns zero s = ([], refl, (0, omega arith, refl, λ j h. absurd (omega arith), inl refl))
  evolve-Returns (suc left) s = elim (Bool-cases (m.is_complete s)) [
    | inl e ↦ ([], rw e refl, (0, omega arith, refl, λ j h. absurd (omega arith), inr e))
    | inr e ↦
        let next = m.updated_solution s mode in
        let (xs, eq, (k, le, same, before, end)) = evolve-Returns left next in
        (
          next ∷ xs,
          rw (e, eq) refl,
          (
            suc k,
            omega arith,
            ap (λ ys. next ∷ ys) same,
            earlier k e before,
            elim end [ inl all ↦ inl (omega arith) | inr done ↦ inr done ],
          ),
        )
  ]
    where
      earlier :
          (k : ℕ)
          → m.is_complete s ≡ false
          → ((j : ℕ) → j < k → m.is_complete (updates j (m.updated_solution s mode)) ≡ false)
          → (j : ℕ) → j < suc k
          → m.is_complete (updates j s) ≡ false
      earlier k e before zero h = e
      earlier k e before (suc j) h = before j (omega arith)

  -- With at least one step, `simulate_single_mode` returns: from the empty solution on, its
  -- evolution is the trace of the updates up to the first complete solution, and to `steps` of them
  -- at most; and its initial and target states are the manager's.
  pub simulate_single_mode-IsEvolution :
      ⦃d : Double Real⦄ ⦃c : Consumable Resources⦄
      → (steps : ℕ) → 0 < steps
      → Returns
          (λ r.
            IsEvolution steps (empty_solution m) r.evolution
            × (r.initial_state ≡ m.initial_state)
            × (r.target_state ≡ m.target_state))
          (simulate_single_mode (some m) mode steps)
  unfolding simulate_single_mode
  simulate_single_mode-IsEvolution steps h =
      let (xs, eq, spec) = evolve-Returns steps (empty_solution m) in
      (
        record { evolution = xs; initial_state = m.initial_state; target_state = m.target_state },
        rw (pos-ne-zero steps h, eq) refl,
        (spec, refl, refl),
      )

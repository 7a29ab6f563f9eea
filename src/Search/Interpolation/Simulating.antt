-- ===== src/Search/Interpolation/Simulating.antt =====
-- `simulate_mode`: its branches, and what the sequence of its result says.
use mathlib.Core.List.{append-nil}
use flexman.Base.{
  subst, sym, pos-ne-zero, ℕ, zero, suc, ◌<◌, ◌≡◌, refl, ◌∙◌, ap, true, false, some, ◌++◌, ok,
  running, Returns, arith, size_mod,
}
use flexman.Double.{Double, ◌⊕◌, ◌≼◌}
use flexman.Core.Execution.{Mode}
use flexman.Core.Execution.Laws.{
  replicate, replicate-append, executions, HasRoom, HasRoom-mono, executions-add_mode_execution,
  HasRoom-add_mode_execution,
}
use flexman.Core.Solution.{Solution}
use flexman.Core.Manager.{Manager, KeepsSequence}
use flexman.Search.Interpolation.{
  interpolation_step, interpolated, find_solution_closest_to_zero, advance, simulate_rounds,
  simulate_mode,
}
use flexman.Search.Interpolation.Sampling.{
  time_after, IsMissed, find_solution_closest_to_zero-IsSampleBy,
  find_solution_closest_to_zero-running,
}

module _ {ℓ} {Real State System Input Resources Timespec : Type ℓ} ⦃d : Double Real⦄
    (m : Manager Real State (Mode System Input) Resources Timespec) (mode : Mode System Input) where
  -- `k` rounds of the simulation, without the check for completion.
  abbrev pub advances : ℕ → Solution Real State Resources → Solution Real State Resources
  advances zero s = s
  advances (suc k) s = advances k (advance m mode s)

  -- None of the next `k` rounds completes the solution.
  abbrev pub StaysPartial : ℕ → Solution Real State Resources → Type 0
  StaysPartial zero s = Unit
  StaysPartial (suc k) s =
      (m.is_complete (advance m mode s) ≡ false) × StaysPartial k (advance m mode s)

  -- The round after `k` rounds that do not is the first to complete the solution.
  abbrev pub CompletesAfter : ℕ → Solution Real State Resources → Type 0
  CompletesAfter k s = StaysPartial k s × (m.is_complete (advances (suc k) s) ≡ true)

  simulate_rounds_partial :
      (fuel left : ℕ) (s : Solution Real State Resources)
      → StaysPartial left s
      → simulate_rounds m fuel mode left s ≡ ok (advances left s)
  unfolding simulate_rounds
  simulate_rounds_partial fuel zero s h = refl
  simulate_rounds_partial fuel (suc left) s (h, hs) =
      rw h (simulate_rounds_partial fuel left (advance m mode s) hs)

  simulate_rounds_complete :
      (fuel left k : ℕ) (s : Solution Real State Resources)
      → k < left
      → CompletesAfter k s
      → simulate_rounds m fuel mode left s
        ≡ find_solution_closest_to_zero m fuel (advances k s) (advances (suc k) s)
  unfolding simulate_rounds
  simulate_rounds_complete fuel zero k s l h = absurd (omega arith)
  simulate_rounds_complete fuel (suc left) zero s l (h, e) = rw e refl
  simulate_rounds_complete fuel (suc left) (suc k) s l ((h, hs), e) =
      rw h (simulate_rounds_complete fuel left k (advance m mode s) (omega arith) (hs, e))

  pub simulate_mode-rounds :
      (fuel steps : ℕ) (s : Solution Real State Resources)
      → 0 < steps
      → simulate_mode (some m) fuel mode steps s ≡ simulate_rounds m fuel mode steps s
  unfolding simulate_mode
  simulate_mode-rounds fuel steps s h = rw (pos-ne-zero steps h) refl

  -- With at least one step, `simulate_mode` returns the solution after all of its rounds if none of
  -- them completes it; and if one does, it interpolates between the solution before the first such
  -- round and the one after it.
  pub simulate_mode_lem :
      (fuel steps : ℕ) (s : Solution Real State Resources)
      → 0 < steps
      → (StaysPartial steps s → simulate_mode (some m) fuel mode steps s ≡ ok (advances steps s))
        × ((k : ℕ)
            → k < steps
            → CompletesAfter k s
            → simulate_mode (some m) fuel mode steps s
              ≡ find_solution_closest_to_zero m fuel (advances k s) (advances (suc k) s))
  simulate_mode_lem fuel steps s h =
      rw (simulate_mode-rounds fuel steps s h)
        (simulate_rounds_partial fuel steps s, λ k. simulate_rounds_complete fuel steps k s)

  pub executions-advances :
      KeepsSequence m
      → (k : ℕ) (s : Solution Real State Resources) → k < size_mod
      → HasRoom k s.sequence
      → executions (advances k s).sequence ≡ executions s.sequence ++ replicate k mode.id
  unfolding advance
  executions-advances keep zero s b h = rw (append-nil (executions s.sequence))
  executions-advances keep (suc k) s b h =
      let room = subst (HasRoom (suc k)) (sym (keep s mode)) h in
      executions-advances keep k (advance m mode s) (omega arith)
        (HasRoom-add_mode_execution k mode.id _ b room)
      ∙ rw (executions-add_mode_execution mode.id _ (HasRoom-mono k _ room), keep s mode)
          (replicate-append k mode.id (executions s.sequence))

  -- The samples up to the `i`-th lie within the time delta, and the `i`-th is complete.
  abbrev pub HitBy : ℕ → (previous current : Solution Real State Resources) → Type 0
  HitBy i previous current =
      let time = λ (j : ℕ). time_after (interpolation_step m previous) j (d.of_ℕ 0) in
      ((j : ℕ) → j < suc i → (time j ≼ m.time_delta) ≡ true)
      × (m.is_complete (interpolated m previous current (time i)) ≡ true)

  -- If `updated_solution` leaves the sequence alone, no counter wraps, the (k+1)-th round is the
  -- first to complete the solution, and some sample of the interpolation within the fuel is
  -- complete, then `simulate_mode` returns a complete solution whose sequence has only the first
  -- `k` executions: the one that completed the solution is not in it.
  pub simulate_mode_drops_last :
      KeepsSequence m
      → (fuel steps k i : ℕ) (s : Solution Real State Resources) → k < steps
      → CompletesAfter k s
      → HitBy i (advances k s) (advances (suc k) s)
      → i < fuel
      → k < size_mod
      → HasRoom k s.sequence
      → Returns
          (λ r.
            (m.is_complete r ≡ true)
            × (executions r.sequence ≡ executions s.sequence ++ replicate k mode.id))
          (simulate_mode (some m) fuel mode steps s)
  unfolding interpolated
  simulate_mode_drops_last keep fuel steps k i s l after (inside, hit) f b room =
      let (r, eq, (j, below, (_, done), same)) =
        find_solution_closest_to_zero-IsSampleBy m (advances k s) (advances (suc k) s) i fuel inside
          hit f in
      (
        r,
        (simulate_mode_lem fuel steps s (omega arith)).1 k l after ∙ eq,
        (
          subst (λ x. m.is_complete x ≡ true) (sym same) done,
          ap (λ (x : Solution Real State Resources). executions x.sequence) same
              ∙ executions-advances keep k s b room,
        ),
      )

  -- If the (k+1)-th round is the first to complete the solution, the sample at time zero is
  -- incomplete, and the step of the interpolation is so small that adding it to zero gives zero,
  -- then `simulate_mode` does not end: it is running whatever its fuel.
  pub simulate_mode-running :
      (steps k : ℕ) (s : Solution Real State Resources)
      → k < steps
      → CompletesAfter k s
      → (d.of_ℕ 0 ⊕ interpolation_step m (advances k s)) ≡ d.of_ℕ 0
      → IsMissed m (advances k s) (advances (suc k) s) (d.of_ℕ 0)
      → (fuel : ℕ) → simulate_mode (some m) fuel mode steps s ≡ running
  simulate_mode-running steps k s l after e miss fuel =
      (simulate_mode_lem fuel steps s (omega arith)).1 k l after
      ∙ find_solution_closest_to_zero-running m (advances k s) (advances (suc k) s) e miss fuel

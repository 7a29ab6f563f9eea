-- ===== src/Search/Interpolation/Sampling.antt =====
-- The loop of `find_solution_closest_to_zero`: what it returns, when it ends, and when it does not.
use flexman.Base.{
  ℕ, zero, suc, ◌<◌, ◌≡◌, refl, ◌⊎◌, inl, inr, true, false, running, Returns, Bool-cases, arith,
}
use flexman.Double.{Double, ◌⊕◌, ◌≼◌}
use flexman.Core.Solution.{Solution}
use flexman.Core.Manager.{Manager}
use flexman.Search.Interpolation.{
  interpolation_step, interpolated, interpolate_from, find_solution_closest_to_zero,
}

-- The time after `k` rounds.
abbrev pub time_after {ℓ} : {Real : Type ℓ} ⦃d : Double Real⦄ → Real → ℕ → Real → Real
time_after step zero t = t
time_after step (suc k) t = time_after step k (t ⊕ step)

module _ {ℓ} {Real State Mode Resources Timespec : Type ℓ} ⦃d : Double Real⦄
    (m : Manager Real State Mode Resources Timespec)
    (previous current : Solution Real State Resources) where
  -- The sample at a time, and whether it ends the loop.
  abbrev pub IsMissed : Real → Type 0
  IsMissed t =
      ((t ≼ m.time_delta) ≡ true) × (m.is_complete (interpolated m previous current t) ≡ false)

  abbrev pub IsHit : Real → Type 0
  IsHit t = ((t ≼ m.time_delta) ≡ true) × (m.is_complete (interpolated m previous current t) ≡ true)

  -- The first `k` samples from `t` on are missed; the next one is complete and is the result, or its
  -- time lies past the time delta and `current` is the result.
  abbrev pub IsFirstSample : Real → Real → Solution Real State Resources → Type ℓ
  IsFirstSample step t r =
      (k : ℕ) × ((j : ℕ) → j < k → IsMissed (time_after step j t))
      × ((IsHit (time_after step k t) × (r ≡ interpolated m previous current (time_after step k t)))
          ⊎ (((time_after step k t ≼ m.time_delta) ≡ false) × (r ≡ current)))

  later :
      (step t : Real) (r : Solution Real State Resources)
      → IsMissed t
      → IsFirstSample step (t ⊕ step) r
      → IsFirstSample step t r
  later step t r miss (k, before, at_k) = (suc k, earlier, at_k)
    where
      earlier : (j : ℕ) → j < suc k → IsMissed (time_after step j t)
      earlier zero h = miss
      earlier (suc j) h = before j (omega arith)

  interpolate_from-Returns :
      (step : Real) (n fuel : ℕ) (t : Real)
      → (time_after step n t ≼ m.time_delta) ≡ false
      → n < fuel
      → Returns (IsFirstSample step t) (interpolate_from m previous current step fuel t)
  unfolding interpolate_from
  interpolate_from-Returns step n zero t e h = absurd (omega arith)
  interpolate_from-Returns step zero (suc fuel) t e h =
      (current, rw e refl, (0, λ j l. absurd (omega arith), inr (e, refl)))
  interpolate_from-Returns step (suc n) (suc fuel) t e h = elim (Bool-cases (t ≼ m.time_delta)) [
    | inr out ↦ (current, rw out refl, (0, λ j l. absurd (omega arith), inr (out, refl)))
    | inl inside ↦ elim (Bool-cases (m.is_complete (interpolated m previous current t))) [
      | inl hit ↦ (
        interpolated m previous current t,
        rw (inside, hit) refl,
        (0, λ j l. absurd (omega arith), inl ((inside, hit), refl)),
      )
      | inr miss ↦
          let (r, eq, first) = interpolate_from-Returns step n fuel (t ⊕ step) e (omega arith) in
          (r, rw (inside, miss) eq, later step t r (inside, miss) first)
    ]
  ]

  -- If the time passes the time delta within the fuel, `find_solution_closest_to_zero` returns the
  -- first complete one of its samples, or `current` if no sample up to the time delta is complete.
  pub find_solution_closest_to_zero-IsFirstSample :
      (n fuel : ℕ)
      → (time_after (interpolation_step m previous) n (d.of_ℕ 0) ≼ m.time_delta) ≡ false
      → n < fuel
      → Returns
          (IsFirstSample (interpolation_step m previous) (d.of_ℕ 0))
          (find_solution_closest_to_zero m fuel previous current)
  unfolding find_solution_closest_to_zero
  find_solution_closest_to_zero-IsFirstSample n fuel =
      interpolate_from-Returns (interpolation_step m previous) n fuel (d.of_ℕ 0)

  -- One of the samples at the times up to the `i`-th, a complete one.
  abbrev pub IsSampleBy : ℕ → Real → Real → Solution Real State Resources → Type ℓ
  IsSampleBy i step t r =
      (k : ℕ) × (k < suc i)
      × IsHit (time_after step k t)
      × (r ≡ interpolated m previous current (time_after step k t))

  interpolate_from-IsSampleBy :
      (step : Real) (i fuel : ℕ) (t : Real)
      → ((j : ℕ) → j < suc i → (time_after step j t ≼ m.time_delta) ≡ true)
      → m.is_complete (interpolated m previous current (time_after step i t)) ≡ true
      → i < fuel
      → Returns (IsSampleBy i step t) (interpolate_from m previous current step fuel t)
  unfolding interpolate_from
  interpolate_from-IsSampleBy step i zero t inside hit h = absurd (omega arith)
  interpolate_from-IsSampleBy step zero (suc fuel) t inside hit h =
      let now = inside 0 (omega arith) in
      (interpolated m previous current t, rw (now, hit) refl, (0, omega arith, (now, hit), refl))
  interpolate_from-IsSampleBy step (suc i) (suc fuel) t inside hit h =
      let now = inside 0 (omega arith) in
      elim (Bool-cases (m.is_complete (interpolated m previous current t))) [
        | inl e ↦
            (interpolated m previous current t, rw (now, e) refl, (0, omega arith, (now, e), refl))
        | inr e ↦
            let (r, eq, (k, l, at_k, same)) =
              interpolate_from-IsSampleBy step i fuel (t ⊕ step)
                (λ j l. inside (suc j) (omega arith)) hit (omega arith) in
            (r, rw (now, e) eq, (suc k, omega arith, at_k, same))
      ]

  pub find_solution_closest_to_zero-IsSampleBy :
      (i fuel : ℕ)
      → ((j : ℕ)
          → j < suc i
          → (time_after (interpolation_step m previous) j (d.of_ℕ 0) ≼ m.time_delta) ≡ true)
      → m.is_complete (
          interpolated m previous current (time_after (interpolation_step m previous) i (d.of_ℕ 0)))
        ≡ true
      → i < fuel
      → Returns
          (IsSampleBy i (interpolation_step m previous) (d.of_ℕ 0))
          (find_solution_closest_to_zero m fuel previous current)
  unfolding find_solution_closest_to_zero
  find_solution_closest_to_zero-IsSampleBy i fuel =
      interpolate_from-IsSampleBy (interpolation_step m previous) i fuel (d.of_ℕ 0)

  interpolate_from-running :
      (step t : Real) (fuel : ℕ)
      → (t ⊕ step) ≡ t
      → IsMissed t
      → interpolate_from m previous current step fuel t ≡ running
  unfolding interpolate_from
  interpolate_from-running step t zero e miss = refl
  interpolate_from-running step t (suc fuel) e miss =
      rw (miss.0, miss.1, e) (interpolate_from-running step t fuel e miss)

  -- The loop never ends if the step is absorbed at time zero and the sample there is missed: however
  -- much fuel it has, `find_solution_closest_to_zero` is still running.
  pub find_solution_closest_to_zero-running :
      (d.of_ℕ 0 ⊕ interpolation_step m previous) ≡ d.of_ℕ 0
      → IsMissed (d.of_ℕ 0)
      → (fuel : ℕ) → find_solution_closest_to_zero m fuel previous current ≡ running
  unfolding find_solution_closest_to_zero
  find_solution_closest_to_zero-running e miss fuel =
      interpolate_from-running (interpolation_step m previous) (d.of_ℕ 0) fuel e miss

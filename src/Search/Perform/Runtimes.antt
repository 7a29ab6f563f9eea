-- ===== src/Search/Perform/Runtimes.antt =====
-- The runtimes that `perform_search` notes in the fronts of its result.
use flexman.Base.{
  ℕ, zero, suc, ◌/◌, ◌≡◌, refl, Bool, true, some, List, [], ◌∷◌, ◌++◌, All, All-append, All-map,
  Ensures, >>=-Ensures, then-Ensures, if-Ensures, is_empty, ltb, Bool-cases, inl, inr, refuse_if,
  zero_iterations, ◌==◌, arith,
}
use flexman.Double.{Double, Consumable, ◌≼◌}
use flexman.Core.Execution.{Mode}
use flexman.Core.Solution.{Solution, ParetoFront}
use flexman.Core.Manager.{Manager}
use flexman.Search.Algorithms.{Algorithms}
use flexman.Search.Extension.{SearchAlgorithm, Clock, Deadline}
use flexman.Search.Iteration.{perform_search_n_iterations}
use flexman.Search.Iteration.Clocked.{time_at, NeverGoesBack, n_iterations-after}
use flexman.Search.Perform.{
  Session, record_front, pause_search, passes, init_stride, perform_search,
}

module _ {ℓ} {Real State Resources : Type ℓ} ⦃d : Double Real⦄ where
  -- No front has a larger runtime than one after it.
  abbrev pub IsRising : List (ParetoFront Real State Resources) → Type ℓ
  IsRising [] = Unit
  IsRising (f ∷ fs) = All (λ g. f.runtime ≼ g.runtime ≡ true) fs × IsRising fs

  IsRising-append :
      (fs : List (ParetoFront Real State Resources)) (f : ParetoFront Real State Resources)
      → IsRising fs
      → All (λ g. g.runtime ≼ f.runtime ≡ true) fs
      → IsRising (fs ++ f ∷ [])
  IsRising-append [] f h a = (tt, tt)
  IsRising-append (g ∷ fs) f (h, hs) (a, as') =
      (All-append _ fs (f ∷ []) h (a, tt), IsRising-append fs f hs as')

module _ {ℓ} {Real State Resources World : Type ℓ} ⦃d : Double Real⦄ ⦃clock : Clock Real World⦄
    (laws : NeverGoesBack Real World) where
  -- The runtimes rise, up to the time that is on the timer.
  record IsTimed (s : Session Real State Resources World) : Type ℓ where
    rising : IsRising s.result.pareto_fronts
    past : All (λ f. f.runtime ≼ time_at Real s.world ≡ true) s.result.pareto_fronts

  IsTimed-after :
      (s t : Session Real State Resources World)
      → t.result ≡ s.result
      → time_at Real s.world ≼ time_at Real t.world ≡ true
      → IsTimed s
      → IsTimed t
  IsTimed-after s t e later v = record {
    rising = rw e v.rising;
    past = rw e (All-map _ _ _ (λ f h. laws.le_trans _ _ _ h later) v.past);
  }

  record_front-IsTimed :
      (front : ParetoFront Real State Resources) (s : Session Real State Resources World)
      → IsTimed s
      → IsTimed (record_front front s)
  unfolding record_front
  record_front-IsTimed front s v = elim (Bool-cases (is_empty front.solutions)) [
    | inl t ↦ rw t (record { rising = v.rising; past = v.past })
    | inr t ↦ rw t (record {
      rising = IsRising-append s.result.pareto_fronts _ v.rising v.past;
      past =
          All-append _ s.result.pareto_fronts _
            (All-map _ _ _ (λ f h. laws.le_trans _ _ _ h (laws.elapsed_after s.world)) v.past)
            (laws.elapsed_after s.world, tt);
    })
  ]

  pause_search-after :
      (interactive : Bool) (stride : ℕ) (s : Session Real State Resources World)
      → Ensures
          (λ r. (r.1.result ≡ s.result) × (time_at Real s.world ≼ time_at Real r.1.world ≡ true))
          (pause_search interactive stride s)
  unfolding pause_search
  pause_search-after interactive stride s =
      let stay = laws.le_refl (time_at Real s.world) in
      let restart = laws.start-pause_after s.world in ground arith

module _ {ℓ} {Real State System Input Resources Timespec World : Type ℓ} ⦃d : Double Real⦄
    ⦃c : Consumable Resources⦄ ⦃alg : Algorithms (Solution Real State Resources)⦄
    ⦃clock : Clock Real World⦄ (laws : NeverGoesBack Real World) (algorithm : SearchAlgorithm)
    (m : Manager Real State (Mode System Input) Resources Timespec) (fuel : ℕ)
    (modes : List (Mode System Input)) where
  passes-IsRising :
      (left stride : ℕ) (s : Session Real State Resources World)
      → IsTimed laws s
      → Ensures (λ t. IsRising t.result.pareto_fronts) (passes algorithm m fuel modes left stride s)
  unfolding passes
  passes-IsRising zero stride s v = if-Ensures _ (ltb stride 1) _ _ v.rising tt
  passes-IsRising (suc left) stride s v = if-Ensures _ (ltb stride 1) _ _ v.rising (
      >>=-Ensures _ _ (perform_search_n_iterations _ _ _ _ stride s.pareto_front s.world) _
        (n_iterations-after laws algorithm m fuel modes stride s.pareto_front s.world)
        λ (front, world) later.
          let searched = record s { world = world } in
          let here = record_front front searched in
          let timed =
            record_front-IsTimed laws front searched (IsTimed-after laws s searched refl later v) in
          >>=-Ensures _ _ (pause_search m.interactive stride here) _
            (pause_search-after laws m.interactive stride here)
            λ (stride', u) (e, paused).
              let (timed_out, world') = clock.has_timeout u.world in
              let next = record u { world = world' } in
              let held =
                IsTimed-after laws here next e
                  (laws.le_trans _ _ _ paused (laws.has_timeout_after u.world)) timed in
              if-Ensures _ timed_out _ _ held.rising (passes-IsRising left (stride' / 2) next held))

  -- On a timer that does not go back, with a `≤` that is an order: whatever the algorithm and the
  -- keys, if `perform_search` returns, the runtime of each front of its result is `≤` those of the
  -- fronts after it.
  pub perform_search-IsRising :
      ⦃deadline : Deadline Timespec World⦄
      → (iterations : ℕ) (world : World) (keys : List ℕ)
      → Ensures
          (λ r. IsRising r.pareto_fronts)
          (perform_search algorithm (some m) fuel modes iterations world keys)
  unfolding perform_search
  perform_search-IsRising iterations world keys =
      then-Ensures _ (refuse_if (iterations == 0) zero_iterations) _ λ _.
        then-Ensures _ (init_stride algorithm iterations) _ λ stride.
          >>=-Ensures _ _ (passes _ _ _ _ _ _ _) _
            (passes-IsRising 32 stride _ (record { rising = tt; past = tt })) λ s h. h

-- ===== src/Search/Perform/Carried.antt =====
-- A property that every extension of a solution keeps holds in all fronts of the result; and under
-- the single-machine algorithm, every sequence has one entry.
use flexman.Base.{
  ℕ, zero, suc, ◌/◌, ◌≡◌, some, List, map, All, All-append, Ensures, >>=-Ensures, then-Ensures,
  if-Ensures, is_empty, ltb, Bool-cases, inl, inr, refuse_if, zero_iterations, ◌==◌,
}
use flexman.Double.{Double, Consumable}
use flexman.Core.Execution.{Mode}
use flexman.Core.Solution.{Solution, ParetoFront}
use flexman.Core.Manager.{Manager}
use flexman.Search.Algorithms.{Algorithms, IsStandard}
use flexman.Search.Extension.{SearchAlgorithm, Clock, Deadline}
use flexman.Search.Iteration.{initial_solution, perform_search_n_iterations}
use flexman.Search.Iteration.Carried.{Extends, n_iterations-All}
use flexman.Search.Perform.{
  Session, record_front, pause_search, passes, init_stride, perform_search,
}
use flexman.Search.Perform.Fronts.{pause_search-Ensures}

module _ {ℓ} {Real State Resources World : Type ℓ} ⦃clock : Clock Real World⦄
    (P : Solution Real State Resources → Type 0) where
  -- The property holds in the current front and in those that are kept.
  abbrev pub AllFronts : Session Real State Resources World → Type 0
  AllFronts s = All P s.pareto_front.solutions × All (λ f. All P f.solutions) s.result.pareto_fronts

  pub record_front-AllFronts :
      (front : ParetoFront Real State Resources) (s : Session Real State Resources World)
      → All P front.solutions
      → AllFronts s
      → AllFronts (record_front front s)
  unfolding record_front
  record_front-AllFronts front s f h = elim (Bool-cases (is_empty front.solutions)) [
    | inl e ↦ rw e (f, h.1)
    | inr e ↦ rw e (f, All-append (λ g. All P g.solutions) s.result.pareto_fronts _ h.1 (f, tt))
  ]

  AllFronts-congr :
      (s t : Session Real State Resources World)
      → t.result ≡ s.result
      → t.pareto_front ≡ s.pareto_front
      → AllFronts s
      → AllFronts t
  AllFronts-congr s t e f h = (rw f h.0, rw e h.1)

module _ {ℓ} {Real State System Input Resources Timespec World : Type ℓ} ⦃d : Double Real⦄
    ⦃c : Consumable Resources⦄ ⦃alg : Algorithms (Solution Real State Resources)⦄
    ⦃clock : Clock Real World⦄ (std : IsStandard (Solution Real State Resources))
    (P : Solution Real State Resources → Type 0) (algorithm : SearchAlgorithm)
    (m : Manager Real State (Mode System Input) Resources Timespec) (fuel : ℕ)
    (modes : List (Mode System Input)) (extends : Extends P algorithm m fuel modes)
    (initial : All P (map (initial_solution m) modes)) where
  passes-All :
      (left stride : ℕ) (s : Session Real State Resources World)
      → AllFronts P s
      → Ensures
          (λ t. All (λ f. All P f.solutions) t.result.pareto_fronts)
          (passes algorithm m fuel modes left stride s)
  unfolding passes
  passes-All zero stride s h = if-Ensures _ (ltb stride 1) _ _ h.1 tt
  passes-All (suc left) stride s h = if-Ensures _ (ltb stride 1) _ _ h.1 (
      >>=-Ensures _ _ (perform_search_n_iterations _ _ _ _ stride s.pareto_front s.world) _
        (n_iterations-All std P algorithm m fuel modes extends stride _ _ initial h.0)
        λ (front, world) f.
          let here = record_front front (record s { world = world }) in
          >>=-Ensures _ _ (pause_search m.interactive stride here) _
            (pause_search-Ensures m m.interactive stride here)
            λ (stride', u) (le, er, ef).
              let (timed_out, world') = clock.has_timeout u.world in
              let next = record u { world = world' } in
              let held =
                AllFronts-congr P here next er ef
                  (record_front-AllFronts P front (record s { world = world }) f h) in
              if-Ensures _ timed_out _ _ held.1 (passes-All left (stride' / 2) next held))

  -- If a property holds of the initial solutions and is kept by every extension of a solution, then
  -- whatever the stride, the clock and the keys: if `perform_search` returns, the property holds of
  -- all solutions of all fronts of its result.
  pub perform_search-All :
      ⦃deadline : Deadline Timespec World⦄
      → (iterations : ℕ) (world : World) (keys : List ℕ)
      → Ensures
          (λ r. All (λ f. All P f.solutions) r.pareto_fronts)
          (perform_search algorithm (some m) fuel modes iterations world keys)
  unfolding perform_search
  perform_search-All iterations world keys =
      then-Ensures _ (refuse_if (iterations == 0) zero_iterations) _ λ _.
        then-Ensures _ (init_stride algorithm iterations) _ λ stride.
          >>=-Ensures _ _ (passes _ _ _ _ _ _ _) _ (passes-All 32 stride _ (tt, tt)) λ s h. h

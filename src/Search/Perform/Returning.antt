-- ===== src/Search/Perform/Returning.antt =====
-- The search returns, whenever each extension of a solution does, as under the exhaustive and the
-- heuristic algorithm.
use flexman.Base.{
  ℕ, zero, suc, ◌/◌, ◌≤◌, ◌<◌, ◌^◌, ◌≡◌, true, false, some, List, map, All, ok, IsOk, >>=-IsOk,
  then-IsOk, if-IsOk, Returns, Returns-IsOk, Returns-Ensures, is_empty, ltb, Bool-cases, inl, inr,
  pos-ne-zero, arith,
}
use flexman.Double.{Double, Consumable}
use flexman.Core.Execution.{Mode}
use flexman.Core.Solution.{Solution}
use flexman.Core.Manager.{Manager}
use flexman.Search.Algorithms.{Algorithms, IsStandard}
use flexman.Search.Extension.{SearchAlgorithm, Clock, Deadline}
use flexman.Search.Iteration.{initial_solution, perform_search_n_iterations}
use flexman.Search.Iteration.Carried.{Extends, Runs, n_iterations-All}
use flexman.Search.Iteration.Returning.{IsOrdered, FitsUnsigned, n_iterations-IsOk}
use flexman.Search.Perform.{Session, record_front, passes, init_stride, perform_search}
use flexman.Search.Perform.Fronts.{IsSearched, perform_search-IsSearched}
use flexman.Search.Perform.Carried.{AllFronts, record_front-AllFronts}
use flexman.Search.Perform.Ending.{
  pow_half, init_stride-Ensures, init_stride-Returns, pause_search_off,
}

module _ {ℓ} {Real State System Input Resources Timespec World : Type ℓ} ⦃d : Double Real⦄
    ⦃c : Consumable Resources⦄ ⦃alg : Algorithms (Solution Real State Resources)⦄
    ⦃clock : Clock Real World⦄ (std : IsStandard (Solution Real State Resources))
    (P : Solution Real State Resources → Type 0) (algorithm : SearchAlgorithm)
    (m : Manager Real State (Mode System Input) Resources Timespec) (fuel : ℕ)
    (modes : List (Mode System Input)) (runs : Runs P algorithm m fuel modes)
    (ordered : IsOrdered {Real = Real} {State = State} P)
    (extends : Extends P algorithm m fuel modes) (initial : All P (map (initial_solution m) modes))
    (some_modes : is_empty modes ≡ false) (off : m.interactive ≡ false)
    (counts : FitsUnsigned m) where
  passes-IsOk :
      (left stride : ℕ) (s : Session Real State Resources World)
      → stride < 2 ^ left
      → AllFronts P s
      → IsOk (passes algorithm m fuel modes left stride s)
  unfolding passes
  passes-IsOk zero stride s h a =
      let none_left : ltb stride 1 ≡ true = ground arith in rw none_left tt
  passes-IsOk (suc left) stride s h a = elim (Bool-cases (ltb stride 1)) [
    | inl t ↦ rw t tt
    | inr t ↦
        let positive : 0 < stride = ground arith in
        rw t (
          >>=-IsOk _ (perform_search_n_iterations _ _ _ _ _ _ _) _
            (n_iterations-IsOk std P algorithm m fuel modes runs ordered extends some_modes counts
              stride positive s.pareto_front s.world initial a.0)
            (n_iterations-All std P algorithm m fuel modes extends stride _ _ initial a.0)
            λ (front, world) f.
              let recorded = record_front front (record s { world = world }) in
              let held = record_front-AllFronts P front (record s { world = world }) f a in
              let (timed_out, world') = clock.has_timeout recorded.world in
              let next = record recorded { world = world' } in
              rw (pause_search_off m.interactive stride recorded off) (
                if-IsOk timed_out (ok next) (passes algorithm m fuel modes left (stride / 2) next)
                  tt (passes-IsOk left (stride / 2) next (pow_half left stride h) held)))
  ]

  perform_search-IsOk :
      ⦃deadline : Deadline Timespec World⦄
      → (iterations : ℕ) → 0 < iterations
      → iterations ≤ 32
      → (world : World) (keys : List ℕ)
      → IsOk (perform_search algorithm (some m) fuel modes iterations world keys)
  unfolding perform_search
  perform_search-IsOk iterations some_iterations few world keys =
      rw (pos-ne-zero iterations some_iterations) (
        >>=-IsOk _ (init_stride algorithm iterations) _
          (Returns-IsOk _ (init_stride-Returns algorithm iterations few))
          (init_stride-Ensures algorithm iterations)
          λ stride (_, fits).
            then-IsOk (passes _ _ _ _ _ _ _) _ (passes-IsOk 32 stride _ fits (tt, tt)) λ s. tt)

  -- The search returns if each extension of a solution does.
  pub perform_search-Returns_if_Runs :
      ⦃deadline : Deadline Timespec World⦄
      → (iterations : ℕ) → 0 < iterations
      → iterations ≤ 32
      → (world : World) (keys : List ℕ)
      → Returns (IsSearched m) (perform_search algorithm (some m) fuel modes iterations world keys)
  perform_search-Returns_if_Runs iterations some_iterations few world keys =
      Returns-Ensures _ (perform_search _ _ _ _ _ _ _)
        (perform_search-IsOk iterations some_iterations few world keys)
        (perform_search-IsSearched std algorithm m fuel modes iterations world keys)

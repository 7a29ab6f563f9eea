-- ===== src/Search/Perform/Fronts.antt =====
-- The result of `perform_search`: its fronts, and the strides at which they were found.
use flexman.Base.{
  ℕ, zero, suc, ◌/◌, ◌≤◌, ◌<◌, ◌≡◌, refl, Bool, false, some, List, [], ◌∷◌, ◌++◌, All, All-append,
  All-map, Ensures, >>=-Ensures, then-Ensures, if-Ensures, is_empty, ltb, Bool-cases, inl, inr,
  arith, refuse_if, zero_iterations, ◌==◌,
}
use flexman.Double.{Double, Consumable}
use flexman.Core.Execution.{Mode}
use flexman.Core.Solution.{Solution, ParetoFront, Result}
use flexman.Core.Manager.{Manager}
use flexman.Search.Algorithms.{Algorithms, IsStandard}
use flexman.Search.Extension.{SearchAlgorithm, Clock, Deadline}
use flexman.Search.Iteration.{perform_search_n_iterations}
use flexman.Search.Iteration.Invariant.{IsFront, perform_search_n_iterations-Ensures}
use flexman.Search.Perform.{
  Session, record_front, pause_search, passes, init_stride, perform_search,
}

module _ {ℓ} {Real State Resources : Type ℓ} where
  -- Every front has a larger stride than those after it.
  abbrev pub IsFalling : List (ParetoFront Real State Resources) → Type 0
  IsFalling [] = Unit
  IsFalling (f ∷ fs) = All (λ g. g.steps_per_iteration < f.steps_per_iteration) fs × IsFalling fs

  IsFalling-append :
      (fs : List (ParetoFront Real State Resources)) (f : ParetoFront Real State Resources)
      → IsFalling fs
      → All (λ g. f.steps_per_iteration < g.steps_per_iteration) fs
      → IsFalling (fs ++ f ∷ [])
  IsFalling-append [] f h a = (tt, tt)
  IsFalling-append (g ∷ fs) f (h, hs) (a, as') =
      (All-append _ fs (f ∷ []) h (a, tt), IsFalling-append fs f hs as')

module _ {ℓ} {Real State Mode Resources Timespec : Type ℓ}
    (m : Manager Real State Mode Resources Timespec) where
  -- A front that is kept has solutions, all complete, none strictly better than another.
  abbrev pub IsKept : ParetoFront Real State Resources → Type 0
  IsKept f = IsFront m f.solutions × (is_empty f.solutions ≡ false)

  abbrev pub IsSearched : Result Real State Resources → Type 0
  IsSearched r = All IsKept r.pareto_fronts × IsFalling r.pareto_fronts

module _ {ℓ} {Real State Mode Resources Timespec World : Type ℓ}
    (m : Manager Real State Mode Resources Timespec) where
  -- The fronts that are kept have strides above the next one.
  record IsSound (stride : ℕ) (s : Session Real State Resources World) : Type ℓ where
    front : IsFront m s.pareto_front.solutions
    searched : IsSearched m s.result
    above : All (λ f. stride < f.steps_per_iteration) s.result.pareto_fronts

  IsSound-congr :
      (stride : ℕ) (s t : Session Real State Resources World)
      → t.result ≡ s.result
      → t.pareto_front ≡ s.pareto_front
      → IsSound stride s
      → IsSound stride t
  IsSound-congr stride s t e f v = record {
    front = rw f v.front;
    searched = rw e v.searched;
    above = rw e v.above;
  }

  module _ ⦃clock : Clock Real World⦄ where
    record_front-IsSound :
        (front : ParetoFront Real State Resources) (stride : ℕ)
        (s : Session Real State Resources World)
        → IsSound stride s
        → IsFront m front.solutions
        → front.steps_per_iteration ≡ stride
        → (low : ℕ) → low < stride
        → IsSound low (record_front front s)
    unfolding record_front
    record_front-IsSound front stride s v f e low h = elim (Bool-cases (is_empty front.solutions)) [
      | inl t ↦ rw t (record {
        front = f;
        searched = v.searched;
        above = All-map _ _ _ (λ g k. omega arith) v.above;
      })
      | inr t ↦ rw t (record {
        front = f;
        searched = (
          All-append (IsKept m) s.result.pareto_fronts _ v.searched.0 ((f, t), tt),
          IsFalling-append s.result.pareto_fronts _ v.searched.1 (rw e v.above),
        );
        above =
            All-append _ s.result.pareto_fronts _ (All-map _ _ _ (λ g k. omega arith) v.above)
              (omega arith, tt);
      })
    ]

    pub pause_search-Ensures :
        (interactive : Bool) (stride : ℕ) (s : Session Real State Resources World)
        → Ensures
            (λ r. (r.0 ≤ stride) × (r.1.result ≡ s.result) × (r.1.pareto_front ≡ s.pareto_front))
            (pause_search interactive stride s)
    unfolding pause_search
    pause_search-Ensures interactive stride s = ground arith

module _ {ℓ} {Real State System Input Resources Timespec World : Type ℓ} ⦃d : Double Real⦄
    ⦃c : Consumable Resources⦄ ⦃alg : Algorithms (Solution Real State Resources)⦄
    ⦃clock : Clock Real World⦄ (std : IsStandard (Solution Real State Resources))
    (algorithm : SearchAlgorithm) (m : Manager Real State (Mode System Input) Resources Timespec)
    (fuel : ℕ) (modes : List (Mode System Input)) where
  passes-IsSearched :
      (left stride : ℕ) (s : Session Real State Resources World)
      → IsSound m stride s
      → Ensures (λ t. IsSearched m t.result) (passes algorithm m fuel modes left stride s)
  unfolding passes
  passes-IsSearched zero stride s v = if-Ensures _ (ltb stride 1) _ _ v.searched tt
  passes-IsSearched (suc left) stride s v = elim (Bool-cases (ltb stride 1)) [
    | inl t ↦ rw t v.searched
    | inr t ↦ rw t (
        >>=-Ensures _ _ (perform_search_n_iterations _ _ _ _ stride s.pareto_front s.world) _
          (perform_search_n_iterations-Ensures std algorithm m fuel modes stride _ _ v.front)
          λ (front, world) (f, e).
            let here = record s { world = world } in
            >>=-Ensures _ _ (pause_search m.interactive stride (record_front front here)) _
              (pause_search-Ensures m m.interactive stride (record_front front here))
              λ (stride', u) (le, er, ef).
                let low : stride' / 2 < stride = ground arith in
                let w =
                  record_front-IsSound m front stride here
                    (IsSound-congr m stride s here refl refl v) f e (stride' / 2) low in
                let (timed_out, world') = clock.has_timeout u.world in
                let next = record u { world = world' } in
                let sound = IsSound-congr m (stride' / 2) (record_front front here) next er ef w in
                if-Ensures _ timed_out _ _ sound.searched
                  (passes-IsSearched left (stride' / 2) next sound))
  ]

  -- With `std::sort` and `std::partition` as C++ promises them: whatever the algorithm, the clock
  -- and the keys, if `perform_search` returns, every front of its result has solutions, all of
  -- them complete and none strictly better than another of the front, and the strides of the
  -- fronts fall from each front to the next.
  pub perform_search-IsSearched :
      ⦃deadline : Deadline Timespec World⦄
      → (iterations : ℕ) (world : World) (keys : List ℕ)
      → Ensures (IsSearched m) (perform_search algorithm (some m) fuel modes iterations world keys)
  unfolding perform_search
  perform_search-IsSearched iterations world keys =
      then-Ensures _ (refuse_if (iterations == 0) zero_iterations) _ λ _.
        then-Ensures _ (init_stride algorithm iterations) _ λ stride.
          >>=-Ensures _ _ (passes _ _ _ _ _ _ _) _
            (passes-IsSearched 32 stride _
              (record { front = (tt, tt); searched = (tt, tt); above = tt }))
            λ s h. h

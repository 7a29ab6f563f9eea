-- ===== src/Search/Perform/Counting.antt =====
-- How many fronts `perform_search` can find.
use native.Mathlib.Nat.{pow-le-pow_right, pow-suc}
use flexman.Base.{
  ℕ, zero, suc, ◌+◌, ◌-◌, ◌/◌, ◌^◌, ◌≤◌, ◌<◌, ◌≡◌, refl, true, some, List, length, length-append,
  Ensures, Ensures-map, >>=-Ensures, then-Ensures, if-Ensures, is_empty, ltb, leb, Bool-cases, inl,
  inr, arith, refuse_if, zero_iterations, ◌==◌,
}
use flexman.Double.{Double, Consumable}
use flexman.Core.Execution.{Mode}
use flexman.Core.Solution.{Solution, ParetoFront}
use flexman.Core.Manager.{Manager}
use flexman.Search.Algorithms.{Algorithms}
use flexman.Search.Extension.{
  SearchAlgorithm, exhaustive, heuristic, single_machine, Clock, Deadline,
}
use flexman.Search.Iteration.{perform_search_n_iterations}
use flexman.Search.Perform.{
  Session, record_front, pause_search, passes, shift_one, init_stride, perform_search,
}
use flexman.Search.Perform.Fronts.{pause_search-Ensures}
use flexman.Search.Perform.Ending.{pow_half}

shift_one-lt : (bits : ℕ) → Ensures (λ s. s < 2 ^ suc bits) (shift_one bits)
unfolding shift_one
shift_one-lt bits = elim (Bool-cases (leb 32 bits)) [
  | inl e ↦ rw e tt
  | inr e ↦
      let bottom : 2 ^ 0 ≤ 2 ^ bits =
        pow-le-pow_right {n = 2} (omega arith) {i = 0} (omega arith) in
      rw e (omega (arith, pow-suc 2 bits))
]

init_stride-lt :
    (algorithm : SearchAlgorithm) (left : ℕ)
    → Ensures (λ s. s < 2 ^ suc left) (init_stride algorithm (suc left))
unfolding init_stride
init_stride-lt single_machine left =
    let bottom : 2 ^ 0 ≤ 2 ^ left = pow-le-pow_right {n = 2} (omega arith) {i = 0} (omega arith) in
    omega (arith, pow-suc 2 left)
init_stride-lt exhaustive left =
    let same : suc left - 1 ≡ left = omega arith in rw same (shift_one-lt left)
init_stride-lt heuristic left =
    let same : suc left - 1 ≡ left = omega arith in rw same (shift_one-lt left)

module _ {ℓ} {Real State Resources World : Type ℓ} ⦃clock : Clock Real World⦄ where
  abbrev pub found : Session Real State Resources World → ℕ
  found s = length s.result.pareto_fronts

  pub record_front-found :
      (front : ParetoFront Real State Resources) (s : Session Real State Resources World)
      → found (record_front front s) ≤ found s + 1
  unfolding record_front
  record_front-found front s = elim (Bool-cases (is_empty front.solutions)) [
    | inl e ↦ rw e (omega arith)
    | inr e ↦ rw (e, length-append s.result.pareto_fronts) (omega arith)
  ]

module _ {ℓ} {Real State System Input Resources Timespec World : Type ℓ} ⦃d : Double Real⦄
    ⦃c : Consumable Resources⦄ ⦃alg : Algorithms (Solution Real State Resources)⦄
    ⦃clock : Clock Real World⦄ (algorithm : SearchAlgorithm)
    (m : Manager Real State (Mode System Input) Resources Timespec) (fuel : ℕ)
    (modes : List (Mode System Input)) where
  passes-found :
      (left more stride : ℕ) (s : Session Real State Resources World)
      → stride < 2 ^ more
      → Ensures (λ t. found t ≤ found s + more) (passes algorithm m fuel modes left stride s)
  unfolding passes
  passes-found zero more stride s h = if-Ensures _ (ltb stride 1) _ _ (omega arith) tt
  passes-found (suc left) zero stride s h =
      let low : ltb stride 1 ≡ true = ground arith in rw low (omega arith)
  passes-found (suc left) (suc more) stride s h = if-Ensures _ (ltb stride 1) _ _ (omega arith) (
      then-Ensures _ (perform_search_n_iterations _ _ _ _ stride s.pareto_front s.world) _
        λ (front, world).
          let start = record s { world = world } in
          let here = record_front front start in
          let grown = record_front-found front start in
          >>=-Ensures _ _ (pause_search m.interactive stride here) _
            (pause_search-Ensures m m.interactive stride here)
            λ (stride', u) (le, er, ef).
              let (timed_out, world') = clock.has_timeout u.world in
              let next = record u { world = world' } in
              let same : found u ≡ found here = rw er refl in
              if-Ensures _ timed_out _ _ (omega arith) (
                Ensures-map _ _ (passes algorithm m fuel modes left (stride' / 2) next)
                  (λ t k. omega arith)
                  (passes-found left more (stride' / 2) next
                    (pow_half more stride' (omega arith)))))

  -- If `perform_search` returns, its result has no more fronts than there were iterations asked for.
  pub perform_search-length :
      ⦃deadline : Deadline Timespec World⦄
      → (iterations : ℕ) (world : World) (keys : List ℕ)
      → Ensures
          (λ r. length r.pareto_fronts ≤ iterations)
          (perform_search algorithm (some m) fuel modes iterations world keys)
  unfolding perform_search
  perform_search-length zero world keys = tt
  perform_search-length (suc left) world keys =
      then-Ensures _ (refuse_if (suc left == 0) zero_iterations) _ λ _.
        >>=-Ensures _ _ (init_stride algorithm (suc left)) _ (init_stride-lt algorithm left)
          λ stride low.
            >>=-Ensures (λ s. found s ≤ 0 + suc left) _ (passes _ _ _ _ _ _ _) _
              (passes-found 32 (suc left) stride _ low) λ s h. omega arith

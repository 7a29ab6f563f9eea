-- ===== src/Search/Perform/Ending.antt =====
-- `perform_search` ends, and refuses bad arguments.
use native.Mathlib.Nat.{pow-suc, pow-le-pow_right}
use flexman.Base.{
  ℕ, suc, ◌-◌, ◌/◌, ◌^◌, ◌≤◌, ◌<◌, ◌≡◌, refl, Bool, false, some, none, List, [], Settles, Ensures,
  Returns, ltb, leb, Bool-cases, inl, inr, pos-ne-zero, arith, ok, throw, null_manager,
  zero_iterations, no_modes,
}
use flexman.Double.{Double, Consumable}
use flexman.Core.Execution.{Mode}
use flexman.Core.Solution.{Solution, ParetoFront}
use flexman.Core.Manager.{Manager}
use flexman.Search.Algorithms.{Algorithms}
use flexman.Search.Extension.{
  SearchAlgorithm, exhaustive, heuristic, single_machine, Clock, Deadline,
}
use flexman.Search.Iteration.{perform_search_n_iterations}
use flexman.Search.Perform.{Session, pause_search, passes, shift_one, init_stride, perform_search}

pub pow_half : (left stride : ℕ) → stride < 2 ^ suc left → stride / 2 < 2 ^ left
pow_half left stride h = omega (arith, pow-suc 2 left)

shift_one-Ensures : (bits : ℕ) → Ensures (λ s. (0 < s) × (s < 2 ^ 32)) (shift_one bits)
unfolding shift_one
shift_one-Ensures bits = elim (Bool-cases (leb 32 bits)) [
  | inl e ↦ rw e tt
  | inr e ↦
      let small : bits ≤ 31 = ground arith in
      let top : 2 ^ bits ≤ 2 ^ 31 = pow-le-pow_right {n = 2} (omega arith) small in
      let bottom : 2 ^ 0 ≤ 2 ^ bits =
        pow-le-pow_right {n = 2} (omega arith) {i = 0} (omega arith) in
      rw e (omega arith, omega arith)
]

-- If the first stride is defined, it is positive and fits 32 bits.
pub init_stride-Ensures :
    (algorithm : SearchAlgorithm) (iterations : ℕ)
    → Ensures (λ s. (0 < s) × (s < 2 ^ 32)) (init_stride algorithm iterations)
unfolding init_stride
init_stride-Ensures single_machine iterations = omega arith
init_stride-Ensures exhaustive iterations = shift_one-Ensures (iterations - 1)
init_stride-Ensures heuristic iterations = shift_one-Ensures (iterations - 1)

shift_one-Settles : (bits : ℕ) → Settles (shift_one bits)
unfolding shift_one
shift_one-Settles bits = elim (Bool-cases (leb 32 bits)) [ inl e ↦ rw e refl | inr e ↦ rw e tt ]

pub init_stride-Settles :
    (algorithm : SearchAlgorithm) (iterations : ℕ) → Settles (init_stride algorithm iterations)
unfolding init_stride
init_stride-Settles single_machine iterations = tt
init_stride-Settles exhaustive iterations = shift_one-Settles (iterations - 1)
init_stride-Settles heuristic iterations = shift_one-Settles (iterations - 1)

shift_one-Returns : (bits : ℕ) → bits ≤ 31 → Returns (λ s. 0 < s) (shift_one bits)
unfolding shift_one
shift_one-Returns bits h =
    let small : leb 32 bits ≡ false = ground arith in
    let bottom : 2 ^ 0 ≤ 2 ^ bits = pow-le-pow_right {n = 2} (omega arith) {i = 0} (omega arith) in
    (2 ^ bits, rw small refl, omega arith)

pub init_stride-Returns :
    (algorithm : SearchAlgorithm) (iterations : ℕ)
    → iterations ≤ 32
    → Returns (λ s. 0 < s) (init_stride algorithm iterations)
unfolding init_stride
init_stride-Returns single_machine iterations h = (1, refl, omega arith)
init_stride-Returns exhaustive iterations h = shift_one-Returns (iterations - 1) (omega arith)
init_stride-Returns heuristic iterations h = shift_one-Returns (iterations - 1) (omega arith)

module _ {ℓ} {Real State Resources World : Type ℓ} ⦃clock : Clock Real World⦄ where
  -- Without the interactive mode there is no pause.
  pub pause_search_off :
      (interactive : Bool) (stride : ℕ) (s : Session Real State Resources World)
      → interactive ≡ false
      → pause_search interactive stride s ≡ ok (stride, s)
  unfolding pause_search
  pause_search_off interactive stride s h = ground arith

module _ {ℓ} {Real State System Input Resources Timespec World : Type ℓ} ⦃d : Double Real⦄
    ⦃c : Consumable Resources⦄ ⦃alg : Algorithms (Solution Real State Resources)⦄
    ⦃clock : Clock Real World⦄ (algorithm : SearchAlgorithm)
    (m : Manager Real State (Mode System Input) Resources Timespec) (fuel : ℕ)
    (modes : List (Mode System Input)) where
  n_iterations_no_modes :
      (stride : ℕ) (previous : ParetoFront Real State Resources) (world : World)
      → 0 < stride
      → perform_search_n_iterations algorithm (some m) fuel [] stride previous world
        ≡ throw no_modes
  unfolding perform_search_n_iterations
  n_iterations_no_modes stride previous world h = rw (pos-ne-zero stride h) refl

  passes_no_modes :
      (left stride : ℕ) (s : Session Real State Resources World)
      → 0 < stride
      → passes algorithm m fuel [] (suc left) stride s ≡ throw no_modes
  unfolding passes
  passes_no_modes left stride s h =
      let again : ltb stride 1 ≡ false = ground arith in
      rw (again, n_iterations_no_modes stride s.pareto_front s.world h) refl

  -- `perform_search` refuses a null manager; with a manager it refuses zero iterations; and with
  -- one to 32 iterations it refuses an empty vector of modes.
  perform_search_refuses :
      ⦃deadline : Deadline Timespec World⦄
      → (iterations : ℕ) (world : World) (keys : List ℕ)
      → (perform_search {Real = Real} {State = State} {System = System} {Input = Input}
            {Resources = Resources} {Timespec = Timespec} algorithm none fuel modes iterations world
            keys
          ≡ throw null_manager)
        × (perform_search algorithm (some m) fuel modes 0 world keys ≡ throw zero_iterations)
        × (0 < iterations
            → iterations ≤ 32
            → perform_search algorithm (some m) fuel [] iterations world keys ≡ throw no_modes)
  unfolding perform_search
  perform_search_refuses iterations world keys = (
    refl,
    refl,
    λ h l.
        let (stride, e, positive) = init_stride-Returns algorithm iterations l in
        rw (pos-ne-zero iterations h, e, passes_no_modes 31 stride _ positive) refl,
  )

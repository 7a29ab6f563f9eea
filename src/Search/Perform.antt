-- ===== src/Search/Perform.antt =====
-- search/search.hpp: `perform_search`. The keys that the user will press are a list; the loop that
-- waits for one of 'c', 'r' and 'q' is still running when the list ends before it.
pub mod Fronts
pub mod Carried
pub mod SingleMachine
pub mod Counting
pub mod Ending
pub mod Returning
pub mod Stationary
pub mod Quitting
pub mod Runtimes
pub mod Resuming
use flexman.Base.{
  ℕ, zero, suc, ◌-◌, ◌/◌, ◌^◌, Bool, true, false, not, ◌&&◌, if◌then◌else◌, Option, none, some,
  ◌==◌, ltb, leb, List, [], ◌∷◌, ◌++◌, is_empty, Outcome, ok, throw, running, ◌>>=◌, ◌>>◌,
  refuse_if, or_throw, null_manager, zero_iterations, undefined,
}
use flexman.Double.{Double, Consumable}
use flexman.Core.Execution.{Mode}
use flexman.Core.Solution.{Solution, ParetoFront, Result}
use flexman.Core.Manager.{Manager}
use flexman.Search.Algorithms.{Algorithms}
use flexman.Search.Extension.{
  SearchAlgorithm, exhaustive, heuristic, single_machine, Clock, Deadline,
}
use flexman.Search.Iteration.{perform_search_n_iterations}

pub data Key : Type 0 where
  continue resume quit : Key

-- The `do ... while (true)` around `wait_for_keypress`.
unfoldable pub read_key : List ℕ → Option (Key × List ℕ)
read_key [] = none
read_key (k ∷ ks) =
    let rest = read_key ks in
    if k == b'c'
    then some (continue, ks)
    else if k == b'r'
    then some (resume, ks)
    else if k == b'q'
    then some (quit, ks)
    else rest

-- What a pass of the outer loop changes.
pub record Session {ℓ} (Real State Resources World : Type ℓ) : Type ℓ where
  pub pareto_front : ParetoFront Real State Resources
  pub result : Result Real State Resources
  pub disable_interactive : Bool
  pub world : World
  pub keys : List ℕ

-- `1U << bits`, undefined from 32 bits on.
unfoldable pub shift_one : ℕ → Outcome ℕ
shift_one bits = if leb 32 bits then throw undefined else ok (2 ^ bits)

-- The stride of the first pass.
unfoldable pub init_stride : SearchAlgorithm → (iterations : ℕ) → Outcome ℕ
init_stride single_machine iterations = ok 1
init_stride exhaustive iterations = shift_one (iterations - 1)
init_stride heuristic iterations = shift_one (iterations - 1)

-- The stride after the key, which 'q' sets to zero.
abbrev pub stride_after : Key → ℕ → ℕ
stride_after quit stride = 0
stride_after continue stride = stride
stride_after resume stride = stride

abbrev pub disabled_after : Key → Bool → Bool
disabled_after resume b = true
disabled_after continue b = b
disabled_after quit b = b

module _ {ℓ} {Real State Resources World : Type ℓ} ⦃clock : Clock Real World⦄ where
  -- A front with solutions is kept, with the time on the global timer as its runtime.
  unfoldable pub record_front :
      ParetoFront Real State Resources
      → Session Real State Resources World
      → Session Real State Resources World
  record_front front s =
      let (runtime, world) = clock.elapsed s.world in
      let timed = record front { runtime = runtime } in
      if is_empty front.solutions then record s { pareto_front = front } else (record s {
        pareto_front = timed;
        result = record { pareto_fronts = s.result.pareto_fronts ++ timed ∷ [] };
        world = world;
      })

  unfoldable pub pause_search :
      (interactive : Bool) (stride : ℕ)
      → Session Real State Resources World
      → Outcome (ℕ × Session Real State Resources World)
  pause_search interactive stride s =
      let asked : Outcome (ℕ × Session Real State Resources World) = elim (read_key s.keys) [
        | none ↦ running
        | some (key, keys) ↦ ok (
          stride_after key stride,
          record s {
            disable_interactive = disabled_after key s.disable_interactive;
            world = clock.start (clock.pause s.world);
            keys = keys;
          },
        )
      ] in
      if not s.disable_interactive && interactive then asked else ok (stride, s)

module _ {ℓ} {Real State Resources : Type ℓ} ⦃d : Double Real⦄ where
  -- The front that the first pass starts from; C++ leaves its numbers uninitialised.
  abbrev pub no_front : ParetoFront Real State Resources
  no_front = record {
    solutions = [];
    step_length = d.of_ℕ 0;
    steps_per_iteration = 0;
    iteration = 0;
    runtime = d.of_ℕ 0;
  }

module _ {ℓ} {Real State System Input Resources Timespec World : Type ℓ} ⦃d : Double Real⦄
    ⦃c : Consumable Resources⦄ ⦃alg : Algorithms (Solution Real State Resources)⦄
    ⦃clock : Clock Real World⦄ where
  -- The `for` over the strides, with `passes` to go at most.
  unfoldable pub passes :
      SearchAlgorithm
      → Manager Real State (Mode System Input) Resources Timespec
      → (fuel : ℕ) (modes : List (Mode System Input))
      → (left stride : ℕ) (s : Session Real State Resources World)
      → Outcome (Session Real State Resources World)
  passes algorithm m fuel modes zero stride s = if ltb stride 1 then ok s else running
  passes algorithm m fuel modes (suc left) stride s =
      let pass = do
        (front, world) ←
            perform_search_n_iterations algorithm (some m) fuel modes stride s.pareto_front s.world
        (stride', t) ←
            pause_search m.interactive stride (record_front front (record s { world = world }))
        let (timed_out, world') = clock.has_timeout t.world
        let u = record t { world = world' }
        let more = passes algorithm m fuel modes left (stride' / 2) u
        if timed_out then ok u else more
      in if ltb stride 1 then ok s else pass

  -- A stride fits 32 bits, so 32 passes are enough.
  unfoldable pub perform_search :
      ⦃deadline : Deadline Timespec World⦄
      → SearchAlgorithm
      → Option (Manager Real State (Mode System Input) Resources Timespec)
      → (fuel : ℕ) (modes : List (Mode System Input)) (iterations : ℕ)
      → (world : World) (keys : List ℕ) → Outcome (Result Real State Resources)
  perform_search ⦃deadline⦄ algorithm manager fuel modes iterations world keys = do
    m ← or_throw manager null_manager
    refuse_if (iterations == 0) zero_iterations
    let timed = if deadline.is_set m.timeout then deadline.set_timeout m.timeout world else world
    stride ← init_stride algorithm iterations
    s ← passes algorithm m fuel modes 32 stride (record {
      pareto_front = no_front;
      result = record { pareto_fronts = [] };
      disable_interactive = false;
      world = clock.start timed;
      keys = keys;
    })
    ok s.result

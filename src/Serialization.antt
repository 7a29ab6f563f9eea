-- ===== src/Serialization.antt =====
-- include/flexman/serialization.hpp: the operators `<<` and `>>` between the types of core and the
-- nodes of the json library. The operators for vectors are the library's, and parameters.
pub mod RoundTrips
use flexman.Base.{ℕ, Bool, List, [], ◌∷◌, Outcome, ok, throw, ◌>>=◌, uncompilable}
use flexman.Json.{Json, Serial, read_member}
use flexman.Json.Objects.{◌≪◌, write_object}
use flexman.Core.Execution.{Mode, ModeExecution}
use flexman.Core.Solution.{Solution, ParetoFront, Result}
use flexman.Core.Manager.{Members}

module _ {ℓ} {Node : Type ℓ} ⦃j : Json Node⦄ where
  module _ {System Input : Type ℓ} ⦃number : Serial Node ℕ⦄ ⦃system : Serial Node System⦄
      ⦃input : Serial Node Input⦄ where
    unfoldable pub write_mode : Mode System Input → Node → Node
    write_mode rhs =
        write_object (("id" ≪ rhs.id) ∷ ("system" ≪ rhs.system) ∷ ("input" ≪ rhs.input) ∷ [])

    unfoldable pub read_mode : Node → Mode System Input → Outcome (Mode System Input)
    read_mode lhs rhs = do
      id' ← read_member lhs "id" rhs.id
      system' ← read_member lhs "system" rhs.system
      input' ← read_member lhs "input" rhs.input
      ok (record { id = id'; system = system'; input = input' })

  module _ ⦃number : Serial Node ℕ⦄ where
    unfoldable pub write_execution : ModeExecution → Node → Node
    write_execution rhs = write_object (("mode" ≪ rhs.mode) ∷ ("times" ≪ rhs.times) ∷ [])

    unfoldable pub read_execution : Node → ModeExecution → Outcome ModeExecution
    read_execution lhs rhs = do
      mode' ← read_member lhs "mode" rhs.mode
      times' ← read_member lhs "times" rhs.times
      ok (record { mode = mode'; times = times' })

  module _ {Real State Resources : Type ℓ} ⦃sequence : Serial Node (List ModeExecution)⦄
      ⦃state : Serial Node State⦄ ⦃resources : Serial Node Resources⦄ where
    -- The distance is not written.
    unfoldable pub write_solution : Solution Real State Resources → Node → Node
    write_solution rhs =
        write_object
          (("sequence" ≪ rhs.sequence) ∷ ("state" ≪ rhs.state) ∷ ("resources" ≪ rhs.resources) ∷ [])

  module _ {Real State Resources : Type ℓ} where
    -- A vector is read into default elements, and `ModeExecution` has no default constructor: no
    -- instance of the body compiles.
    unfoldable pub read_solution :
        Node → Solution Real State Resources → Outcome (Solution Real State Resources)
    read_solution lhs rhs = throw uncompilable

  module _ {Real State Resources : Type ℓ} ⦃number : Serial Node ℕ⦄ ⦃real : Serial Node Real⦄
      ⦃solutions : Serial Node (List (Solution Real State Resources))⦄ where
    unfoldable pub write_pareto_front : ParetoFront Real State Resources → Node → Node
    write_pareto_front rhs = write_object (
        ("solutions" ≪ rhs.solutions)
        ∷ ("step_length" ≪ rhs.step_length)
        ∷ ("steps_per_iteration" ≪ rhs.steps_per_iteration)
        ∷ ("iteration" ≪ rhs.iteration)
        ∷ ("runtime" ≪ rhs.runtime)
        ∷ [])

  module _ {Real State Resources : Type ℓ} where
    -- The body names a member `step`, which the struct lacks: no instance of it compiles.
    unfoldable pub read_pareto_front :
        Node → ParetoFront Real State Resources → Outcome (ParetoFront Real State Resources)
    read_pareto_front lhs rhs = throw uncompilable

  module _ {Real State Resources : Type ℓ}
      ⦃fronts : Serial Node (List (ParetoFront Real State Resources))⦄ where
    unfoldable pub write_result : Result Real State Resources → Node → Node
    write_result rhs = write_object (("pareto_fronts" ≪ rhs.pareto_fronts) ∷ [])

  module _ {Real State Resources : Type ℓ} where
    -- The fronts are read one by one, by the operator above: no instance of the body compiles.
    unfoldable pub read_result :
        Node → Result Real State Resources → Outcome (Result Real State Resources)
    read_result lhs rhs = throw uncompilable

  module _ {Real State Timespec : Type ℓ} ⦃real : Serial Node Real⦄ ⦃flag : Serial Node Bool⦄
      ⦃state : Serial Node State⦄ ⦃timespec : Serial Node Timespec⦄ where
    unfoldable pub write_manager : Members Real State Timespec → Node → Node
    write_manager rhs = write_object (
        ("initial_state" ≪ rhs.initial_state)
        ∷ ("target_state" ≪ rhs.target_state)
        ∷ ("time_delta" ≪ rhs.time_delta)
        ∷ ("time_max" ≪ rhs.time_max)
        ∷ ("threshold" ≪ rhs.threshold)
        ∷ ("timeout" ≪ rhs.timeout)
        ∷ ("interactive" ≪ rhs.interactive)
        ∷ [])

    unfoldable pub read_manager :
        Node → Members Real State Timespec → Outcome (Members Real State Timespec)
    read_manager lhs rhs = do
      initial_state' ← read_member lhs "initial_state" rhs.initial_state
      target_state' ← read_member lhs "target_state" rhs.target_state
      time_delta' ← read_member lhs "time_delta" rhs.time_delta
      time_max' ← read_member lhs "time_max" rhs.time_max
      threshold' ← read_member lhs "threshold" rhs.threshold
      timeout' ← read_member lhs "timeout" rhs.timeout
      interactive' ← read_member lhs "interactive" rhs.interactive
      ok (record {
        initial_state = initial_state';
        target_state = target_state';
        time_delta = time_delta';
        time_max = time_max';
        threshold = threshold';
        timeout = timeout';
        interactive = interactive';
      })

-- ===== src/Serialization/RoundTrips.antt =====
-- What the operators of serialization.hpp read back of what they wrote.
use flexman.Base.{ℕ, ◌≡◌, refl, Bool, ok}
use flexman.Json.{Json, IsJson, Serial, RoundTrips}
use flexman.Json.Objects.{read_member-write_object}
use flexman.Core.Execution.{Mode, ModeExecution}
use flexman.Core.Manager.{Members}
use flexman.Serialization.{
  write_mode, read_mode, write_execution, read_execution, write_manager, read_manager,
}

module _ {ℓ} {Node : Type ℓ} ⦃j : Json Node⦄ (laws : IsJson Node) where
  module _ ⦃number : Serial Node ℕ⦄ (numbers : RoundTrips number) where
    read_execution-write_execution :
        (a old : ModeExecution) (n : Node) → read_execution (write_execution a n) old ≡ ok a
    unfolding read_execution write_execution
    read_execution-write_execution a old n =
        rw
          (
            read_member-write_object laws _ numbers "mode" _ n a.mode _ refl refl,
            read_member-write_object laws _ numbers "times" _ n a.times _ refl refl,
          )
          refl

    module _ {System Input : Type ℓ} ⦃system : Serial Node System⦄ ⦃input : Serial Node Input⦄
        (systems : RoundTrips system) (inputs : RoundTrips input) where
      -- If the nodes hold what is written, and numbers, systems and inputs read back as they were
      -- written, then so do modes.
      pub read_mode-write_mode :
          (a old : Mode System Input) (n : Node) → read_mode (write_mode a n) old ≡ ok a
      unfolding read_mode write_mode
      read_mode-write_mode a old n =
          rw
            (
              read_member-write_object laws _ numbers "id" _ n a.id _ refl refl,
              read_member-write_object laws _ systems "system" _ n a.system _ refl refl,
              read_member-write_object laws _ inputs "input" _ n a.input _ refl refl,
            )
            refl

  module _ {Real State Timespec : Type ℓ} ⦃real : Serial Node Real⦄ ⦃flag : Serial Node Bool⦄
      ⦃state : Serial Node State⦄ ⦃timespec : Serial Node Timespec⦄ (reals : RoundTrips real)
      (flags : RoundTrips flag) (states : RoundTrips state) (timespecs : RoundTrips timespec) where
    -- If the nodes hold what is written, and numbers, flags, states and timeouts read back as they
    -- were written, then so do the seven data members of a manager.
    pub read_manager-write_manager :
        (a old : Members Real State Timespec) (n : Node)
        → read_manager (write_manager a n) old ≡ ok a
    unfolding read_manager write_manager
    read_manager-write_manager a old n =
        rw
          (
            read_member-write_object laws _ states "initial_state" _ n a.initial_state _ refl refl,
            read_member-write_object laws _ states "target_state" _ n a.target_state _ refl refl,
            read_member-write_object laws _ reals "time_delta" _ n a.time_delta _ refl refl,
            read_member-write_object laws _ reals "time_max" _ n a.time_max _ refl refl,
            read_member-write_object laws _ reals "threshold" _ n a.threshold _ refl refl,
            read_member-write_object laws _ timespecs "timeout" _ n a.timeout _ refl refl,
            read_member-write_object laws _ flags "interactive" _ n a.interactive _ refl refl,
          )
          refl

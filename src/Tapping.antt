-- ===== src/Tapping.antt =====
-- examples/tapping/resources.hpp and the two managers of examples/tapping/search.hpp. The vectors,
-- the matrices and the tolerant comparisons of fsmlib and the integrator of numint are parameters.
pub mod Systems
pub mod Storage
pub mod Comparisons
pub mod Updates
pub mod Texts
use flexman.Base.{ℕ, zero, suc, ◌+◌, Bool, false, not, ◌&&◌, ◌||◌, if◌then◌else◌}
use flexman.Double.{Double, Consumable, Metered, ◌⊕◌, ◌⊖◌, ◌⊗◌, ◌⊘◌, ◌≺◌, ◌≼◌}
use flexman.Core.Execution.{Mode, sequence_eq}
use flexman.Core.Solution.{Solution}
use flexman.Core.Manager.{Manager}

-- `fsmlib::feq`
pub record Tolerant {ℓ} (Real : Type ℓ) : Type ℓ where
  pub approximately_equal : Real → Real → Bool
  pub approximately_lesser_than_equal : Real → Real → Bool

-- `operator[]` of `fsmlib::Vector` to read and to write, and its `size`.
pub record Indexed {ℓ} (Real Vector : Type ℓ) : Type ℓ where
  pub at : Vector → ℕ → Real
  pub put : Vector → ℕ → Real → Vector
  pub size : Vector → ℕ

-- `fsmlib::multiply` by the matrices `A` and `B` of a state space, and the sum of two vectors.
pub record Linear {ℓ} (Vector System : Type ℓ) : Type ℓ where
  pub multiply_a : System → Vector → Vector
  pub multiply_b : System → Vector → Vector
  pub plus : Vector → Vector → Vector

-- `numint::integrate_fixed` with the stepper of Runge and Kutta: the derivative, the state, the time
-- from and to which it runs, its step, and the condition on which it stops. It gives the state.
pub record Integrator {ℓ} (Real Vector : Type ℓ) : Type ℓ where
  pub integrate_fixed :
      (Vector → Vector) → Vector → (from to step_size : Real) → (Vector → Bool) → Vector

pub record Resources {ℓ} (Real : Type ℓ) : Type ℓ where
  pub energy : Real
  pub time : Real

module _ {ℓ} {Real : Type ℓ} ⦃d : Double Real⦄ ⦃t : Tolerant Real⦄ where
  -- `operator==`
  unfoldable pub resources_eq : Resources Real → Resources Real → Bool
  resources_eq a b = t.approximately_equal a.energy b.energy && t.approximately_equal a.time b.time

  -- `operator!=`, which does not look at the time.
  unfoldable pub resources_ne : Resources Real → Resources Real → Bool
  resources_ne a b = not (t.approximately_equal a.energy b.energy)

  -- `operator<=`
  unfoldable pub resources_le : Resources Real → Resources Real → Bool
  resources_le a b =
      t.approximately_lesser_than_equal a.energy b.energy
      && t.approximately_lesser_than_equal a.time b.time

  -- `operator<`
  unfoldable pub resources_lt : Resources Real → Resources Real → Bool
  resources_lt a b =
      if not (t.approximately_equal a.energy b.energy) then a.energy ≺ b.energy else a.time ≺ b.time

  instance abbrev pub tapping_resources : Consumable (Resources Real)
  tapping_resources = record {
    fresh = record { energy = d.of_ℕ 0; time = d.of_ℕ 0 };
    beq = resources_eq;
    less = resources_lt;
  }

instance abbrev pub tapping_meters {ℓ} : {Real : Type ℓ} → Metered Real (Resources Real)
tapping_meters = record { energy = λ r. r.energy; time = λ r. r.time }

module _ {ℓ} {Real : Type ℓ} ⦃d : Double Real⦄ where
  unfoldable pub interpolate_resources : Resources Real → Resources Real → Real → Resources Real
  interpolate_resources r0 r1 rel = record {
    energy = r0.energy ⊕ rel ⊗ (r1.energy ⊖ r0.energy);
    time = r0.time ⊕ rel ⊗ (r1.time ⊖ r0.time);
  }

module _ {ℓ} {Real Vector : Type ℓ} ⦃d : Double Real⦄ ⦃v : Indexed Real Vector⦄ where
  -- The `for` with `left` indices to go, from `i` on.
  unfoldable pub interpolate_entries :
      (s0 s1 : Vector) (rel : Real) (left i : ℕ) (interpolated_state : Vector) → Vector
  interpolate_entries s0 s1 rel zero i x = x
  interpolate_entries s0 s1 rel (suc left) i x =
      interpolate_entries s0 s1 rel left (i + 1)
        (v.put x i (v.at s0 i ⊕ rel ⊗ (v.at s1 i ⊖ v.at s0 i)))

  unfoldable pub interpolate_state : Vector → Vector → Real → Vector
  interpolate_state s0 s1 rel = interpolate_entries s0 s1 rel (v.size s0) 0 s0

  unfoldable pub distance : (target_state : Vector) → Solution Real Vector (Resources Real) → Real
  distance target_state s = v.at target_state 2 ⊖ v.at s.state 2

  unfoldable pub is_complete :
      (target_state : Vector) (threshold : Real) → Solution Real Vector (Resources Real) → Bool
  is_complete target_state threshold s = distance target_state s ≺ threshold

module _ {ℓ} {Real Vector : Type ℓ} ⦃d : Double Real⦄ ⦃t : Tolerant Real⦄
    ⦃v : Indexed Real Vector⦄ where
  unfoldable pub is_strictly_better_than :
      (target_state : Vector) (threshold : Real) (x y : Solution Real Vector (Resources Real))
      → Bool
  is_strictly_better_than target_state threshold x y =
      if sequence_eq x.sequence y.sequence
      then false
      else is_complete target_state threshold x
        && resources_le x.resources y.resources
        && resources_ne x.resources y.resources

  unfoldable pub is_probably_better_than :
      (target_state : Vector) (x y : Solution Real Vector (Resources Real)) → Bool
  is_probably_better_than target_state x y =
      let xd = distance target_state x in
      let yd = distance target_state y in
      if sequence_eq x.sequence y.sequence
      then false
      else if xd ≼ yd && resources_le x.resources y.resources
      then xd ≺ yd || resources_lt x.resources y.resources
      else false

module _ {ℓ} {Real Vector : Type ℓ} ⦃d : Double Real⦄ ⦃t : Tolerant Real⦄ where
  unfoldable pub is_equal : (x y : Solution Real Vector (Resources Real)) → Bool
  is_equal x y = sequence_eq x.sequence y.sequence || resources_eq x.resources y.resources

module _ {ℓ} {Vector System : Type ℓ} ⦃lin : Linear Vector System⦄ where
  -- `A x + B u`
  unfoldable pub flow : Mode System Vector → Vector → Vector
  flow mode x = lin.plus (lin.multiply_a mode.system x) (lin.multiply_b mode.system mode.input)

module _ {ℓ} {Real Vector System : Type ℓ} ⦃d : Double Real⦄ ⦃v : Indexed Real Vector⦄ where
  -- The new state given, the updates of the distance, the energy and the time.
  unfoldable pub account :
      (target_state : Vector) (time_delta : Real)
      → (state : Vector) → Mode System Vector
      → Solution Real Vector (Resources Real)
      → Solution Real Vector (Resources Real)
  account target_state time_delta state mode s =
      let moved = record s { state = state } in
      record moved {
        distance = distance target_state moved;
        resources = record {
          energy = s.resources.energy ⊕ v.at state 1 ⊗ v.at mode.input 0 ⊗ time_delta;
          time = s.resources.time ⊕ time_delta;
        };
      }

  module _ ⦃lin : Linear Vector System⦄ where
    unfoldable pub discrete_updated_solution :
        (target_state : Vector) (time_delta : Real)
        → Solution Real Vector (Resources Real)
        → Mode System Vector
        → Solution Real Vector (Resources Real)
    discrete_updated_solution target_state time_delta s mode =
        account target_state time_delta (flow mode s.state) mode s

    unfoldable pub continuous_updated_solution :
        ⦃int : Integrator Real Vector⦄
        → (target_state : Vector) (time_delta threshold : Real)
        → Solution Real Vector (Resources Real)
        → Mode System Vector
        → Solution Real Vector (Resources Real)
    continuous_updated_solution ⦃int⦄ target_state time_delta threshold s mode =
        let now = s.resources.time in
        account target_state time_delta
          (int.integrate_fixed (flow mode) s.state now (now ⊕ time_delta) (time_delta ⊘ d.of_ℕ 100)
            (λ x. v.at target_state 2 ⊖ v.at x 2 ≺ threshold))
          mode s

-- The classes of the two searches, with their data members.
module _ {ℓ} {Real Vector System Timespec : Type ℓ} ⦃d : Double Real⦄ ⦃t : Tolerant Real⦄
    ⦃v : Indexed Real Vector⦄ ⦃lin : Linear Vector System⦄ (initial_state target_state : Vector)
    (time_delta time_max threshold : Real) (timeout : Timespec) (interactive : Bool) where
  abbrev pub discrete_search : Manager Real Vector (Mode System Vector) (Resources Real) Timespec
  discrete_search = record {
    initial_state = initial_state;
    target_state = target_state;
    time_delta = time_delta;
    time_max = time_max;
    threshold = threshold;
    timeout = timeout;
    interactive = interactive;
    updated_solution = discrete_updated_solution target_state time_delta;
    is_complete = is_complete target_state threshold;
    distance = distance target_state;
    is_strictly_better_than = is_strictly_better_than target_state threshold;
    is_probably_better_than = is_probably_better_than target_state;
    is_equal = is_equal;
    interpolate_resources = interpolate_resources;
    interpolate_state = interpolate_state;
  }

  abbrev pub continuous_search :
      ⦃int : Integrator Real Vector⦄
      → Manager Real Vector (Mode System Vector) (Resources Real) Timespec
  continuous_search = record discrete_search {
    updated_solution = continuous_updated_solution target_state time_delta threshold;
  }

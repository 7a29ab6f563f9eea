-- ===== src/Examples/Returning.antt =====
-- The searches return: a press counts its strokes, and solutions are ordered by the number of strokes
-- in their sequences.
use flexman.Base.{ℕ, ◌+◌, ◌-◌, ◌%◌, ◌≡◌, Bool, false, ◌&&◌, List, [], ◌∷◌, ◌==◌, ltb, leb, size_mod}
use flexman.Core.Execution.{ModeExecution, sequence_eq}
use flexman.Core.Solution.{Solution, solution_eq}
use flexman.Core.Manager.{Manager}
use flexman.Search.Algorithms.{implies, equivalent}
use flexman.Search.Algorithms.Insertion.{insertion}
use flexman.Tapping.{Resources, tapping_resources, tapping_meters}
use flexman.Program.Execute.{Options, default_options}
use flexman.Examples.Tapped.{exact, literals}
use flexman.Plant.{numbers, Gear, ticking, untimed}

abbrev Pressed : Type 0
Pressed = Solution ℕ ℕ (Resources ℕ)

-- A press that holds still between two strokes.
abbrev press : (depth : ℕ) → Manager ℕ ℕ Gear (Resources ℕ) ℕ
press depth = record {
  initial_state = 0;
  target_state = depth;
  time_delta = 400;
  time_max = 4000;
  threshold = 100_000;
  timeout = 0;
  interactive = false;
  updated_solution = λ s g. record s {
    state = s.state + g.system;
    distance = depth - (s.state + g.system);
    resources = record { energy = (s.resources.energy + 1) % size_mod; time = 0 };
  };
  is_complete = λ s. leb depth s.state;
  distance = λ s. depth - s.state;
  is_strictly_better_than = λ a b. leb depth a.state && ltb a.resources.energy b.resources.energy;
  is_probably_better_than = λ a b. leb b.state a.state && ltb a.resources.energy b.resources.energy;
  is_equal = λ a b. sequence_eq a.sequence b.sequence;
  interpolate_resources = λ a b rel. a;
  interpolate_state = λ a b rel. a;
}

abbrev total : List ModeExecution → ℕ
total [] = 0
total (e ∷ s) = e.times + total s

-- The strokes of a solution are those of its sequence.
abbrev IsCounted : Pressed → Type 0
IsCounted s = (s.resources.energy ≡ total s.sequence % size_mod) × (s.resources.time ≡ 0)

-- Both orders of the solutions are that of their strokes.
abbrev counts_less : Pressed → Pressed → Bool
counts_less a b = ltb a.resources.energy b.resources.energy

-- What `strict_weak_on` asks of three solutions.
abbrev between : (Pressed → Pressed → Bool) → Pressed → Pressed → Pressed → Bool
between lt x y z =
    implies (lt x y && lt y z) (lt x z)
    && implies (equivalent lt x y && equivalent lt y z) (equivalent lt x z)

-- Two solutions are equal if their strokes are.
abbrev counts_same : Pressed → Pressed → Bool
counts_same a b = a.resources.energy == b.resources.energy

-- What `equivalence_on` asks of three solutions.
abbrev relates : Pressed → Pressed → Pressed → Bool
relates x y z =
    implies (solution_eq x y) (solution_eq y x)
    && implies (solution_eq x y && solution_eq y z) (solution_eq x z)

abbrev asked : Options ℕ
asked = record default_options { interactive = false; pso = false; iterations = 2 }

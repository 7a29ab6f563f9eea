-- ===== src/Plant.antt =====
-- A small plant on which the tests run: whole numbers for `double`, a depth for the state, and a
-- time and an energy for the resources. A mode drills `system` units deep at a cost of `input`.
use native.Mathlib.Nat.{le-div_iff_mul-le}
use flexman.Base.{
  ℕ, zero, suc, ◌+◌, ◌-◌, ◌*◌, ◌/◌, ◌≤◌, ◌<◌, ◌≡◌, sym, subst, false, ap, not, ◌&&◌, ◌||◌,
  if◌then◌else◌, ◌==◌, ltb, leb, some, none, map, All, All-map, unsigned_mod, size_mod, List, [],
  ◌∷◌, arith,
}
use flexman.Double.{Double, Consumable, Metered, max_of}
use flexman.Core.Execution.{execution, Mode, sequence_eq}
use flexman.Core.Solution.{Solution}
use flexman.Core.Manager.{Manager}
use flexman.Search.Interpolation.{interpolation_step}
use flexman.Search.Perform.SingleMachine.{IsNumbered}
use flexman.Search.Interpolation.Sampling.{time_after}
use flexman.Search.Iteration.{initial_solution}
use flexman.Search.Iteration.Steady.{IsSteady}
use flexman.Swarm.Ending.{IsReplayable}
use flexman.Search.Extension.{Clock, Deadline}

-- A distance saturates at the highest number.
instance abbrev pub numbers : Double ℕ
numbers = record {
  of_ℕ = λ n. n;
  highest = 1_000_000;
  add = ◌+◌;
  sub = ◌-◌;
  mul = ◌*◌;
  div = ◌/◌;
  abs = λ a. if ltb 1_000_000 a then 1_000_000 else a;
  lt = ltb;
  le = leb;
  to_unsigned = λ a. if ltb a unsigned_mod then some a else none;
  to_size = λ a. if ltb a size_mod then some a else none;
}

pub record Cost : Type 0 where
  pub energy : ℕ
  pub time : ℕ

abbrev pub cost : ℕ → ℕ → Cost
cost e t = record { energy = e; time = t }

instance abbrev pub costs : Consumable Cost
costs = record {
  fresh = cost 0 0;
  beq = λ a b. a.energy == b.energy && a.time == b.time;
  less = λ a b. ltb a.energy b.energy || (a.energy == b.energy && ltb a.time b.time);
}

instance abbrev pub meters : Metered ℕ Cost
meters = record { energy = λ r. r.energy; time = λ r. r.time }

abbrev pub Drilled : Type 0
Drilled = Solution ℕ ℕ Cost

abbrev pub Gear : Type 0
Gear = Mode ℕ ℕ

abbrev pub gear : ℕ → ℕ → ℕ → Gear
gear n speed power = record { id = n; system = speed; input = power }

-- A target at `depth`, and rounds of `delta` units of time.
abbrev pub drill : (delta depth : ℕ) → Manager ℕ ℕ Gear Cost ℕ
drill delta depth = record {
  initial_state = 0;
  target_state = depth;
  time_delta = delta;
  time_max = 10 * delta;
  threshold = 100_000;
  timeout = 0;
  interactive = false;
  updated_solution = λ s g. record s {
    state = s.state + g.system;
    distance = depth - (s.state + g.system);
    resources = cost (s.resources.energy + g.input) (s.resources.time + delta);
  };
  is_complete = λ s. leb depth s.state;
  distance = λ s. depth - s.state;
  is_strictly_better_than = λ a b.
      leb depth a.state
      && leb a.resources.energy b.resources.energy
      && leb a.resources.time b.resources.time
      && not (a.resources.energy == b.resources.energy && a.resources.time == b.resources.time);
  is_probably_better_than = λ a b. leb b.state a.state && ltb a.resources.energy b.resources.energy;
  is_equal = λ a b. sequence_eq a.sequence b.sequence;
  interpolate_resources = λ a b rel. if rel == 0 then a else b;
  interpolate_state = λ a b rel. if rel == 0 then a else b;
}

-- Time passes by one at every query, and a limit is a number of queries.
abbrev pub Ticks : Type 0
Ticks = ℕ

instance abbrev pub ticking : Clock ℕ Ticks
ticking = record {
  start = λ w. w;
  pause = λ w. w;
  has_timeout = λ w. (false, w + 1);
  elapsed = λ w. (w, w + 1);
  start_pareto = λ w. w;
  elapsed_pareto = λ w. (w, w + 1);
}

instance abbrev pub untimed : Deadline ℕ Ticks
untimed = record { is_set = λ t. not (t == 0); set_timeout = λ t w. w }

abbrev pub gears : List Gear
gears = gear 0 2 1 ∷ gear 1 3 2 ∷ []

pub time_after-mul : (step k t : ℕ) → time_after step k t ≡ t + step * k
time_after-mul step zero t = omega arith
time_after-mul step (suc k) t = rw (time_after-mul step k (t + step)) (omega arith)

quotient-ge : (c : ℕ) → 0 < c → c ≤ 100 → 4 ≤ 400 / c
quotient-ge c h l = (le-div_iff_mul-le h).1 (omega arith)

saturated-le : (a : ℕ) → numbers.abs a ≤ 1_000_000
saturated-le a = ground arith

divisor-le : (q : ℕ) → q ≤ 10 → (0 < 10 * max_of 1 q) × (10 * max_of 1 q ≤ 100)
divisor-le q h = ground arith

past : (step : ℕ) → 4 ≤ step → leb (time_after step 101 0) 400 ≡ false
past step h = rw (time_after-mul step 101 0) (ground arith)

module _ {State Mode Resources Timespec : Type 0} (m : Manager ℕ State Mode Resources Timespec)
    (delta : m.time_delta ≡ 400) (threshold : m.threshold ≡ 100_000) where
  -- With a round of 400 units, the step of the interpolation is at least 4.
  step-ge : (s : Solution ℕ State Resources) → 4 ≤ interpolation_step m s
  unfolding interpolation_step
  step-ge s =
      let low : numbers.abs s.distance ≤ 1_000_000 = saturated-le s.distance in
      let bounds = divisor-le (numbers.abs s.distance / 100_000) (omega arith) in
      rw (delta, threshold) (quotient-ge _ bounds.0 bounds.1)

  pub steps_pass :
      (s : Solution ℕ State Resources)
      → (n : ℕ) × (n < 102) × (leb (time_after (interpolation_step m s) n 0) m.time_delta ≡ false)
  steps_pass s = (
    101,
    omega arith,
    subst (λ x. leb (time_after (interpolation_step m s) 101 0) x ≡ false) (sym delta)
        (past (interpolation_step m s) (step-ge s)),
  )

everywhere {ℓ} : {A : Type ℓ} (xs : List A) → All (λ (x : A). Unit {0}) xs
everywhere [] = tt
everywhere (x ∷ xs) = (tt, everywhere xs)

module _ {State System Input Resources Timespec : Type 0} ⦃c : Consumable Resources⦄
    (m : Manager ℕ State (Mode System Input) Resources Timespec) (delta : m.time_delta ≡ 400)
    (threshold : m.threshold ≡ 100_000) where
  -- So every interpolation ends.
  pub steady : (modes : List (Mode System Input)) → IsSteady (λ s. Unit) m 102 modes
  steady modes = record {
    initial = everywhere (map (initial_solution m) modes);
    kept = All-map _ _ modes (λ mode h s k. (tt, λ done t e. tt)) (everywhere modes);
    ends = All-map _ _ modes (λ mode h s k done. steps_pass m delta threshold s) (everywhere modes);
  }

  pub replayable : (modes : List (Mode System Input)) → IsReplayable (λ s. Unit) m 102 modes
  replayable modes = record {
    initial = tt;
    kept = λ number mode s at h. (tt, λ done t e. tt);
    ends = λ number mode s at h done. steps_pass m delta threshold s;
  }

-- Solutions that drilled to a depth at a cost.
abbrev pub drilled : (depth energy time : ℕ) → Drilled
drilled depth e t = record {
  sequence = execution 0 depth ∷ [];
  state = depth;
  resources = cost e t;
  distance = 6 - depth;
}

-- The state after one round of the first gear and one of the second.
abbrev pub deep : Drilled
deep = record {
  sequence = execution 0 1 ∷ execution 1 1 ∷ [];
  state = 5;
  resources = cost 3 800;
  distance = 4;
}

pub gears-IsNumbered : IsNumbered gears
gears-IsNumbered zero mode e = let same : gear 0 2 1 ≡ mode = cc in ap (λ g. g.id) (sym same)
gears-IsNumbered (suc zero) mode e = let same : gear 1 3 2 ≡ mode = cc in ap (λ g. g.id) (sym same)
gears-IsNumbered (suc (suc i)) mode e = cc

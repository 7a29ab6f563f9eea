-- ===== src/Examples/Tapped.antt =====
-- The theorems of Tapping at work: whole numbers for `double`, lists for the vectors, and a system
-- that adds its input, times a gain, to its state.
use flexman.Base.{
  ℕ, zero, suc, ◌+◌, ◌*◌, ◌≡◌, refl, true, false, some, List, [], ◌∷◌, ◌++◌, map, ltb, leb, ◌==◌,
  Returns, arith,
}
use flexman.Core.Execution.{Mode, execution}
use flexman.Core.Execution.Laws.{executions}
use flexman.Core.Solution.{Solution}
use flexman.Core.Manager.{Manager}
use flexman.Search.Interpolation.{advance, simulate_mode}
use flexman.Search.Interpolation.Simulating.{StaysPartial}
use flexman.Search.Extension.{heuristic}
use flexman.Search.Dominance.{better}
use flexman.Tapping.{
  Tolerant, Indexed, Linear, Resources, distance, is_complete, flow, account,
  discrete_updated_solution, discrete_search, is_probably_better_than, resources_le, resources_lt,
}
use flexman.Tapping.Systems.{Literals}
use flexman.Tapping.Comparisons.{better-asymmetric}
use flexman.Tapping.Updates.{simulate_mode-discrete_search}
use flexman.Plant.{numbers}

instance abbrev pub exact : Tolerant ℕ
exact = record { approximately_equal = ◌==◌; approximately_lesser_than_equal = leb }

-- A literal keeps its digits.
instance abbrev pub literals : Literals ℕ
literals = record { decimal = λ n k. n; negate = λ n. n }

abbrev pub entry : List ℕ → ℕ → ℕ
entry [] i = 0
entry (x ∷ xs) zero = x
entry (x ∷ xs) (suc i) = entry xs i

abbrev pub replaced : List ℕ → ℕ → ℕ → List ℕ
replaced [] i a = []
replaced (x ∷ xs) zero a = a ∷ xs
replaced (x ∷ xs) (suc i) a = x ∷ replaced xs i a

abbrev pub measure : List ℕ → ℕ
measure [] = 0
measure (x ∷ xs) = suc (measure xs)

instance abbrev pub lists : Indexed ℕ (List ℕ)
lists = record { at = entry; put = replaced; size = measure }

abbrev pub sum : List ℕ → List ℕ → List ℕ
sum (x ∷ xs) (y ∷ ys) = (x + y) ∷ sum xs ys
sum _ _ = []

instance abbrev gains : Linear (List ℕ) ℕ
gains = record { multiply_a = λ g x. x; multiply_b = λ g u. map (λ a. g * a) u; plus = sum }

abbrev pub Tapped : Type 0
Tapped = Solution ℕ (List ℕ) (Resources ℕ)

abbrev pub tapped : (mode depth energy time : ℕ) → Tapped
tapped mode depth e t = record {
  sequence = execution mode 1 ∷ [];
  state = 0 ∷ 1 ∷ depth ∷ [];
  resources = record { energy = e; time = t };
  distance = 0;
}

abbrev tap : Mode ℕ (List ℕ)
tap = record { id = 7; system = 2; input = 1 ∷ 0 ∷ 1 ∷ [] }

abbrev bench : Manager ℕ (List ℕ) (Mode ℕ (List ℕ)) (Resources ℕ) ℕ
bench = discrete_search (0 ∷ 0 ∷ 0 ∷ []) (0 ∷ 0 ∷ 9 ∷ []) 4 40 2 0 false

lesser_antisym : (a b : ℕ) → leb a b ≡ true → leb b a ≡ true → (a == b) ≡ true
lesser_antisym a b h k = ground arith

lt_asymm : (a b : ℕ) → ltb a b ≡ true → ltb b a ≡ false
lt_asymm a b h = ground arith

lt_not_le : (a b : ℕ) → ltb a b ≡ true → leb b a ≡ false
lt_not_le a b h = ground arith

deeper : better heuristic bench (tapped 0 5 3 4) (tapped 1 4 3 6) ≡ true
unfolding is_probably_better_than resources_le resources_lt distance
deeper = refl

better-asymmetric_example : better heuristic bench (tapped 1 4 3 6) (tapped 0 5 3 4) ≡ false
better-asymmetric_example =
    better-asymmetric lesser_antisym lt_asymm lt_not_le ℕ {Timespec = ℕ} (0 ∷ 0 ∷ 0 ∷ [])
      (0 ∷ 0 ∷ 9 ∷ []) 4 40 2 0 false heuristic (tapped 0 5 3 4) (tapped 1 4 3 6) deeper

taps : StaysPartial bench tap 2 (tapped 7 1 0 0)
unfolding advance discrete_updated_solution account flow is_complete distance
taps = (refl, (refl, tt))

simulate_mode-discrete_search_example :
    Returns
      (λ r.
        (executions r.sequence ≡ (7 ∷ []) ++ 7 ∷ 7 ∷ [])
        × (r.resources.time ≡ 8)
        × (r.distance ≡ distance (0 ∷ 0 ∷ 9 ∷ []) r))
      (simulate_mode (some bench) 20 tap 2 (tapped 7 1 0 0))
simulate_mode-discrete_search_example =
    simulate_mode-discrete_search (0 ∷ 0 ∷ 0 ∷ []) (0 ∷ 0 ∷ 9 ∷ []) 4 40 2 0 false tap 20 1
      (tapped 7 1 0 0) (omega arith) (omega arith, tt) taps

-- ===== src/Search/Perform/SingleMachine.antt =====
-- The single-machine algorithm never switches: every sequence has one entry.
use flexman.Base.{
  or_throw-Ensures, ℕ, suc, ◌+◌, ◌%◌, ◌<◌, length, arith, get_elem?-lt, All-map, Ensures-map, ◌≡◌,
  refl, sym, ap, subst, ◌∙◌, true, some, List, [], ◌∷◌, map, All, get_elem?, back, Ensures,
  >>=-Ensures, or_throw, undefined, ◌==◌, ==_iff, size_mod,
}
use flexman.Double.{Double, Consumable}
use flexman.Core.Execution.{Mode, execution, add_mode_execution_to_sequence}
use flexman.Core.Solution.{Solution}
use flexman.Core.Manager.{Manager, KeepsSequence}
use flexman.Search.Algorithms.{Algorithms, IsStandard}
use flexman.Search.Extension.{single_machine, Clock, Deadline, extend_one, extend_last}
use flexman.Search.Interpolation.{interpolated, advance, simulate_mode}
use flexman.Search.Iteration.{initial_solution}
use flexman.Search.Iteration.Carried.{Extends}
use flexman.Search.Iteration.Stepwise.{simulate_mode-Ensures}
use flexman.Search.Perform.{perform_search}
use flexman.Search.Perform.Carried.{perform_search-All}

counted_once :
    (n t : ℕ)
    → add_mode_execution_to_sequence n (execution n t ∷ []) ≡ execution n ((t + 1) % size_mod) ∷ []
unfolding add_mode_execution_to_sequence
counted_once n t = let same : (n == n) ≡ true = (==_iff n n).1 refl in rw same refl

module _ {ℓ} {Real State Resources : Type ℓ} where
  abbrev pub HasOnly : ℕ → Solution Real State Resources → Type 0
  HasOnly n s = (t : ℕ) × (s.sequence ≡ execution n t ∷ [])

  -- The sequence has one entry.
  abbrev pub IsSingle : Solution Real State Resources → Type 0
  IsSingle s = (n : ℕ) × HasOnly n s

  -- The one entry names a mode of the vector.
  abbrev pub IsInPlace {κ} : {Mode : Type κ} → List Mode → Solution Real State Resources → Type 0
  IsInPlace modes s = (n : ℕ) × (n < length modes) × HasOnly n s

-- A mode's number is its place in the vector.
abbrev pub IsNumbered {ℓ} : {System Input : Type ℓ} → List (Mode System Input) → Type ℓ
IsNumbered {System = System} {Input = Input} modes =
    (i : ℕ) (mode : Mode System Input) → get_elem? modes i ≡ some mode → mode.id ≡ i

IsNumbered-All {ℓ} :
    {System Input : Type ℓ} (modes : List (Mode System Input))
    → IsNumbered modes
    → All (λ mode. mode.id < length modes) modes
IsNumbered-All {System = System} {Input = Input} modes numbered =
    go modes λ i mode e. omega (arith, numbered i mode e, get_elem?-lt modes i mode e)
  where
    go :
        (ms : List (Mode System Input))
        → ((i : ℕ) (mode : Mode System Input) → get_elem? ms i ≡ some mode → mode.id < length modes)
        → All (λ mode. mode.id < length modes) ms
    go [] h = tt
    go (mode ∷ ms) h = (h 0 mode refl, go ms (λ i. h (suc i)))

module _ {ℓ} {Real State System Input Resources Timespec : Type ℓ} ⦃d : Double Real⦄
    (m : Manager Real State (Mode System Input) Resources Timespec) (fuel : ℕ) where
  module _ (keep : KeepsSequence m) where
    advance-HasOnly :
        (mode : Mode System Input) (s : Solution Real State Resources)
        → HasOnly mode.id s
        → HasOnly mode.id (advance m mode s)
    unfolding advance
    advance-HasOnly mode s (t, e) =
        ((t + 1) % size_mod, rw (keep s mode, e) (counted_once mode.id t))

    module _ (modes : List (Mode System Input)) (numbered : IsNumbered modes) where
      extend_last-IsInPlace :
          (steps : ℕ) (partial : Solution Real State Resources)
          → IsInPlace modes partial
          → Ensures (All (IsInPlace modes)) (extend_last (some m) fuel steps partial modes)
      unfolding extend_last interpolated
      extend_last-IsInPlace steps partial (n, l, (t, e)) =
          >>=-Ensures (λ last. last ≡ execution n t) _ (or_throw (back partial.sequence) undefined)
            _ (rw e refl)
            λ last same.
              >>=-Ensures _ _ (or_throw (get_elem? modes last.mode) undefined) _
                (or_throw-Ensures _ _)
                λ mode at_last.
                  let id : mode.id ≡ n = numbered last.mode mode at_last ∙ ap (λ x. x.mode) same in
                  let here : HasOnly mode.id partial =
                    subst (λ i. HasOnly i partial) (sym id) (t, e) in
                  >>=-Ensures (HasOnly mode.id) _ (simulate_mode (some m) fuel mode steps partial) _
                    (simulate_mode-Ensures (HasOnly mode.id) m fuel mode
                      (λ s h. (advance-HasOnly mode s h, λ done t e. h)) steps partial here)
                    λ r k. ((mode.id, subst (λ i. i < length modes) (sym id) l, k), tt)

      pub initial-IsInPlace :
          ⦃c : Consumable Resources⦄ → All (IsInPlace modes) (map (initial_solution m) modes)
      unfolding initial_solution
      initial-IsInPlace = go modes (IsNumbered-All modes numbered)
        where
          go :
              (ms : List (Mode System Input))
              → All (λ mode. mode.id < length modes) ms
              → All (IsInPlace modes) (map (initial_solution m) ms)
          go [] h = tt
          go (mode ∷ ms) (h, hs) = ((mode.id, h, (0, refl)), go ms hs)

      pub extends-IsInPlace : Extends (IsInPlace modes) single_machine m fuel modes
      unfolding extend_one
      extends-IsInPlace = extend_last-IsInPlace

      -- With `std::sort` and `std::partition` as C++ promises them: if `updated_solution`
      -- leaves the sequence alone, the modes are numbered by their places, and
      -- `perform_search` returns under the single-machine algorithm, then each solution of
      -- each front has a sequence of one entry: it never switches its mode.
      pub perform_search-IsSingle :
          {World : Type ℓ} ⦃c : Consumable Resources⦄
          ⦃alg : Algorithms (Solution Real State Resources)⦄ ⦃clock : Clock Real World⦄
          ⦃deadline : Deadline Timespec World⦄
          → IsStandard (Solution Real State Resources)
          → (iterations : ℕ) (world : World) (keys : List ℕ)
          → Ensures
              (λ r. All (λ f. All IsSingle f.solutions) r.pareto_fronts)
              (perform_search single_machine (some m) fuel modes iterations world keys)
      perform_search-IsSingle std iterations world keys =
          Ensures-map _ _ (perform_search single_machine (some m) fuel modes iterations world keys)
            (λ r h.
              All-map _ _ r.pareto_fronts (λ f k. All-map _ _ f.solutions (λ s (n, l, e). (n, e)) k)
                h)
            (perform_search-All std (IsInPlace modes) single_machine m fuel modes extends-IsInPlace
              initial-IsInPlace iterations world keys)

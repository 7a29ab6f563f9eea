-- ===== src/Core/Execution/Laws.antt =====
-- A sequence as the run-length code of the modes that were executed.
use mathlib.Core.Path.{ap₂}
use flexman.Base.{
  true, not, ◌↔◌, subst, ℕ, zero, suc, ◌+◌, ◌%◌, ◌<◌, ◌≡◌, refl, ap, sym, List, [], ◌∷◌, ◌++◌, ◌==◌,
  ==_iff, All, Bool-cases, inl, inr, size_mod, arith,
}
use flexman.Core.Execution.{
  execution, execution_eq, execution_ne, sequence_eq, ModeExecution, add_mode_execution_to_sequence,
}
use mathlib.Core.List.{append-nil, append_assoc}

abbrev pub replicate {ℓ} : {A : Type ℓ} → ℕ → A → List A
replicate zero a = []
replicate (suc n) a = a ∷ replicate n a

-- The modes in the order of their execution, each as often as it was executed.
abbrev pub executions : List ModeExecution → List ℕ
executions [] = []
executions (e ∷ s) = replicate e.times e.mode ++ executions s

-- No counter wraps in the next `k` executions.
abbrev pub HasRoom : ℕ → List ModeExecution → Type 0
HasRoom k = All (λ e. e.times + k < size_mod)

replicate-suc {ℓ} : {A : Type ℓ} (n : ℕ) (a : A) → replicate (suc n) a ≡ replicate n a ++ a ∷ []
replicate-suc zero a = refl
replicate-suc (suc n) a = ap (◌∷◌ a) (replicate-suc n a)

pub replicate-append {ℓ} :
    {A : Type ℓ} (n : ℕ) (a : A) (xs : List A)
    → (xs ++ a ∷ []) ++ replicate n a ≡ xs ++ replicate (suc n) a
replicate-append n a xs = append_assoc xs (a ∷ []) (replicate n a)

counted :
    (e : ModeExecution)
    → e.times + 1 < size_mod
    → replicate ((e.times + 1) % size_mod) e.mode ++ []
      ≡ (replicate e.times e.mode ++ []) ++ e.mode ∷ []
counted e h =
    let next : (e.times + 1) % size_mod ≡ suc e.times = omega arith in
    rw (next, append-nil (replicate e.times e.mode)) (replicate-suc e.times e.mode)

-- If no counter of the sequence is at the highest `size_t`, `add_mode_execution_to_sequence`
-- appends one execution of the mode to those that the sequence stands for.
pub executions-add_mode_execution :
    (m : ℕ) (s : List ModeExecution)
    → HasRoom 1 s
    → executions (add_mode_execution_to_sequence m s) ≡ executions s ++ m ∷ []
unfolding add_mode_execution_to_sequence
executions-add_mode_execution m [] h = refl
executions-add_mode_execution m (e ∷ []) h = elim (Bool-cases (e.mode == m)) [
  | inl t ↦ rw (t, ← (==_iff e.mode m).0 t) (counted e h.0)
  | inr t ↦ rw t (rw (append-nil (replicate e.times e.mode)) refl)
]
executions-add_mode_execution m (e ∷ f ∷ s) (h, hs) =
    rw (executions-add_mode_execution m (f ∷ s) hs)
      (sym (append_assoc (replicate e.times e.mode) (executions (f ∷ s)) (m ∷ [])))

pub HasRoom-add_mode_execution :
    (k m : ℕ) (s : List ModeExecution)
    → suc k < size_mod
    → HasRoom (suc k) s
    → HasRoom k (add_mode_execution_to_sequence m s)
unfolding add_mode_execution_to_sequence
HasRoom-add_mode_execution k m [] b h = (omega arith, tt)
HasRoom-add_mode_execution k m (e ∷ []) b h = elim (Bool-cases (e.mode == m)) [
  | inl t ↦ rw t (omega arith, tt)
  | inr t ↦ rw t (omega arith, (omega arith, tt))
]
HasRoom-add_mode_execution k m (e ∷ f ∷ s) b (h, hs) =
    (omega arith, HasRoom-add_mode_execution k m (f ∷ s) b hs)

pub HasRoom-mono : (k : ℕ) (s : List ModeExecution) → HasRoom (suc k) s → HasRoom 1 s
HasRoom-mono k [] h = tt
HasRoom-mono k (e ∷ s) (h, hs) = (omega arith, HasRoom-mono k s hs)

execution_eq-true : (a b : ModeExecution) → execution_eq a b ≡ true → a ≡ b
execution_eq-true a b h =
    let mode : a.mode ≡ b.mode = ground arith in
    let times : a.times ≡ b.times = ground arith in ap₂ execution mode times

execution_eq_refl : (a : ModeExecution) → execution_eq a a ≡ true
execution_eq_refl a = ground arith

sequence_eq_refl : (s : List ModeExecution) → sequence_eq s s ≡ true
sequence_eq_refl [] = refl
sequence_eq_refl (a ∷ s) = rw (execution_eq_refl a, sequence_eq_refl s) refl

sequence_eq-true : (s t : List ModeExecution) → sequence_eq s t ≡ true → s ≡ t
sequence_eq-true [] [] h = refl
sequence_eq-true [] (b ∷ t) h = cc
sequence_eq-true (a ∷ s) [] h = cc
sequence_eq-true (a ∷ s) (b ∷ t) h =
    let heads : execution_eq a b ≡ true = ground arith in
    let tails : sequence_eq s t ≡ true = ground arith in
    ap₂ ◌∷◌ (execution_eq-true a b heads) (sequence_eq-true s t tails)

-- Two sequences are `==` just if they are the same, and two executions are `!=` just if they are not
-- `==`.
pub sequence_eq_iff :
    (s t : List ModeExecution) (a b : ModeExecution)
    → ((sequence_eq s t ≡ true) ↔ (s ≡ t)) × (execution_ne a b ≡ not (execution_eq a b))
sequence_eq_iff s t a b = (
  (sequence_eq-true s t, λ e. subst (λ u. sequence_eq s u ≡ true) e (sequence_eq_refl s)),
  ground arith,
)

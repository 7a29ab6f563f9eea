-- ===== src/Core/Execution.antt =====
-- core/mode.hpp and core/mode_execution.hpp.
pub mod Laws
use flexman.Base.{
  ℕ, ◌+◌, ◌%◌, Bool, true, false, not, ◌&&◌, ◌||◌, List, [], ◌∷◌, ◌==◌, if◌then◌else◌, size_mod,
}

pub record Mode {ℓ} (System Input : Type ℓ) : Type ℓ where
  pub id : ℕ
  pub system : System
  pub input : Input

pub record ModeExecution : Type 0 where
  pub mode : ℕ
  pub times : ℕ

abbrev pub execution : ℕ → ℕ → ModeExecution
execution m t = record { mode = m; times = t }

-- `operator==`
abbrev pub execution_eq : ModeExecution → ModeExecution → Bool
execution_eq a b = a.mode == b.mode && a.times == b.times

-- `operator!=`
abbrev pub execution_ne : ModeExecution → ModeExecution → Bool
execution_ne a b = not (a.mode == b.mode) || not (a.times == b.times)

-- `==` of two `std::vector<ModeExecution>`
abbrev pub sequence_eq : List ModeExecution → List ModeExecution → Bool
sequence_eq [] [] = true
sequence_eq (a ∷ s) (b ∷ t) = execution_eq a b && sequence_eq s t
sequence_eq _ _ = false

-- The last element, `sequence.back()`, is the one that is compared and counted up.
unfoldable pub add_mode_execution_to_sequence : ℕ → List ModeExecution → List ModeExecution
add_mode_execution_to_sequence m [] = execution m 1 ∷ []
add_mode_execution_to_sequence m (e ∷ []) =
    if not (e.mode == m)
    then e ∷ execution m 1 ∷ []
    else (record e { times = (e.times + 1) % size_mod } ∷ [])
add_mode_execution_to_sequence m (e ∷ f ∷ s) = e ∷ add_mode_execution_to_sequence m (f ∷ s)

-- ===== src/Simulation/Replay.antt =====
-- `generate_solution`: what a replay of a sequence does, as steps of one execution each.
use mathlib.Core.List.{append-nil, append_assoc}
use flexman.Base.{
  ℕ, zero, suc, ◌<◌, ◌≡◌, refl, sym, subst, ◌∙◌, false, some, List, [], ◌∷◌, ◌++◌, get_elem?,
  length, ok, size_mod, arith,
}
use flexman.Double.{Double, Consumable}
use flexman.Core.Execution.{ModeExecution}
use flexman.Core.Execution.Laws.{
  replicate, executions, HasRoom, HasRoom-mono, executions-add_mode_execution,
  HasRoom-add_mode_execution,
}
use flexman.Core.Solution.{Solution}
use flexman.Core.Manager.{Manager, KeepsSequence}
use flexman.Simulation.{empty_solution, replay_step, replay_rounds, replay, generate_solution}

module _ {ℓ} {Real State Mode Resources Timespec : Type ℓ}
    (m : Manager Real State Mode Resources Timespec) (modes : List Mode) ⦃d : Double Real⦄ where
  -- From one solution to another by executions of the numbered modes, none of which completes it.
  pub data Follows
      : List ℕ → Solution Real State Resources → Solution Real State Resources → Type ℓ where
    stop : {s : Solution Real State Resources} → Follows [] s s
    go :
        {n : ℕ} {ns : List ℕ} {mode : Mode} {s t : Solution Real State Resources}
        → get_elem? modes n ≡ some mode
        → m.is_complete (replay_step m n mode s) ≡ false
        → Follows ns (replay_step m n mode s) t
        → Follows (n ∷ ns) s t

  -- The replay of the rest passes through the solution where the executions of this entry end.
  replay_rounds-Follows :
      (fuel n k : ℕ) (ns : List ℕ) (s t : Solution Real State Resources)
      → Follows (replicate k n ++ ns) s t
      → (u : Solution Real State Resources) × (replay_rounds m fuel n modes k s ≡ ok u)
        × Follows ns u t
  unfolding replay_rounds
  replay_rounds-Follows fuel n zero ns s t f = (s, refl, f)
  replay_rounds-Follows fuel n (suc k) ns s t (go {mode = mode} e h f) =
      let (u, eq, g) = replay_rounds-Follows fuel n k ns (replay_step m n mode s) t f in
      (u, rw (e, h) eq, g)

  replay-Follows :
      (fuel : ℕ) (sequence : List ModeExecution) (s t : Solution Real State Resources)
      → Follows (executions sequence) s t
      → replay m fuel modes sequence s ≡ ok t
  unfolding replay
  replay-Follows fuel [] s t stop = refl
  replay-Follows fuel (e ∷ sequence) s t f =
      let (u, eq, g) = replay_rounds-Follows fuel e.mode e.times (executions sequence) s t f in
      rw eq (replay-Follows fuel sequence u t g)

  executions-Follows :
      KeepsSequence m
      → (ns : List ℕ) (s t : Solution Real State Resources) → Follows ns s t
      → length ns < size_mod
      → HasRoom (length ns) s.sequence
      → executions t.sequence ≡ executions s.sequence ++ ns
  unfolding replay_step
  executions-Follows keep [] s t stop b room = rw (append-nil (executions s.sequence))
  executions-Follows keep (n ∷ ns) s t (go {mode = mode} e h f) b room =
      let held = subst (HasRoom (suc (length ns))) (sym (keep s mode)) room in
      executions-Follows keep ns (replay_step m n mode s) t f (omega arith)
        (HasRoom-add_mode_execution (length ns) n _ b held)
      ∙ rw (executions-add_mode_execution n _ (HasRoom-mono (length ns) _ held), keep s mode)
          (append_assoc (executions s.sequence) (n ∷ []) ns)

  -- If `updated_solution` leaves the sequence alone, the executions of a sequence, one after the
  -- other, lead from the empty solution to another without completing it, and there are fewer
  -- than 2^64 of them, then `generate_solution` returns that solution, and the executions in its
  -- sequence are those of the given one.
  pub generate_solution-Follows :
      ⦃c : Consumable Resources⦄
      → KeepsSequence m
      → (fuel : ℕ) (sequence : List ModeExecution) (t : Solution Real State Resources)
      → Follows (executions sequence) (empty_solution m) t
      → length (executions sequence) < size_mod
      → (generate_solution (some m) fuel modes sequence ≡ ok t)
        × (executions t.sequence ≡ executions sequence)
  unfolding generate_solution empty_solution
  generate_solution-Follows keep fuel sequence t f b =
      (replay-Follows fuel sequence _ t f, executions-Follows keep _ _ t f b tt)

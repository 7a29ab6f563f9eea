-- ===== src/Search/Logs.antt =====
-- `log_solutions` of search/common.hpp. The loggers of quire are a parameter: a logger has a level,
-- and `qlog` with a level below it does nothing.
use flexman.Base.{
  ◌≡◌, refl, sym, Bool, true, false, List, [], ◌∷◌, ◌++◌, if◌then◌else◌, Bool-cases, inl, inr,
}
use flexman.Core.Solution.{Solution}
use flexman.Stream.{Text, Printable}
use flexman.Printing.{Shown, solution_to_string}

-- A logger, and what it has written, are part of the world.
pub record Logger {ℓ} (Level World : Type ℓ) : Type ℓ where
  pub debug : Level
  pub le : Level → Level → Bool
  pub get_log_level : World → Level
  pub qlog : Level → Text → World → World

-- What quire documents of its levels.
pub record IsLogger {ℓ} (Level World : Type ℓ) ⦃g : Logger Level World⦄ : Type ℓ where
  pub le_trans : (a b c : Level) → g.le a b ≡ true → g.le b c ≡ true → g.le a c ≡ true
  pub qlog-below :
      (level : Level) (t : Text) (w : World)
      → g.le (g.get_log_level w) level ≡ false
      → g.qlog level t w ≡ w

module _ {ℓ} {Real State Resources Level World : Type ℓ} ⦃p : Printable Real⦄ ⦃r : Shown Resources⦄
    ⦃g : Logger Level World⦄ where
  -- `qlog(logger, level, "\t%s\n", ...)` for each solution.
  unfoldable pub log_each : Level → List (Solution Real State Resources) → World → World
  log_each level [] w = w
  log_each level (s ∷ solutions) w =
      log_each level solutions (g.qlog level (9 ∷ (solution_to_string s ++ 10 ∷ [])) w)

  unfoldable pub log_solutions : Level → List (Solution Real State Resources) → World → World
  log_solutions level solutions w =
      if g.le (g.get_log_level w) g.debug then log_each level solutions w else w

module _ {ℓ} {Real State Resources Level World : Type ℓ} ⦃p : Printable Real⦄ ⦃r : Shown Resources⦄
    ⦃g : Logger Level World⦄ (laws : IsLogger Level World) where
  log_each-below :
      (level : Level) (solutions : List (Solution Real State Resources)) (w : World)
      → g.le (g.get_log_level w) level ≡ false
      → log_each level solutions w ≡ w
  unfolding log_each
  log_each-below level [] w h = refl
  log_each-below level (s ∷ solutions) w h =
      rw (laws.qlog-below level (9 ∷ (solution_to_string s ++ 10 ∷ [])) w h)
        (log_each-below level solutions w h)

  -- If `qlog` does nothing with a level below the logger's, then for a level up to `debug` the test
  -- that `log_solutions` makes beforehand changes nothing: it does what the loop over the solutions
  -- does by itself.
  pub log_solutions-log_each :
      (level : Level) (solutions : List (Solution Real State Resources)) (w : World)
      → g.le level g.debug ≡ true
      → log_solutions level solutions w ≡ log_each level solutions w
  unfolding log_solutions
  log_solutions-log_each level solutions w h =
      elim (Bool-cases (g.le (g.get_log_level w) g.debug)) [
        | inl e ↦ rw e refl
        | inr e ↦ rw e (sym (log_each-below level solutions w (below e)))
      ]
    where
      below : g.le (g.get_log_level w) g.debug ≡ false → g.le (g.get_log_level w) level ≡ false
      below e = elim (Bool-cases (g.le (g.get_log_level w) level)) [
        | inl f ↦ let clash = laws.le_trans (g.get_log_level w) level g.debug f h in cc
        | inr f ↦ f
      ]

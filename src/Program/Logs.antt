-- ===== src/Program/Logs.antt =====
-- `log_results` of examples/tapping/main.cpp.
use flexman.Base.{List, [], ◌∷◌}
use flexman.Core.Solution.{ParetoFront, Result}
use flexman.Stream.{
  Text, Printable, codes, new_stream, ◌<<◌, setw, setprecision, fixed, right, put, put_double,
}
use flexman.Printing.{Shown}
use flexman.Search.Logs.{Logger, log_each}

abbrev rule : Text
rule = codes "============================================================\n"

module _ {ℓ} {Real State Resources : Type ℓ} ⦃p : Printable Real⦄ where
  -- What `"Pareto front (step: %8.3f s, runtime: %8.3f s):\n"` makes of a front.
  unfoldable pub front_line : ParetoFront Real State Resources → Text
  front_line pareto =
      (new_stream
        << fixed
        << setprecision 3
        << right
        << put "Pareto front (step: "
        << setw 8
        << put_double pareto.step_length
        << put " s, runtime: "
        << setw 8
        << put_double pareto.runtime
        << put " s):\n").text

module _ {ℓ} {Real State Resources Level World : Type ℓ} ⦃p : Printable Real⦄ ⦃r : Shown Resources⦄
    ⦃g : Logger Level World⦄ where
  unfoldable pub log_fronts : Level → List (ParetoFront Real State Resources) → World → World
  log_fronts level [] w = w
  log_fronts level (pareto ∷ fronts) w =
      log_fronts level fronts (log_each level pareto.solutions (g.qlog level (front_line pareto) w))

  unfoldable pub log_results : Level → Result Real State Resources → World → World
  log_results level results w =
      g.qlog level rule (log_fronts level results.pareto_fronts (g.qlog level rule w))

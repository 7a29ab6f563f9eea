-- ===== src/Printing.antt =====
-- `to_string` and the operators `<<` of include/flexman/core, and what the two functions that log
-- solutions give to a logger. How resources are printed is a parameter.
pub mod Sequences
pub mod Lines
use flexman.Base.{ℕ, ◌+◌, ◌%◌, Bool, List, [], ◌∷◌, length, ltb, leb, if◌then◌else◌, unsigned_mod}
use flexman.Double.{Double}
use flexman.Core.Execution.{Mode, ModeExecution}
use flexman.Core.Solution.{Solution, ParetoFront, Result, get_total_runtime}
use flexman.Stream.{
  Text, Stream, Printable, new_stream, ◌<<◌, setw, setprecision, fixed, left, right, put, put_text,
  put_number, put_double,
}

-- `<<` of the type `Resources`
pub record Shown {ℓ} (Resources : Type ℓ) : Type ℓ where
  pub put_resources : Resources → Stream → Stream

unfoldable pub mode_to_string {ℓ} : {System Input : Type ℓ} → Mode System Input → Text
mode_to_string m = (new_stream << put_number m.id).text

unfoldable pub put_mode {ℓ} : {System Input : Type ℓ} → Mode System Input → Stream → Stream
put_mode m = put_text (mode_to_string m)

unfoldable pub execution_to_string : ModeExecution → Text
execution_to_string e =
    (new_stream
      << setw 2
      << right
      << put_number e.mode
      << put "*"
      << setw 3
      << left
      << put_number e.times).text

unfoldable pub put_execution : ModeExecution → Stream → Stream
put_execution e = put_text (execution_to_string e)

-- The loop of `Solution::to_string`, at index `i` of a sequence of `size` entries.
unfoldable pub put_sequence : (size i : ℕ) → List ModeExecution → Stream → Stream
put_sequence size i [] ss = ss
put_sequence size i (e ∷ sequence) ss =
    let entry =
      ss
      << setw 2
      << right
      << put_number (e.mode % unsigned_mod)
      << put "*"
      << setw 3
      << left
      << put_number e.times in
    put_sequence size (i + 1) sequence (if ltb i size then entry << put " " else entry)

module _ {ℓ} {Real State Resources : Type ℓ} ⦃p : Printable Real⦄ ⦃r : Shown Resources⦄ where
  unfoldable pub solution_to_string : Solution Real State Resources → Text
  solution_to_string s =
      (new_stream
        << put "Solution{"
        << put "distance: "
        << fixed
        << setprecision 3
        << setw 7
        << right
        << put_double s.distance
        << put ", "
        << put "resources: "
        << r.put_resources s.resources
        << put ", "
        << put "sequence:[ "
        << put_sequence (length s.sequence) 0 s.sequence
        << put " ]}").text

  unfoldable pub put_solution : Solution Real State Resources → Stream → Stream
  put_solution s = put_text (solution_to_string s)

  unfoldable pub put_solutions : List (Solution Real State Resources) → Stream → Stream
  put_solutions [] ss = ss
  put_solutions (s ∷ solutions) ss =
      put_solutions solutions (ss << put "            " << put_solution s << put "\n")

  unfoldable pub pareto_front_to_string : ParetoFront Real State Resources → Text
  pareto_front_to_string f =
      (new_stream
        << put "    ParetoFront{\n"
        << put "        step_length         : "
        << put_double f.step_length
        << put "\n"
        << put "        steps_per_iteration : "
        << put_number f.steps_per_iteration
        << put "\n"
        << put "        iteration           : "
        << put_number f.iteration
        << put "\n"
        << put "        runtime             : "
        << put_double f.runtime
        << put "\n"
        << put "        solutions           : \n"
        << put_solutions f.solutions
        << put "    }\n").text

  unfoldable pub put_pareto_front : ParetoFront Real State Resources → Stream → Stream
  put_pareto_front f = put_text (pareto_front_to_string f)

  unfoldable pub put_pareto_fronts : List (ParetoFront Real State Resources) → Stream → Stream
  put_pareto_fronts [] ss = ss
  put_pareto_fronts (f ∷ fronts) ss = put_pareto_fronts fronts (ss << put_pareto_front f)

  module _ ⦃d : Double Real⦄ where
    unfoldable pub result_to_string : Result Real State Resources → Text
    result_to_string r =
        (new_stream
          << put "Result{\n"
          << put "    runtime : "
          << put_double (get_total_runtime r)
          << put "\n"
          << put "    pareto_fronts : \n"
          << put_pareto_fronts r.pareto_fronts
          << put "}\n").text

    unfoldable pub put_result : Result Real State Resources → Stream → Stream
    put_result r = put_text (result_to_string r)

-- ===== src/Examples/Printed.antt =====
-- The texts of Printing, Support.Texts, Search.Logs and Program.Logs, and the plots, at work: a number
-- prints as its digits.
use flexman.Base.{ℕ, ◌+◌, ◌*◌, ◌≡◌, refl, true, false, some, List, [], ◌∷◌, ◌++◌, leb, ◌==◌, arith}
use flexman.Core.Execution.{execution}
use flexman.Core.Solution.{Result}
use flexman.Stream.{Text, Stream, Printable, codes, digits_of}
use flexman.Printing.{put_sequence, solution_to_string, result_to_string}
use flexman.Printing.Sequences.{sequence_in, sequence_in-solution_to_string}
use flexman.Printing.Lines.{
  lines, lines-digits_of, lines-spaces, lines-append, lines-pad, lines-result_to_string,
}
use flexman.Search.Logs.{Logger, IsLogger, log_each, log_solutions, log_solutions-log_each}
use flexman.Support.{Celled}
use flexman.Support.Texts.{
  vector_to_string, matrix_to_string, bracketed, put_entries, to_string-bracketed,
}
use flexman.Tapping.{Resources}
use flexman.Tapping.Texts.{shown_resources, put_tapping_resources}
use flexman.Plotting.{Roundable}
use flexman.Plant.{numbers}
use flexman.Examples.Tapped.{Tapped, exact, lists, literals}

instance abbrev plain_digits : Printable ℕ
plain_digits = record { show = λ is_fixed precision x. digits_of x }

abbrev twice : Tapped
twice = record {
  sequence = execution 3 12 ∷ execution 10 1 ∷ [];
  state = 0 ∷ 1 ∷ 7 ∷ [];
  resources = record { energy = 45; time = 6 };
  distance = 2;
}

printed_twice :
    solution_to_string twice
    ≡ codes "Solution{distance:       2, resources: (     6,      45), sequence:[  3*12  10*1    ]}"
unfolding solution_to_string put_tapping_resources put_sequence digits_of
printed_twice = refl

sequence_in-solution_to_string_example :
    sequence_in (solution_to_string twice) ≡ some (3 ∷ 12 ∷ 10 ∷ 1 ∷ [])
sequence_in-solution_to_string_example = sequence_in-solution_to_string twice

abbrev sheet : Result ℕ (List ℕ) (Resources ℕ)
sheet = record {
  pareto_fronts =
      record {
        solutions = twice ∷ twice ∷ [];
        step_length = 8;
        steps_per_iteration = 4;
        iteration = 0;
        runtime = 3;
      }
      ∷ [];
}

lines_of_resources :
    (x : Resources ℕ) (ss : Stream)
    → lines (shown_resources.put_resources x ss).text ≡ lines ss.text
unfolding put_tapping_resources
lines_of_resources x ss =
    simp (lines-append, lines-pad, lines-digits_of, lines-spaces) (omega arith)

lines-result_to_string_example : lines (result_to_string sheet) ≡ 13
lines-result_to_string_example =
    lines-result_to_string (λ f p x. lines-digits_of x) lines_of_resources sheet

instance abbrev table : Celled ℕ (ℕ → ℕ → ℕ)
table = record { cell = λ m r c. m r c; put_cell = λ m r c e r' c'. e }

abbrev grid : ℕ → ℕ → ℕ
grid r c = 10 * r + c

abbrev pair : List ℕ
pair = 4 ∷ 15 ∷ []

printed_grid : matrix_to_string ℕ 2 3 grid ≡ codes "[[0, 1, 2], [10, 11, 12]]"
unfolding matrix_to_string put_entries digits_of
printed_grid = refl

to_string-bracketed_example :
    (vector_to_string ℕ 2 pair ≡ bracketed (codes "4" ∷ codes "15" ∷ []))
    × (matrix_to_string ℕ 1 2 grid ≡ bracketed (bracketed (codes "0" ∷ codes "1" ∷ []) ∷ []))
unfolding digits_of
to_string-bracketed_example = to_string-bracketed ℕ 1 2 pair grid

-- A logger as its level and what it has written; a lower number is a more talkative level.
abbrev Log : Type 0
Log = ℕ × List Text

abbrev chatter : ℕ
chatter = 1

abbrev quiet : Log
quiet = (2, [])

instance abbrev memory : Logger ℕ Log
memory = record {
  debug = 1;
  le = leb;
  get_log_level = λ w. w.0;
  qlog = λ level t w. elim (leb w.0 level) [ true ↦ (w.0, w.1 ++ t ∷ []) | false ↦ w ];
}

memory-IsLogger : IsLogger ℕ Log
memory-IsLogger = record {
  le_trans = λ a b c h k. ground arith;
  qlog-below = λ level t w h. rw (memory, h) refl;
}

chatter_once : log_solutions chatter (twice ∷ []) quiet ≡ log_each chatter (twice ∷ []) quiet
chatter_once = log_solutions-log_each memory-IsLogger chatter (twice ∷ []) quiet refl

instance abbrev rounding : Roundable ℕ
rounding = record { lowest = 0; round = λ a. a; approximately_equal_to_zero = λ a. a == 0 }

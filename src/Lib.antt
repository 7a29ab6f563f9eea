-- ===== src/Lib.antt =====
-- A model of flexman, a header-only C++ library that searches for sequences of modes which drive a
-- system to a target at a Pareto-optimal cost, and theorems about it.
--
-- The parts, and the files that model them:
--
-- Core (include/flexman/core): data. Core/Execution.antt has `Mode`, `ModeExecution` and
--   `add_mode_execution_to_sequence`; Core/Solution.antt has `Solution`, `ParetoFront` and `Result`
--   with their comparisons; Core/Manager.antt has the abstract class `Manager` as a record, with a
--   field for each virtual method. A method that changes a solution by reference returns it.
-- Search (include/flexman/search/common.hpp): the steps of the search. Search/Interpolation.antt has
--   `find_solution_closest_to_zero` and `simulate_mode`; Search/Extension.antt has
--   `extend_solutions`; Search/Dominance.antt has the two overloads of
--   `remove_dominated_solutions` (the one with two vectors is `remove_dominated_by`) and
--   `remove_duplicate_solutions`; Search/Splitting.antt has `move_elements` and
--   `split_complete_partial`.
-- Search (include/flexman/search/search.hpp): Search/Iteration.antt has
--   `perform_search_single_iteration` and `perform_search_n_iterations`; Search/Perform.antt has
--   `perform_search` with its interactive pause.
-- Simulation (include/flexman/simulation): Simulation.antt has `generate_solution`,
--   `simulate_one_step` and `simulate_single_mode`.
-- Swarm (include/flexman/pso): Swarm.antt has the update and the evaluation of a particle, and
--   Swarm/Optimize.antt has `optimize_solution` and its lifts to fronts and results.
-- Tapping (examples/tapping/resources.hpp and examples/tapping/search.hpp): Tapping.antt has the
--   resources and the managers of the discrete and the continuous search, which fill the record
--   `Manager`.
--   Tapping/Systems.antt (examples/tapping/parameters.hpp and examples/tapping/builder.hpp) has the
--   parameters of a machine and the modes built from them, Tapping/Storage.antt the operators that
--   write and read parameters, resources, timeouts and searches, and Tapping/Texts.antt the ones that
--   print parameters and resources.
-- Json, Serialization (include/flexman/serialization.hpp) and Support (examples/fsmlib_support.hpp):
--   Json.antt has the calls of the json library as a parameter, Json/Objects.antt objects written
--   member by member; Serialization.antt has the operators for the types of Core, Support.antt those
--   for the vectors, the matrices and the state spaces of fsmlib, and Support/Texts.antt their texts. `operator<<` of a type is
--   `write_...`, which gives the node, and `operator>>` is `read_...`, which gives the value.
-- Program (examples/tapping/main.cpp): Program.antt has `linspace`, `compare_ascending` and
--   `compare_results`, Program/Execute.antt the runs of both modes and `main`, Program/Saving.antt the
--   document of `save_results`, and Program/Logs.antt `log_results`.
-- Plotting (examples/tapping/plotting.hpp): Plotting.antt has the data and the limits of the plots,
--   Plotting/Calls.antt the calls that `plot_pareto_front` and `plot_simulations` make of gnuplot, as a
--   list.
-- Stream, Printing: Stream.antt has a string stream with its manipulators, which are functions between
--   streams, and Printing.antt `to_string` and `operator<<` of the types of Core: the latter is
--   `put_...`. Search/Logs.antt has `log_solutions`.
--
-- `perform_search` makes a pass (`perform_search_n_iterations`) at each stride, a power of two that
-- is halved from pass to pass. A pass makes rounds (`perform_search_single_iteration`): a round
-- extends every partial solution by `simulate_mode`, removes what the accepted solutions dominate,
-- splits the rest, and accepts the complete solutions. Each pass starts from the accepted solutions
-- of the one before. Particle swarm optimisation replays sequences by `generate_solution`. `main`
-- builds a mode for each gear factor, and either searches, sorts the fronts and, on demand, optimises
-- them and compares, or simulates every mode.
--
-- A call gives an `Outcome` (Base/Outcomes.antt): a value, a `throw`, or `running`. What
-- std::invalid_argument reports is a `throw` with the message's name, and so is behaviour that C++
-- leaves undefined: an index out of range, `back` of an empty vector, a shift by 32 or more, the
-- conversion of a `double` that is out of range, std::sort by what is no strict weak order, and
-- std::unique by what is no equivalence relation. `size_t` counters wrap at 2^64, `unsigned` ones at 2^32.
--
-- Fuel: the interpolation loop of `find_solution_closest_to_zero` has a floating-point counter, and
-- `fuel` bounds its rounds. A call that needs more fuel is `running`; `IsSteady` in
-- Search/Iteration/Steady.antt states that the fuel is enough for each interpolation that a search may
-- start, and `IsReplayable` in Swarm/Ending.antt for those of a replay: some property holds of all
-- solutions that are reached, and the interpolations from solutions that have it end. The loop over the strides gets
-- 32 passes, as many as a stride of 32 bits has halvings.
--
-- Parameters, for code that is not in the repository: `Double` is the arithmetic of `double`
-- (Double.antt), `Consumable` and `Metered` are what the templates ask of the type of resources,
-- `Algorithms` is std::sort and std::partition, with `IsStandard` for what C++ promises of them
-- (Search/Algorithms.antt; Search/Algorithms/Insertion.antt shows that this can be met), `Clock` and
-- `Deadline` are the calls of timelib, as functions of an outside world, the keys that the user will
-- press are a list, and the random draws of the swarm are a function. For the tapping example,
-- `Tolerant`, `Indexed`, `Celled`, `Linear`, `Control` and `Integrator` are the calls of fsmlib and
-- numint, `Literals` the numbers that a literal with a fraction stands for, `Options` what cmdlp
-- parses, `Seconds` a conversion of timelib, and `Roundable` the functions that only the plots call.
-- `Printable` is how a `double` is printed, `Shown` how resources are, and `Logger` a logger of quire.
-- `Json` is the json library, with `IsJson` for what its nodes hold, and `Serial` the two operators of
-- a type.
--
-- Plant.antt is a small concrete system, and the files under Examples apply the theorems to it and run
-- the search on it.
--
-- Not modelled: include/flexman/logging.hpp, the log lines of the search, of the swarm and of `main`,
-- `wait_for_keypress` (terminal input), and in examples/tapping/main.cpp the parsing of the options, the
-- settings of the loggers and the writing of the file.
pub mod Base
pub mod Double
pub mod Json
pub mod Core
pub mod Plotting
pub mod Printing
pub mod Program
pub mod Search
pub mod Serialization
pub mod Simulation
pub mod Support
pub mod Stream
pub mod Swarm
pub mod Tapping
mod Plant
mod Examples

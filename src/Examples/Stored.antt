-- ===== src/Examples/Stored.antt =====
-- The round trips of Serialization, Support, Tapping.Storage and Program.Saving at work.
use flexman.Base.{
  ℕ, ◌+◌, ◌*◌, ◌<◌, ◌≡◌, refl, true, some, List, [], ◌∷◌, Outcome, ok, throw, running, Returns,
  if◌then◌else◌, ◌==◌, ◌&&◌, get_elem?,
}
use flexman.Json.{Serial, read_member}
use flexman.Core.Execution.{Mode}
use flexman.Core.Manager.{Members}
use flexman.Serialization.{write_mode, read_mode, write_manager, read_manager}
use flexman.Serialization.RoundTrips.{read_mode-write_mode, read_manager-write_manager}
use flexman.Tapping.{Indexed}
use flexman.Tapping.Systems.{Parameters}
use flexman.Tapping.Storage.{
  Timespec, write_parameters, read_parameters, write_search, read_search,
  read_parameters-write_parameters, read_search-write_search,
}
use flexman.Support.{Celled, for_each, is_array_of, read_rows, read_cell, write_matrix, read_matrix}
use flexman.Support.RoundTrips.{read_matrix-write_matrix}
use flexman.Program.Saving.{save_results, read_saved, read_saved-save_results}
use flexman.Examples.Nodes.{
  Node, blank, number, array, nodes, nodes-IsJson, stored_numbers, stored_flags,
  stored_flags-RoundTrips,
}

abbrev third : Mode ℕ ℕ
third = record { id = 3; system = 20; input = 12 }

abbrev managed : (depth : ℕ) → Members ℕ ℕ ℕ
managed depth = record {
  initial_state = 0;
  target_state = depth;
  time_delta = 2;
  time_max = 60;
  threshold = 1;
  timeout = 30;
  interactive = true;
}

read_manager-write_manager_example :
    read_manager (write_manager (managed 6) blank) (managed 0) ≡ ok (managed 6)
read_manager-write_manager_example =
    read_manager-write_manager nodes-IsJson (λ a old n. refl) stored_flags-RoundTrips
      (λ a old n. refl) (λ a old n. refl) (managed 6) (managed 0) blank

abbrev parameters : ℕ → Parameters ℕ
parameters g = record {
  v = 48;
  r = 1;
  l = 5;
  j = 2;
  kb = 7;
  ke = 11;
  kt = 12;
  fd = 3;
  fs = 15;
  ts = 4;
  gr = g;
  sc = 6;
  st = 8;
}

abbrev members : ℕ → Members ℕ ℕ (Timespec ℕ)
members depth = record {
  initial_state = 0;
  target_state = depth;
  time_delta = 1;
  time_max = 120;
  threshold = 2;
  timeout = record { tv_sec = 60; tv_nsec = 500 };
  interactive = true;
}

read_search-write_search_example :
    read_search (write_search (members 40) blank) (members 0) ≡ ok (members 40)
read_search-write_search_example =
    read_search-write_search nodes-IsJson (λ a old n. refl) stored_flags-RoundTrips
      (λ a old n. refl) (λ a old n. refl) (members 40) (members 0) blank

-- Vectors and matrices as functions of their indices.
instance abbrev indexed : Indexed ℕ (ℕ → ℕ)
indexed = record { at = λ v i. v i; put = λ v i e k. if i == k then e else v k; size = λ v. 3 }

instance abbrev celled : Celled ℕ (ℕ → ℕ → ℕ)
celled = record {
  cell = λ m r c. m r c;
  put_cell = λ m r c e r' c'. if r == r' && c == c' then e else m r' c';
}

abbrev zeros : ℕ → ℕ
zeros i = 0

abbrev doubled : ℕ → ℕ
doubled i = 2 * i

abbrev table : ℕ → ℕ → ℕ
table r c = 10 * r + c

read_matrix-write_matrix_example :
    Returns {A = ℕ → ℕ → ℕ}
      (λ x. (r c : ℕ) → r < 3 → c < 2 → x r c ≡ table r c)
      (read_matrix ℕ 3 2 (write_matrix ℕ 3 2 table blank) (λ r c. 0))
read_matrix-write_matrix_example =
    read_matrix-write_matrix nodes-IsJson (λ a old n. refl) 3 2 (λ x r c e r' c' h k. refl) table
      (λ r c. 0) blank

instance abbrev stored_parameters : Serial Node (Parameters ℕ)
stored_parameters = record { write = write_parameters; read = read_parameters }

instance abbrev stored_modes : Serial Node (Mode ℕ ℕ)
stored_modes = record { write = write_mode; read = read_mode }

read_saved-save_results_example :
    Returns
      (λ saved.
        (read_member {A = ℕ} saved "manager" 0 ≡ ok 5)
        × ((i : ℕ) (p : Parameters ℕ) (m : Mode ℕ ℕ) (p' : Parameters ℕ) (m' : Mode ℕ ℕ)
            → get_elem? (parameters 30 ∷ []) i ≡ some p
            → get_elem? (third ∷ []) i ≡ some m
            → read_saved saved i p' m' ≡ ok (p, m)))
      (save_results {Manager = ℕ} {Results = ℕ} 5 8 (parameters 30 ∷ []) (third ∷ []) blank)
read_saved-save_results_example =
    read_saved-save_results nodes-IsJson (λ a old n. refl)
      (read_parameters-write_parameters nodes-IsJson (λ a old n. refl))
      (read_mode-write_mode nodes-IsJson (λ a old n. refl) (λ a old n. refl) (λ a old n. refl)) 5 0
      8 (parameters 30 ∷ []) (third ∷ []) blank refl

-- An array of two rows, of which the second has one item too many.
abbrev uneven : Node
uneven = array 2 λ r. array (if r == 0 then 2 else 3) λ c. number (table r c)

-- The first row is read, the second ends the loop.
corner : Outcome (ℕ → ℕ → ℕ) → List ℕ
corner (ok m) = m 0 0 ∷ m 0 1 ∷ m 1 0 ∷ m 1 1 ∷ []
corner (throw e) = []
corner running = []

uneven_run : corner (read_matrix ℕ 2 2 uneven (λ r c. 99)) ≡ 0 ∷ 1 ∷ 99 ∷ 99 ∷ []
unfolding read_matrix read_rows read_cell for_each is_array_of corner
uneven_run = refl

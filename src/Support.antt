-- ===== src/Support.antt =====
-- examples/fsmlib_support.hpp: the operators `<<` and `>>` between the vectors, the matrices and the
-- state spaces of fsmlib and the nodes of the json library. The sizes, template arguments there, are
-- arguments here.
pub mod Loops
pub mod Texts
pub mod RoundTrips
use flexman.Base.{
  ℕ, zero, suc, ◌+◌, Bool, ◌&&◌, if◌then◌else◌, ◌==◌, List, [], ◌∷◌, Outcome, ok, ◌>>=◌,
}
use flexman.Json.{Json, Serial, read_member}
use flexman.Json.Objects.{◌≪◌, write_object}
use flexman.Tapping.{Indexed}
use flexman.Tapping.Systems.{StateSpace, DiscreteStateSpace}

-- `operator()` of `fsmlib::Matrix` to read and to write.
pub record Celled {ℓ} (Real Matrix : Type ℓ) : Type ℓ where
  pub cell : Matrix → (row col : ℕ) → Real
  pub put_cell : Matrix → (row col : ℕ) → Real → Matrix

-- A `for` whose body changes a value, with `left` indices to go, from `i` on.
unfoldable pub for_each {ℓ} : {A : Type ℓ} → (ℕ → A → Outcome A) → (left i : ℕ) → A → Outcome A
for_each body zero i a = ok a
for_each body (suc left) i a = do a' ← body i a; for_each body left (i + 1) a'

module _ {ℓ} {Node : Type ℓ} ⦃j : Json Node⦄ where
  -- A `for` over the items of an array, with `left` of them to go, from `i` on.
  unfoldable pub write_items : (ℕ → Node → Node) → (left i : ℕ) → Node → Node
  write_items f zero i lhs = lhs
  write_items f (suc left) i lhs = write_items f left (i + 1) (j.edit_item lhs i (f i))

  -- An array of `count` items, which `f` writes.
  unfoldable pub write_array : (count : ℕ) → (ℕ → Node → Node) → Node → Node
  write_array count f lhs = write_items f count 0 (j.resize (j.set_array lhs) count)

  -- The node is an array of `count` items.
  unfoldable pub is_array_of : Node → (count : ℕ) → Bool
  is_array_of lhs count = j.is_array lhs && j.size lhs == count

  module _ {Vector : Type ℓ} (Real : Type ℓ) ⦃v : Indexed Real Vector⦄
      ⦃real : Serial Node Real⦄ where
    unfoldable pub write_vector : (size : ℕ) → Vector → Node → Node
    write_vector size rhs lhs = write_array size (λ i. real.write (v.at rhs i)) (j.clear lhs)

    unfoldable pub read_entry : Node → (i : ℕ) → Vector → Outcome Vector
    read_entry lhs i rhs = do n ← j.item lhs i; x ← real.read n (v.at rhs i); ok (v.put rhs i x)

    -- A node of another type or size leaves the vector as it is.
    unfoldable pub read_vector : (size : ℕ) → Node → Vector → Outcome Vector
    read_vector size lhs rhs =
        if is_array_of lhs size then for_each (read_entry lhs) size 0 rhs else ok rhs

  module _ {Matrix : Type ℓ} (Real : Type ℓ) ⦃m : Celled Real Matrix⦄
      ⦃real : Serial Node Real⦄ where
    unfoldable pub write_matrix : (rows cols : ℕ) → Matrix → Node → Node
    write_matrix rows cols rhs lhs =
        write_array rows (λ r. write_array cols (λ c. real.write (m.cell rhs r c))) (j.clear lhs)

    unfoldable pub read_cell : Node → (row col : ℕ) → Matrix → Outcome Matrix
    read_cell lhs row col rhs = do
      n ← j.item lhs col
      x ← real.read n (m.cell rhs row col)
      ok (m.put_cell rhs row col x)

    -- The outer loop, with `left` rows to go, from `row` on. A row of another type or size ends it,
    -- and the rows before it stay read.
    unfoldable pub read_rows : (cols : ℕ) → Node → (left row : ℕ) → Matrix → Outcome Matrix
    read_rows cols lhs zero row rhs = ok rhs
    read_rows cols lhs (suc left) row rhs = do
      n ← j.item lhs row
      let rest = do
        rhs' ← for_each (read_cell n row) cols 0 rhs
        read_rows cols lhs left (row + 1) rhs'
      if is_array_of n cols then rest else ok rhs

    unfoldable pub read_matrix : (rows cols : ℕ) → Node → Matrix → Outcome Matrix
    read_matrix rows cols lhs rhs =
        if is_array_of lhs rows then read_rows cols lhs rows 0 rhs else ok rhs

  module _ {Matrix : Type ℓ} ⦃matrix : Serial Node Matrix⦄ where
    unfoldable pub write_state_space : StateSpace Matrix → Node → Node
    write_state_space rhs =
        write_object (("A" ≪ rhs.a) ∷ ("B" ≪ rhs.b) ∷ ("C" ≪ rhs.c) ∷ ("D" ≪ rhs.d) ∷ [])

    unfoldable pub read_state_space : Node → StateSpace Matrix → Outcome (StateSpace Matrix)
    read_state_space lhs rhs =
        let members = do
          a' ← read_member lhs "A" rhs.a
          b' ← read_member lhs "B" rhs.b
          c' ← read_member lhs "C" rhs.c
          d' ← read_member lhs "D" rhs.d
          ok (record { a = a'; b = b'; c = c'; d = d' })
        in if j.is_object lhs then members else ok rhs

    module _ {Real : Type ℓ} ⦃real : Serial Node Real⦄ where
      unfoldable pub write_discrete_state_space : DiscreteStateSpace Real Matrix → Node → Node
      write_discrete_state_space rhs = write_object (
          ("A" ≪ rhs.a)
          ∷ ("B" ≪ rhs.b)
          ∷ ("C" ≪ rhs.c)
          ∷ ("D" ≪ rhs.d)
          ∷ ("sample_time" ≪ rhs.sample_time)
          ∷ [])

      unfoldable pub read_discrete_state_space :
          Node → DiscreteStateSpace Real Matrix → Outcome (DiscreteStateSpace Real Matrix)
      read_discrete_state_space lhs rhs =
          let members = do
            a' ← read_member lhs "A" rhs.a
            b' ← read_member lhs "B" rhs.b
            c' ← read_member lhs "C" rhs.c
            d' ← read_member lhs "D" rhs.d
            sample_time' ← read_member lhs "sample_time" rhs.sample_time
            ok (record { a = a'; b = b'; c = c'; d = d'; sample_time = sample_time' })
          in if j.is_object lhs then members else ok rhs

-- ===== src/Support/RoundTrips.antt =====
-- What the operators of fsmlib_support.hpp read back of what they wrote.
use flexman.Base.{
  ℕ, ◌+◌, ◌≤◌, ◌<◌, ◌≡◌, refl, sym, subst, ◌∙◌, inl, inr, true, ◌&&◌, if◌then◌else◌, ◌==◌, ==_iff,
  zero, suc, ok, Returns, arith, Bool-cases,
}
use flexman.Json.{Json, IsJson, Serial, RoundTrips}
use flexman.Json.Objects.{read_member-write_object, write_object-is_object}
use flexman.Tapping.{Indexed}
use flexman.Tapping.Systems.{StateSpace, DiscreteStateSpace}
use flexman.Support.{
  Celled, for_each, is_array_of, write_array, write_vector, read_entry, read_vector, write_matrix,
  read_cell, read_rows, read_matrix, write_state_space, read_state_space,
  write_discrete_state_space, read_discrete_state_space,
}
use flexman.Support.Loops.{Settles, for_each-Settles, item-write_array, same_index}

module _ {ℓ} {Node : Type ℓ} ⦃j : Json Node⦄ (laws : IsJson Node) where
  module _ {Real Vector : Type ℓ} ⦃v : Indexed Real Vector⦄ ⦃real : Serial Node Real⦄
      (reals : RoundTrips real) (size : ℕ)
      (at-put : (x : Vector) (i : ℕ) (e : Real) (k : ℕ)
        → i < size
        → v.at (v.put x i e) k ≡ (if i == k then e else v.at x k)) where
    read_entry-Settles :
        (a : Vector) (n : Node) (i : ℕ)
        → i < size
        → ((m : Node) × (j.item n i ≡ ok (real.write (v.at a i) m)))
        → Settles (λ k x. v.at x k ≡ v.at a k) (λ k x. k ≡ x) (read_entry Real n) i
    unfolding read_entry
    read_entry-Settles a n i h (m, e) x =
        let itself : (i == i) ≡ true = (==_iff i i).1 refl in
        let here : v.at (v.put x i (v.at a i)) i ≡ v.at a i =
          at-put x i (v.at a i) i h ∙ rw itself refl in
        (
          v.put x i (v.at a i),
          rw (e, reals (v.at a i) (v.at x i) m) refl,
          (λ k same. subst (λ l. v.at (v.put x i (v.at a i)) l ≡ v.at a l) same here),
          (λ k same. elim (same_index i k) [
            | inl e' ↦ subst (λ l. v.at (v.put x i (v.at a i)) l ≡ v.at a l) e' here
            | inr (other, _) ↦ at-put x i (v.at a i) k h ∙ rw other same
          ]),
        )

    -- If the nodes hold what is written, numbers read back, and an entry of a vector is what was last
    -- put there: then a vector that was written is read, into any vector, and the vector that is
    -- read has its entries.
    pub read_vector-write_vector :
        (a old : Vector) (n : Node)
        → Returns
            (λ x. (k : ℕ) → k < size → v.at x k ≡ v.at a k)
            (read_vector Real size (write_vector Real size a n) old)
    unfolding read_vector write_vector
    read_vector-write_vector a old n =
        let (array, items) = item-write_array laws size (λ i. real.write (v.at a i)) (j.clear n) in
        let written = write_array size (λ i. real.write (v.at a i)) (j.clear n) in
        let (x, eq, settled, _) =
          for_each-Settles (λ k y. v.at y k ≡ v.at a k) (λ k y. k ≡ y) (read_entry Real written)
            size 0
            (λ k low high. read_entry-Settles a written k (omega arith) (items k (omega arith)))
            old in
        (x, rw array eq, λ k high. settled k (omega arith) (omega arith) k refl)

  module _ {Real Matrix : Type ℓ} ⦃m : Celled Real Matrix⦄ ⦃real : Serial Node Real⦄
      (reals : RoundTrips real) (rows cols : ℕ)
      (cell-put_cell : (x : Matrix) (r c : ℕ) (e : Real) (r' c' : ℕ)
        → r < rows
        → c < cols
        → m.cell (m.put_cell x r c e) r' c'
          ≡ (if r == r' && c == c' then e else m.cell x r' c')) where
    -- The entry at the row and the column is that of `a`.
    abbrev Agrees : Matrix → ℕ × ℕ → Matrix → Type ℓ
    Agrees a (r, c) x = m.cell x r c ≡ m.cell a r c

    written_row : Matrix → ℕ → Node → Node
    written_row a r = write_array cols (λ c. real.write (m.cell a r c))

    is_array_of-written_row :
        (a : Matrix) (r : ℕ) (n : Node) → is_array_of (written_row a r n) cols ≡ true
    unfolding written_row
    is_array_of-written_row a r n =
        (item-write_array laws cols (λ c. real.write (m.cell a r c)) n).0

    read_cell-Settles :
        (a : Matrix) (n : Node) (r c : ℕ)
        → r < rows
        → c < cols
        → ((l : Node) × (j.item n c ≡ ok (real.write (m.cell a r c) l)))
        → Settles (Agrees a) (λ k x. x ≡ (r, k)) (read_cell Real n r) c
    unfolding read_cell
    read_cell-Settles a n r c h k (l, e) x =
        let e' = m.cell a r c in
        let itself : (r == r && c == c) ≡ true =
          rw ((==_iff r r).1 refl, (==_iff c c).1 refl) refl in
        let here : Agrees a (r, c) (m.put_cell x r c e') =
          cell-put_cell x r c e' r c h k ∙ rw itself refl in
        (
          m.put_cell x r c e',
          rw (e, reals e' (m.cell x r c) l) refl,
          (λ i same. subst (λ p. Agrees a p (m.put_cell x r c e')) (sym same) here),
          (λ (r', c') same. elim (Bool-cases (r == r')) [
            | inr other ↦ cell-put_cell x r c e' r' c' h k ∙ rw other same
            | inl row ↦ elim (Bool-cases (c == c')) [
              | inr other ↦ cell-put_cell x r c e' r' c' h k ∙ rw (row, other) same
              | inl col ↦
                  cell-put_cell x r c e' r' c' h k
                  ∙ rw (row, col, sym ((==_iff r r').0 row), sym ((==_iff c c').0 col)) refl
            ]
          ]),
        )

    read_row-Settles :
        (a : Matrix) (n : Node) (r : ℕ)
        → r < rows
        → Settles
            (Agrees a)
            (λ i x. (x.0 ≡ i) × (x.1 < cols))
            (λ i. for_each (read_cell Real (written_row a r n) i) cols 0)
            r
    unfolding written_row
    read_row-Settles a n r h x =
        let (array, items) = item-write_array laws cols (λ c. real.write (m.cell a r c)) n in
        let (x', eq, settled, kept) =
          for_each-Settles (Agrees a) (λ k y. y ≡ (r, k)) (read_cell Real (written_row a r n) r)
            cols 0
            (λ k low high.
              read_cell-Settles a (written_row a r n) r k h (omega arith) (items k (omega arith)))
            x in
        (
          x',
          eq,
          (λ (r', c') (row, high).
              subst (λ i. Agrees a (i, c') x') (sym row)
                (settled c' (omega arith) (omega arith) (r, c') refl)),
          kept,
        )

    -- No row of a written matrix ends the loop.
    read_rows-Settles :
        (a : Matrix) (n : Node)
        → ((r : ℕ) → r < rows → (l : Node) × (j.item n r ≡ ok (written_row a r l)))
        → (left row : ℕ) → row + left ≤ rows
        → (x : Matrix)
        → (x' : Matrix) × (read_rows Real cols n left row x ≡ ok x')
          × ((r c : ℕ) → row ≤ r → r < row + left → c < cols → Agrees a (r, c) x')
          × ((p : ℕ × ℕ) → Agrees a p x → Agrees a p x')
    unfolding read_rows
    read_rows-Settles a n items zero row b x =
        (x, refl, (λ r c low high k. absurd (omega arith)), (λ p same. same))
    read_rows-Settles a n items (suc left) row b x =
        let (l, eq) = items row (omega arith) in
        let (y, eqs, settled, kept) = read_row-Settles a l row (omega arith) x in
        let (x', rest, later, keeps) = read_rows-Settles a n items left (row + 1) (omega arith) y in
        let array = is_array_of-written_row a row l in
        (
          x',
          rw eq (rw array (rw eqs rest)),
          (λ r c low high k. elim (same_index row r) [
            | inl e ↦ keeps (r, c) (settled (r, c) (sym e, k))
            | inr (_, ne) ↦ later r c (omega arith) (omega arith) k
          ]),
          (λ p same. keeps p (kept p same)),
        )

    -- If the nodes hold what is written, numbers read back, and an entry of a matrix is what was last
    -- put there: then a matrix that was written is read, into any matrix, and the matrix that is
    -- read has its entries.
    pub read_matrix-write_matrix :
        (a old : Matrix) (n : Node)
        → Returns
            (λ x. (r c : ℕ) → r < rows → c < cols → m.cell x r c ≡ m.cell a r c)
            (read_matrix Real rows cols (write_matrix Real rows cols a n) old)
    unfolding read_matrix write_matrix written_row
    read_matrix-write_matrix a old n =
        let (array, items) = item-write_array laws rows (written_row a) (j.clear n) in
        let (x, eq, settled, _) =
          read_rows-Settles a (write_array rows (written_row a) (j.clear n)) items rows 0
            (omega arith) old in
        (x, rw array eq, λ r c high k. settled r c (omega arith) (omega arith) k)

  module _ {Real Matrix : Type ℓ} ⦃matrix : Serial Node Matrix⦄ ⦃real : Serial Node Real⦄
      (matrices : RoundTrips matrix) (reals : RoundTrips real) where
    -- If the nodes hold what is written, and matrices and numbers read back as they were written,
    -- then so do state spaces, continuous and discrete.
    pub read_state_space-write_state_space :
        (n : Node)
        → ((a old : StateSpace Matrix) → read_state_space (write_state_space a n) old ≡ ok a)
          × ((a old : DiscreteStateSpace Real Matrix)
              → read_discrete_state_space (write_discrete_state_space a n) old ≡ ok a)
    unfolding read_state_space write_state_space read_discrete_state_space
        write_discrete_state_space
    read_state_space-write_state_space n = (
      (λ a old.
          rw
            (
              write_object-is_object laws _ n,
              read_member-write_object laws _ matrices "A" _ n a.a _ refl refl,
              read_member-write_object laws _ matrices "B" _ n a.b _ refl refl,
              read_member-write_object laws _ matrices "C" _ n a.c _ refl refl,
              read_member-write_object laws _ matrices "D" _ n a.d _ refl refl,
            )
            refl),
      (λ a old.
          rw
            (
              write_object-is_object laws _ n,
              read_member-write_object laws _ matrices "A" _ n a.a _ refl refl,
              read_member-write_object laws _ matrices "B" _ n a.b _ refl refl,
              read_member-write_object laws _ matrices "C" _ n a.c _ refl refl,
              read_member-write_object laws _ matrices "D" _ n a.d _ refl refl,
              read_member-write_object laws _ reals "sample_time" _ n a.sample_time _ refl refl,
            )
            refl),
    )

-- ===== src/Support/Loops.antt =====
-- The two loops of fsmlib_support.hpp: one that writes the items of an array, and one whose body
-- settles some of the entries of a value and spoils none that is settled.
use flexman.Base.{
  ◌⊎◌, ==_iff, ℕ, zero, suc, ◌+◌, ◌≤◌, ◌<◌, ◌≡◌, ◌≢◌, refl, sym, subst, ◌∙◌, inl, inr, true, false,
  ◌==◌, Outcome, ok, arith, Bool-cases,
}
use flexman.Json.{Json, IsJson}
use flexman.Support.{for_each, write_items, write_array, is_array_of}

pub same_index : (i k : ℕ) → (i ≡ k) ⊎ ((i == k) ≡ false × (i ≢ k))
same_index i k = elim (Bool-cases (i == k)) [
  | inl same ↦ inl ((==_iff i k).0 same)
  | inr other ↦ inr (other, λ e. let same = (==_iff i k).1 e in cc)
]

module _ {ℓ κ μ} {A : Type ℓ} {I : Type κ} (Settled : I → A → Type μ) (Covers : ℕ → I → Type κ)
    (body : ℕ → A → Outcome A) where
  -- The body at `i` returns, settles what `i` covers, and keeps what is settled.
  abbrev pub Settles : ℕ → Type (ℓ ⊔ κ ⊔ μ)
  Settles i =
      (a : A)
      → (a' : A) × (body i a ≡ ok a')
        × ((x : I) → Covers i x → Settled x a')
        × ((x : I) → Settled x a → Settled x a')

  pub for_each-Settles :
      (left i : ℕ)
      → ((k : ℕ) → i ≤ k → k < i + left → Settles k)
      → (a : A)
      → (a' : A) × (for_each body left i a ≡ ok a')
        × ((k : ℕ) → i ≤ k → k < i + left → (x : I) → Covers k x → Settled x a')
        × ((x : I) → Settled x a → Settled x a')
  unfolding for_each
  for_each-Settles zero i h a = (a, refl, (λ k low high x c. absurd (omega arith)), (λ x s. s))
  for_each-Settles (suc left) i h a =
      let (b, eq, settled, kept) = h i (omega arith) (omega arith) a in
      let (a', eqs, later, keeps) =
        for_each-Settles left (i + 1) (λ k low high. h k (omega arith) (omega arith)) b in
      (
        a',
        rw eq eqs,
        (λ k low high x c. elim (same_index i k) [
          | inl e ↦ keeps x (settled x (subst (λ n. Covers n x) (sym e) c))
          | inr (_, ne) ↦ later k (omega arith) (omega arith) x c
        ]),
        (λ x s. keeps x (kept x s)),
      )

module _ {ℓ} {Node : Type ℓ} ⦃j : Json Node⦄ (laws : IsJson Node) where
  write_items-is_array :
      (f : ℕ → Node → Node) (left i : ℕ) (n : Node)
      → j.is_array n ≡ true
      → i + left ≤ j.size n
      → (j.is_array (write_items f left i n) ≡ true)
        × (j.size (write_items f left i n) ≡ j.size n)
        × ((k : ℕ) → k < i → j.item (write_items f left i n) k ≡ j.item n k)
  unfolding write_items
  write_items-is_array f zero i n h b = (h, refl, (λ k low. refl))
  write_items-is_array f (suc left) i n h b =
      let here : i < j.size n = omega arith in
      let kept = laws.size-edit_item n i (f i) h here in
      let (array, sized, items) =
        write_items-is_array f left (i + 1) (j.edit_item n i (f i))
          (laws.edit_item-is_array n i (f i) h) (rw kept (omega arith)) in
      (
        array,
        sized ∙ kept,
        (λ k low. elim (same_index i k) [
          | inl e ↦ absurd (omega arith)
          | inr (other, ne) ↦
              items k (omega arith) ∙ (laws.item-edit_item n i (f i) k h here ∙ rw other refl)
        ]),
      )

  item-write_items :
      (f : ℕ → Node → Node) (left i : ℕ) (n : Node)
      → j.is_array n ≡ true
      → i + left ≤ j.size n
      → (k : ℕ) → i ≤ k
      → k < i + left
      → (m : Node) × (j.item (write_items f left i n) k ≡ ok (f k m))
  unfolding write_items
  item-write_items f zero i n h b k low high = absurd (omega arith)
  item-write_items f (suc left) i n h b k low high =
      let here : i < j.size n = omega arith in
      let kept = laws.size-edit_item n i (f i) h here in
      let array = laws.edit_item-is_array n i (f i) h in
      let room : i + 1 + left ≤ j.size (j.edit_item n i (f i)) = rw kept (omega arith) in
      elim (same_index i k) [
        | inl e ↦
            let (_, _, items) =
              write_items-is_array f left (i + 1) (j.edit_item n i (f i)) array room in
            let itself = (==_iff i i).1 refl in
            let written =
              items i (omega arith) ∙ (laws.item-edit_item n i (f i) i h here ∙ rw itself refl) in
            (
              j.item_slot n i,
              subst
                  (λ x.
                    j.item (write_items f left (i + 1) (j.edit_item n i (f i))) x
                    ≡ ok (f x (j.item_slot n i)))
                  e written,
            )
        | inr (_, ne) ↦
            item-write_items f left (i + 1) (j.edit_item n i (f i)) array room k (omega arith)
              (omega arith)
      ]

  -- An array that was written has its size, and each item is what was written over some node.
  pub item-write_array :
      (count : ℕ) (f : ℕ → Node → Node) (n : Node)
      → (is_array_of (write_array count f n) count ≡ true)
        × ((k : ℕ) → k < count → (m : Node) × (j.item (write_array count f n) k ≡ ok (f k m)))
  unfolding write_array is_array_of
  item-write_array count f n =
      let set = laws.set_array-is_array n in
      let array = laws.resize-is_array (j.set_array n) count set in
      let sized = laws.size-resize (j.set_array n) count set in
      let room : 0 + count ≤ j.size (j.resize (j.set_array n) count) = rw sized (omega arith) in
      let (still, same, _) =
        write_items-is_array f count 0 (j.resize (j.set_array n) count) array room in
      (
        rw (still, same, sized) ((==_iff count count).1 refl),
        (λ k high. item-write_items f count 0 _ array room k (omega arith) (omega arith)),
      )

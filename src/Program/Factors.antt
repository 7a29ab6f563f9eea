-- ===== src/Program/Factors.antt =====
-- The gear factors: how many `linspace` gives, and in which order.
use flexman.Base.{
  ℕ, zero, suc, ◌+◌, ◌-◌, ◌≤◌, ◌<◌, ◌≡◌, refl, ap, true, false, ◌==◌, Bool-cases, inl, inr, List,
  [], ◌∷◌, All, length, arith,
}
use flexman.Double.{Double, ◌⊕◌, ◌⊖◌, ◌⊗◌, ◌⊘◌, ◌≺◌, ◌≼◌}
use flexman.Tapping.{Tolerant}
use flexman.Program.{entries, linspace}
use flexman.Program.Execute.{Options, gear_factors}

module _ {ℓ} {Real : Type ℓ} ⦃d : Double Real⦄ where
  length-entries : (f : ℕ → Real) (left i : ℕ) → length (entries f left i) ≡ left
  unfolding entries
  length-entries f zero i = refl
  length-entries f (suc left) i = ap suc (length-entries f left (i + 1))

  All-entries {κ} :
      (P : Real → Type κ) (f : ℕ → Real) (left i : ℕ)
      → ((k : ℕ) → i ≤ k → k < i + left → P (f k))
      → All P (entries f left i)
  unfolding entries
  All-entries P f zero i h = tt
  All-entries P f (suc left) i h = (
    h i (omega arith) (omega arith),
    All-entries P f left (i + 1) (λ k low high. h k (omega arith) (omega arith)),
  )

  -- No factor is above one before it.
  abbrev pub NeverRises : List Real → Type 0
  NeverRises [] = Unit
  NeverRises (x ∷ xs) = All (λ y. y ≼ x ≡ true) xs × NeverRises xs

  entries-NeverRises :
      (f : ℕ → Real)
      → ((i k : ℕ) → i ≤ k → f k ≼ f i ≡ true)
      → (left i : ℕ) → NeverRises (entries f left i)
  unfolding entries
  entries-NeverRises f h zero i = tt
  entries-NeverRises f h (suc left) i = (
    All-entries _ f left (i + 1) (λ k low high. h i k (omega arith)),
    entries-NeverRises f h left (i + 1),
  )

  module _ ⦃t : Tolerant Real⦄ where
    pub length-linspace : (start stop : Real) (num : ℕ) → length (linspace start stop num) ≡ num
    unfolding linspace
    length-linspace start stop num =
        let rising = (stop ⊖ start) ⊘ d.of_ℕ (num - 1) in
        let falling = (start ⊖ stop) ⊘ d.of_ℕ (num - 1) in
        ground (
          arith,
          length-entries (λ i. stop) num 0,
          length-entries (λ i. start ⊕ rising ⊗ d.of_ℕ i) num 0,
          length-entries (λ i. start ⊖ falling ⊗ d.of_ℕ i) num 0,
        )

    linspace-NeverRises :
        (start stop : Real) (num : ℕ)
        → stop ≼ stop ≡ true
        → start ≺ stop ≡ false
        → ((i k : ℕ)
            → i ≤ k
            → 1 < num
            → start ⊖ (start ⊖ stop) ⊘ d.of_ℕ (num - 1) ⊗ d.of_ℕ k
                ≼ start ⊖ (start ⊖ stop) ⊘ d.of_ℕ (num - 1) ⊗ d.of_ℕ i
              ≡ true)
        → NeverRises (linspace start stop num)
    unfolding linspace
    linspace-NeverRises start stop num same h step =
        let level = entries-NeverRises (λ i. stop) (λ i k low. same) num 0 in
        elim (Bool-cases (num == 0)) [
          | inl e ↦ rw e tt
          | inr e ↦ elim (Bool-cases (num == 1)) [
            | inl e' ↦ rw (e, e') (tt, tt)
            | inr e' ↦ elim (Bool-cases (t.approximately_equal start stop)) [
              | inl a ↦ rw (e, e', a) level
              | inr a ↦
                  rw (e, e', a, h)
                    (entries-NeverRises (λ i. start ⊖ (start ⊖ stop) ⊘ d.of_ℕ (num - 1) ⊗ d.of_ℕ i)
                      (λ i k low. step i k low (ground arith)) num 0)
            ]
          ]
        ]

    -- If whole numbers keep their order, and differences, quotients and products keep it too, then
    -- the gear factors of options with `min_gear` up to `max_gear` are `num_gear` many, and none is
    -- above one before it.
    pub gear_factors-NeverRises :
        ((i k : ℕ) → i ≤ k → (d.of_ℕ i ≼ d.of_ℕ k ≡ true) × (d.of_ℕ k ≺ d.of_ℕ i ≡ false))
        → ((x y : Real) → x ≼ y ≡ true → d.of_ℕ 0 ≼ y ⊖ x ≡ true)
        → ((x : Real) (n : ℕ) → d.of_ℕ 0 ≼ x ≡ true → 0 < n → d.of_ℕ 0 ≼ x ⊘ d.of_ℕ n ≡ true)
        → ((x y z : Real) → d.of_ℕ 0 ≼ x ≡ true → y ≼ z ≡ true → x ⊗ y ≼ x ⊗ z ≡ true)
        → ((x y z : Real) → y ≼ z ≡ true → x ⊖ z ≼ x ⊖ y ≡ true)
        → (options : Options Real) → options.min_gear ≤ options.max_gear
        → NeverRises (gear_factors options) × (length (gear_factors options) ≡ options.num_gear)
    unfolding gear_factors
    gear_factors-NeverRises whole difference quotient product less options h =
        let start = d.of_ℕ options.max_gear in
        let stop = d.of_ℕ options.min_gear in
        (
          linspace-NeverRises start stop options.num_gear
              (whole options.min_gear options.min_gear (omega arith)).0
              (whole options.min_gear options.max_gear h).1
              (λ i k low many. less start _ _ (
                product _ _ _
                  (quotient _ _
                    (difference stop start (whole options.min_gear options.max_gear h).0)
                    (omega arith))
                  (whole i k low).0)),
          length-linspace start stop options.num_gear,
        )

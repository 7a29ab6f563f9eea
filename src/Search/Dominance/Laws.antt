-- ===== src/Search/Dominance/Laws.antt =====
-- What the one-vector overload of `remove_dominated_solutions` computes: the elements that no other
-- element beats, as a filter that carries the elements before the current one.
use mathlib.Core.List.{append_assoc}
use flexman.Base.{
  ℕ, ◌+◌, ◌<◌, ◌≡◌, refl, Bool, false, if◌then◌else◌, some, List, [], ◌∷◌, ◌++◌, get_elem?, any_of,
  length, length-append, All, All-append_left, All-append_right, any_of-false, any_of-append_cons,
  All-map, All-×, Bool-cases, remove_if, inl, inr, arith, ok,
}
use flexman.Search.Dominance.{is_dominated, keep_indices, gather}

module _ {ℓ} {A : Type ℓ} (beats : A → A → Bool) where
  -- Some element beats `x`.
  abbrev pub beaten : List A → A → Bool
  beaten ys x = any_of (λ y. beats y x) ys

  -- `pre` stands before the list.
  unfoldable pub undominated : (pre : List A) → List A → List A
  undominated pre [] = []
  undominated pre (x ∷ xs) =
      let rest = undominated (pre ++ x ∷ []) xs in if beaten (pre ++ xs) x then rest else x ∷ rest

  -- Past its own index, the inner loop compares with every element.
  is_dominated_past :
      (i : ℕ) (x : A) (j : ℕ) (ys : List A) → i < j → is_dominated beats i x j ys ≡ beaten ys x
  unfolding is_dominated
  is_dominated_past i x j [] h = refl
  is_dominated_past i x j (y ∷ ys) h = ground (arith, is_dominated_past i x (j + 1) ys)

  is_dominated-beaten :
      (x : A) (i j : ℕ) (pre xs : List A)
      → i ≡ j + length pre
      → is_dominated beats i x j (pre ++ x ∷ xs) ≡ beaten (pre ++ xs) x
  unfolding is_dominated
  is_dominated-beaten x i j [] xs h = ground (arith, is_dominated_past i x (j + 1) xs)
  is_dominated-beaten x i j (y ∷ pre) xs h = ground (arith, is_dominated-beaten x i (j + 1) pre xs)

  get_elem?-append : (pre xs : List A) (x : A) → get_elem? (pre ++ x ∷ xs) (length pre) ≡ some x
  get_elem?-append [] xs x = refl
  get_elem?-append (y ∷ pre) xs x = get_elem?-append pre xs x

  append-cons : (pre xs : List A) (x : A) → (pre ++ x ∷ []) ++ xs ≡ pre ++ x ∷ xs
  append-cons pre xs x = append_assoc pre (x ∷ []) xs

  pub gather-keep_indices :
      (all pre xs : List A) (i : ℕ)
      → all ≡ pre ++ xs
      → i ≡ length pre
      → gather all (keep_indices beats all i xs) ≡ ok (undominated pre xs)
  unfolding gather keep_indices undominated
  gather-keep_indices all pre [] i e h = refl
  gather-keep_indices all pre (x ∷ xs) i e h = ground (
    arith,
    gather-keep_indices all (pre ++ x ∷ []) xs (i + 1),
    append-cons pre xs x,
    length-append pre (x ∷ []),
    is_dominated-beaten x i 0 pre xs,
    get_elem?-append pre xs x,
  )

  -- Neither beats the other.
  abbrev pub Incomparable : A → A → Type 0
  Incomparable x y = (beats x y ≡ false) × (beats y x ≡ false)

  -- No element beats another one.
  abbrev pub Antichain : List A → Type 0
  Antichain [] = Unit
  Antichain (x ∷ xs) = All (Incomparable x) xs × Antichain xs

  pub All-undominated {κ} :
      (P : A → Type κ) (pre xs : List A) → All P xs → All P (undominated pre xs)
  unfolding undominated
  All-undominated P pre [] h = tt
  All-undominated P pre (x ∷ xs) (h, hs) = ground (arith, All-undominated P (pre ++ x ∷ []) xs hs)

  undominated-unbeaten :
      (pre xs : List A) → All (λ y. All (λ z. beats z y ≡ false) pre) (undominated pre xs)
  unfolding undominated
  undominated-unbeaten pre [] = tt
  undominated-unbeaten pre (x ∷ xs) =
      let rest =
        All-map (λ y. All (λ z. beats z y ≡ false) (pre ++ x ∷ [])) _ _
          (λ y. All-append_left (λ z. beats z y ≡ false) pre (x ∷ []))
          (undominated-unbeaten (pre ++ x ∷ []) xs) in
      elim (Bool-cases (beaten (pre ++ xs) x)) [
        | inl e ↦ rw e rest
        | inr e ↦ rw e (All-append_left _ pre xs (any_of-false _ (pre ++ xs) e), rest)
      ]

  -- What the overload keeps is an antichain.
  pub undominated-Antichain : (pre xs : List A) → Antichain (undominated pre xs)
  unfolding undominated
  undominated-Antichain pre [] = tt
  undominated-Antichain pre (x ∷ xs) = elim (Bool-cases (beaten (pre ++ xs) x)) [
    | inl e ↦ rw e (undominated-Antichain (pre ++ x ∷ []) xs)
    | inr e ↦ rw e (
      All-× (λ y. beats x y ≡ false) (λ y. beats y x ≡ false) _ beaten_by_x
          (All-undominated _ (pre ++ x ∷ []) xs
            (All-append_right _ pre xs (any_of-false _ (pre ++ xs) e))),
      undominated-Antichain (pre ++ x ∷ []) xs,
    )
  ]
    where
      beaten_by_x : All (λ y. beats x y ≡ false) (undominated (pre ++ x ∷ []) xs)
      beaten_by_x =
          All-map (λ y. All (λ z. beats z y ≡ false) (pre ++ x ∷ [])) _ _
            (λ y h. (All-append_right (λ z. beats z y ≡ false) pre (x ∷ []) h).0)
            (undominated-unbeaten (pre ++ x ∷ []) xs)

  -- Without the positions: if nothing beats itself, the overload is a filter.
  pub undominated-remove_if :
      ((x : A) → beats x x ≡ false)
      → (all pre xs : List A) → all ≡ pre ++ xs
      → undominated pre xs ≡ remove_if (beaten all) xs
  unfolding undominated
  undominated-remove_if irr all pre [] e = refl
  undominated-remove_if irr all pre (x ∷ xs) e = ground (
    arith,
    undominated-remove_if irr all (pre ++ x ∷ []) xs,
    append-cons pre xs x,
    any_of-append_cons (λ y. beats y x) pre xs x (irr x),
  )

-- ===== src/Search/Dominance/Duplicates.antt =====
-- `std::unique`, and rearrangements: what survives `remove_duplicate_solutions`.
use mathlib.Core.List.{Memᴰ, Permᴰ}
use mathlib.Core.List.Memᴰ.{head, tail}
use mathlib.Core.Path.{subst₂}
use flexman.Base.{
  ◌≡◌, ◌∙◌, refl, sym, subst, ◌⊎◌, inl, inr, Bool, true, List, [], ◌∷◌, Some, All, Bool-cases,
  arith,
}
use flexman.Search.Dominance.{unique_after, unique}
use flexman.Search.Dominance.Laws.{Incomparable, Antichain}

module _ {ℓ} {A : Type ℓ} where
  pub All-perm {κ} : (P : A → Type κ) {xs ys : List A} → Permᴰ xs ys → All P xs → All P ys
  All-perm P Permᴰ.nil h = tt
  All-perm P (Permᴰ.cons e p) (h, hs) = (subst P e h, All-perm P p hs)
  All-perm P (Permᴰ.swap e f) (h, (k, hs)) = (subst P f k, (subst P e h, hs))
  All-perm P (Permᴰ.trans p q) h = All-perm P q (All-perm P p h)

  pub mem-perm : {a : A} {xs ys : List A} → Permᴰ xs ys → Memᴰ a xs → Memᴰ a ys
  mem-perm Permᴰ.nil m = m
  mem-perm (Permᴰ.cons e p) (head f) = head (f ∙ e)
  mem-perm (Permᴰ.cons e p) (tail m) = tail (mem-perm p m)
  mem-perm (Permᴰ.swap e f) (head g) = tail (head (g ∙ e))
  mem-perm (Permᴰ.swap e f) (tail (head g)) = head (g ∙ f)
  mem-perm (Permᴰ.swap e f) (tail (tail m)) = tail (tail m)
  mem-perm (Permᴰ.trans p q) m = mem-perm q (mem-perm p m)

  pub Antichain-perm :
      (beats : A → A → Bool) {xs ys : List A}
      → Permᴰ xs ys
      → Antichain beats xs
      → Antichain beats ys
  Antichain-perm beats Permᴰ.nil h = tt
  Antichain-perm beats (Permᴰ.cons {l₂ = ys} e p) (h, hs) =
      (subst (λ x. All (Incomparable beats x) ys) e (All-perm _ p h), Antichain-perm beats p hs)
  Antichain-perm beats (Permᴰ.swap {a = x} {b = y} {l = l} e f) ((h, hs), (ks, rest)) =
      let flipped : Incomparable beats y x = (h.1, h.0) in
      (
        (subst₂ (Incomparable beats) f e flipped, subst (λ z. All (Incomparable beats z) l) f ks),
        (subst (λ z. All (Incomparable beats z) l) e hs, rest),
      )
  Antichain-perm beats (Permᴰ.trans p q) h = Antichain-perm beats q (Antichain-perm beats p h)

  module _ (eq : A → A → Bool) where
    All-unique_after {κ} :
        (P : A → Type κ) (kept : A) (xs : List A) → All P xs → All P (unique_after eq kept xs)
    unfolding unique_after
    All-unique_after P kept [] h = tt
    All-unique_after P kept (x ∷ xs) (h, hs) =
        ground (arith, All-unique_after P kept xs hs, All-unique_after P x xs hs)

    pub All-unique {κ} : (P : A → Type κ) (xs : List A) → All P xs → All P (unique eq xs)
    unfolding unique
    All-unique P [] h = tt
    All-unique P (x ∷ xs) (h, hs) = (h, All-unique_after P x xs hs)

    Antichain-unique_after :
        (beats : A → A → Bool) (kept : A) (xs : List A)
        → Antichain beats xs
        → Antichain beats (unique_after eq kept xs)
    unfolding unique_after
    Antichain-unique_after beats kept [] h = tt
    Antichain-unique_after beats kept (x ∷ xs) (h, hs) = ground (
      arith,
      Antichain-unique_after beats kept xs hs,
      Antichain-unique_after beats x xs hs,
      All-unique_after (Incomparable beats x) x xs h,
    )

    pub Antichain-unique :
        (beats : A → A → Bool) (xs : List A) → Antichain beats xs → Antichain beats (unique eq xs)
    unfolding unique
    Antichain-unique beats [] h = tt
    Antichain-unique beats (x ∷ xs) (h, hs) =
        (All-unique_after _ x xs h, Antichain-unique_after beats x xs hs)

    -- Every element is kept, or the scan found it equal to one that is.
    abbrev pub Represents : List A → A → Type ℓ
    Represents ys a = Some (λ b. (b ≡ a) ⊎ (eq b a ≡ true)) ys

    unique_after-Represents :
        (kept : A) (xs : List A) (a : A) → Memᴰ a xs → Represents (kept ∷ unique_after eq kept xs) a
    unfolding unique_after
    unique_after-Represents kept [] a m = elim m [ ]
    unique_after-Represents kept (x ∷ xs) a (head e) = elim (Bool-cases (eq kept x)) [
      | inl t ↦ (kept, head refl, inr (subst (λ y. eq kept y ≡ true) (sym e) t))
      | inr t ↦ rw t (x, tail (head refl), inl (sym e))
    ]
    unique_after-Represents kept (x ∷ xs) a (tail m) = elim (Bool-cases (eq kept x)) [
      | inl t ↦ rw t (unique_after-Represents kept xs a m)
      | inr t ↦ rw t (let (b, mb, r) = unique_after-Represents x xs a m in (b, tail mb, r))
    ]

    pub unique-Represents : (xs : List A) (a : A) → Memᴰ a xs → Represents (unique eq xs) a
    unfolding unique
    unique-Represents [] a m = elim m [ ]
    unique-Represents (x ∷ xs) a (head e) = (x, head refl, inl (sym e))
    unique-Represents (x ∷ xs) a (tail m) = unique_after-Represents x xs a m

-- ===== src/Search/Algorithms/Insertion.antt =====
-- The interface of `std::sort` and `std::partition` can be met: insertion sort and a pair of filters.
use mathlib.Core.List.{Memᴰ, Permᴰ}
use mathlib.Core.List.Memᴰ.{head, tail}
use mathlib.Core.List.Permᴰ
use mathlib.Core.List.Permᴰ.{nil, cons, swap, trans, middle}
use flexman.Base.{
  ◌≡◌, refl, Bool, true, false, not, ◌&&◌, if◌then◌else◌, List, [], ◌∷◌, ◌++◌, All, All-map,
  remove_if, keep_if, remove_if-All, Bool-cases, inl, inr, arith,
}
use flexman.Search.Algorithms.{
  Algorithms, IsStandard, IsSorted, strict_weak_on, all_of, implies, equivalent,
}

module _ {ℓ} {A : Type ℓ} (lt : A → A → Bool) where
  abbrev insert : A → List A → List A
  insert x [] = x ∷ []
  insert x (y ∷ ys) = let rest = insert x ys in if lt y x then y ∷ rest else x ∷ y ∷ ys

  abbrev insertion_sort : List A → List A
  insertion_sort [] = []
  insertion_sort (x ∷ xs) = insert x (insertion_sort xs)

  insert-perm : (x : A) (ys : List A) → Permᴰ (insert x ys) (x ∷ ys)
  insert-perm x [] = cons refl nil
  insert-perm x (y ∷ ys) = elim (Bool-cases (lt y x)) [
    | inl e ↦ rw e (trans (cons refl (insert-perm x ys)) (swap refl refl))
    | inr e ↦ rw e (Permᴰ.refl (x ∷ y ∷ ys))
  ]

  insertion_sort-perm : (xs : List A) → Permᴰ (insertion_sort xs) xs
  insertion_sort-perm [] = nil
  insertion_sort-perm (x ∷ xs) =
      trans (insert-perm x (insertion_sort xs)) (cons refl (insertion_sort-perm xs))

  All-insert {κ} : (P : A → Type κ) (x : A) (ys : List A) → P x → All P ys → All P (insert x ys)
  All-insert P x [] h hs = (h, tt)
  All-insert P x (y ∷ ys) h (k, ks) = elim (Bool-cases (lt y x)) [
    | inl e ↦ rw e (k, All-insert P x ys h ks)
    | inr e ↦ rw e (h, (k, ks))
  ]

  all_of-at : (p : A → Bool) (xs : List A) {a : A} → all_of p xs ≡ true → Memᴰ a xs → p a ≡ true
  all_of-at p [] h m = elim m [ ]
  all_of-at p (x ∷ xs) h (head e) = rw e (ground arith)
  all_of-at p (x ∷ xs) h (tail m) = all_of-at p xs (ground arith) m

  module _ (all : List A) (weak : strict_weak_on lt all ≡ true) where
    abbrev Known : A → Type ℓ
    Known x = Memᴰ x all

    irreflexive : (x : A) → Known x → lt x x ≡ false
    unfolding strict_weak_on
    irreflexive x m =
        let at_x : not (lt x x) ≡ true =
          all_of-at (λ x. not (lt x x)) all (ground (arith, weak)) m in
        ground arith

    abbrev linking : A → A → A → Bool
    linking x y z =
        implies (lt x y && lt y z) (lt x z)
        && implies (equivalent lt x y && equivalent lt y z) (equivalent lt x z)

    linked : (x y z : A) → Known x → Known y → Known z → linking x y z ≡ true
    unfolding strict_weak_on
    linked x y z mx my mz =
        let every : all_of (λ x. all_of (λ y. all_of (λ z. linking x y z) all) all) all ≡ true =
          ground (arith, weak) in
        all_of-at (linking x y) all
          (all_of-at (λ y. all_of (λ z. linking x y z) all) all
            (all_of-at (λ x. all_of (λ y. all_of (λ z. linking x y z) all) all) all every mx) my)
          mz

    -- What is not before `y`, which is not before `x`, is not before `x`.
    behind :
        (x y z : A) → Known x → Known y → Known z → lt z y ≡ false → lt y x ≡ false → lt z x ≡ false
    behind x y z mx my mz h k =
        ground (arith, linked z x y mz mx my, linked y z x my mz mx, linked z y x mz my mx)

    asymmetric : (x y : A) → Known x → Known y → lt y x ≡ true → lt x y ≡ false
    asymmetric x y mx my h = ground (arith, linked x y x mx my mx, irreflexive x mx)

    insert-IsSorted :
        (x : A) (ys : List A) → Known x → All Known ys → IsSorted lt ys → IsSorted lt (insert x ys)
    insert-IsSorted x [] mx ms s = (tt, tt)
    insert-IsSorted x (y ∷ ys) mx (my, ms) (s, ss) = elim (Bool-cases (lt y x)) [
      | inl e ↦ rw e (
        All-insert (λ z. lt z y ≡ false) x ys (asymmetric x y mx my e) s,
        insert-IsSorted x ys mx ms ss,
      )
      | inr e ↦ rw e ((e, past ys ms s e), (s, ss))
    ]
      where
        past :
            (zs : List A)
            → All Known zs
            → All (λ z. lt z y ≡ false) zs
            → lt y x ≡ false
            → All (λ z. lt z x ≡ false) zs
        past [] hs ks e = tt
        past (z ∷ zs) (h, hs) (k, ks) e = (behind x y z mx my h k e, past zs hs ks e)

    sort-All : (xs : List A) → All Known xs → All Known (insertion_sort xs)
    sort-All [] h = tt
    sort-All (x ∷ xs) (h, hs) = All-insert Known x (insertion_sort xs) h (sort-All xs hs)

    insertion_sort-IsSorted : (xs : List A) → All Known xs → IsSorted lt (insertion_sort xs)
    insertion_sort-IsSorted [] h = tt
    insertion_sort-IsSorted (x ∷ xs) (h, hs) =
        insert-IsSorted x (insertion_sort xs) h (sort-All xs hs) (insertion_sort-IsSorted xs hs)

All-self {ℓ} : {A : Type ℓ} (xs : List A) → All (λ x. Memᴰ x xs) xs
All-self [] = tt
All-self (x ∷ xs) = (head refl, All-map _ _ xs (λ y m. tail m) (All-self xs))

module _ {ℓ} {A : Type ℓ} where
  instance abbrev pub insertion : Algorithms A
  insertion = record { sort = insertion_sort; partition = λ p xs. (keep_if p xs, remove_if p xs) }

  filters-perm : (p : A → Bool) (xs : List A) → Permᴰ (keep_if p xs ++ remove_if p xs) xs
  filters-perm p [] = nil
  filters-perm p (x ∷ xs) = elim (Bool-cases (p x)) [
    | inl e ↦ rw e (cons refl (filters-perm p xs))
    | inr e ↦
        rw e (trans (middle x (keep_if p xs) (remove_if p xs)) (cons refl (filters-perm p xs)))
  ]

  pub insertion-IsStandard : IsStandard A
  insertion-IsStandard = record {
    sort-perm = λ lt xs weak. insertion_sort-perm lt xs;
    sort-IsSorted = λ lt xs weak. insertion_sort-IsSorted lt xs weak xs (All-self xs);
    partition-perm = filters-perm;
    partition_first = λ p xs.
        All-map _ _ (keep_if p xs) (λ x e. ground arith) (remove_if-All (λ x. not (p x)) xs);
    partition_second = remove_if-All;
  }

-- ===== src/Base/Lists.antt =====
-- Lists measured and indexed by native numbers, predicates on lists, and the standard algorithms
-- whose result C++ fixes: `any_of`, `remove_if`, `unique`.
use Prim.Native.Nat.{ℕ, zero, suc, ◌+◌, ◌≤◌, ◌<◌}
use mathlib.Core.Path.{◌≡◌, refl, sym, ap, subst}
use mathlib.Core.Bool.{Bool, true, false, not, ◌||◌}
use mathlib.Core.Logic.{inl, inr}
use mathlib.Core.List.{List, [], ◌∷◌, ◌++◌, Memᴰ}
use mathlib.Core.List.Memᴰ.{head, tail}
use mathlib.Core.Option.{Option, none, some}
use native.Mathlib.Omega.{arith}
use flexman.Base.Tests.{if◌then◌else◌, Bool-cases}

module _ {ℓ} {A : Type ℓ} where
  abbrev pub length : List A → ℕ
  length [] = 0
  length (x ∷ xs) = suc (length xs)

  abbrev pub get_elem? : List A → ℕ → Option A
  get_elem? [] i = none
  get_elem? (x ∷ xs) zero = some x
  get_elem? (x ∷ xs) (suc i) = get_elem? xs i

  -- `vector::back`; `none` on an empty vector.
  abbrev pub back : List A → Option A
  back [] = none
  back (x ∷ []) = some x
  back (x ∷ y ∷ xs) = back (y ∷ xs)

  abbrev pub is_empty : List A → Bool
  is_empty [] = true
  is_empty (x ∷ xs) = false

  abbrev pub All {κ} : (A → Type κ) → List A → Type κ
  All P [] = Unit
  All P (x ∷ xs) = P x × All P xs

  -- `std::any_of`
  abbrev pub any_of : (A → Bool) → List A → Bool
  any_of p [] = false
  any_of p (x ∷ xs) = p x || any_of p xs

  -- `erase(remove_if(begin, end, p), end)`: what passes the test goes, the rest keeps its order.
  abbrev pub remove_if : (A → Bool) → List A → List A
  remove_if p [] = []
  remove_if p (x ∷ xs) = let rest = remove_if p xs in if p x then rest else x ∷ rest

  abbrev pub keep_if : (A → Bool) → List A → List A
  keep_if p = remove_if (λ x. not (p x))

  -- Some element of the list has the property.
  abbrev pub Some {κ} : (A → Type κ) → List A → Type (ℓ ⊔ κ)
  Some P xs = (a : A) × Memᴰ a xs × P a

  abbrev pub count_if : (A → Bool) → List A → ℕ
  count_if p [] = 0
  count_if p (x ∷ xs) = (if p x then 1 else 0) + count_if p xs

module _ {ℓ} {A : Type ℓ} where
  pub length-append : (xs ys : List A) → length (xs ++ ys) ≡ length xs + length ys
  length-append [] ys = omega arith
  length-append (x ∷ xs) ys = omega (arith, length-append xs ys)

  pub All-append {κ} : (P : A → Type κ) (xs ys : List A) → All P xs → All P ys → All P (xs ++ ys)
  All-append P [] ys p q = q
  All-append P (x ∷ xs) ys (p, ps) q = (p, All-append P xs ys ps q)

  pub All-map {κ μ} :
      (P : A → Type κ) (Q : A → Type μ) (xs : List A) → ((x : A) → P x → Q x) → All P xs → All Q xs
  All-map P Q [] f p = tt
  All-map P Q (x ∷ xs) f (p, ps) = (f x p, All-map P Q xs f ps)

  -- What `remove_if` leaves had every property of the list, and fails the test.
  pub All-remove_if {κ} :
      (P : A → Type κ) (p : A → Bool) (xs : List A) → All P xs → All P (remove_if p xs)
  All-remove_if P p [] h = tt
  All-remove_if P p (x ∷ xs) (h, hs) = ground (arith, All-remove_if P p xs hs)

  pub remove_if-All : (p : A → Bool) (xs : List A) → All (λ x. p x ≡ false) (remove_if p xs)
  remove_if-All p [] = tt
  remove_if-All p (x ∷ xs) = ground (arith, remove_if-All p xs)

  pub length-remove_if-le : (p : A → Bool) (xs : List A) → length (remove_if p xs) ≤ length xs
  length-remove_if-le p [] = omega arith
  length-remove_if-le p (x ∷ xs) = ground (arith, length-remove_if-le p xs)

  pub All-append_left {κ} : (P : A → Type κ) (xs ys : List A) → All P (xs ++ ys) → All P xs
  All-append_left P [] ys h = tt
  All-append_left P (x ∷ xs) ys (h, hs) = (h, All-append_left P xs ys hs)

  pub All-append_right {κ} : (P : A → Type κ) (xs ys : List A) → All P (xs ++ ys) → All P ys
  All-append_right P [] ys h = h
  All-append_right P (x ∷ xs) ys (h, hs) = All-append_right P xs ys hs

  pub any_of-false : (p : A → Bool) (xs : List A) → any_of p xs ≡ false → All (λ x. p x ≡ false) xs
  any_of-false p [] h = tt
  any_of-false p (x ∷ xs) h = ground (arith, any_of-false p xs)

  -- An element that fails the test does not count.
  pub any_of-append_cons :
      (p : A → Bool) (xs ys : List A) (x : A)
      → p x ≡ false
      → any_of p (xs ++ x ∷ ys) ≡ any_of p (xs ++ ys)
  any_of-append_cons p [] ys x h = ground arith
  any_of-append_cons p (y ∷ xs) ys x h = ground (arith, any_of-append_cons p xs ys x h)

  pub All-× {κ μ} :
      (P : A → Type κ) (Q : A → Type μ) (xs : List A)
      → All P xs
      → All Q xs
      → All (λ x. P x × Q x) xs
  All-× P Q [] p q = tt
  All-× P Q (x ∷ xs) (p, ps) (q, qs) = ((p, q), All-× P Q xs ps qs)

  pub any_of-true : (p : A → Bool) (xs : List A) → any_of p xs ≡ true → Some (λ x. p x ≡ true) xs
  any_of-true p [] h = cc
  any_of-true p (x ∷ xs) h = elim (Bool-cases (p x)) [
    | inl e ↦ (x, head refl, e)
    | inr e ↦ let (y, m, t) = any_of-true p xs (ground arith) in (y, tail m, t)
  ]

  pub All-at {κ} : (P : A → Type κ) (xs : List A) {a : A} → All P xs → Memᴰ a xs → P a
  All-at P [] h m = elim m [ ]
  All-at P (x ∷ xs) (h, hs) (head e) = subst P (sym e) h
  All-at P (x ∷ xs) (h, hs) (tail m) = All-at P xs hs m

  -- What `remove_if` does not test away is left.
  pub mem-remove_if :
      (p : A → Bool) (xs : List A) {a : A} → p a ≡ false → Memᴰ a xs → Memᴰ a (remove_if p xs)
  mem-remove_if p [] h m = elim m [ ]
  mem-remove_if p (x ∷ xs) h (head e) = rw (subst (λ y. p y ≡ false) e h) (head e)
  mem-remove_if p (x ∷ xs) h (tail m) = elim (Bool-cases (p x)) [
    | inl e ↦ rw e (mem-remove_if p xs h m)
    | inr e ↦ rw e (tail (mem-remove_if p xs h m))
  ]

  count_if-le :
      (p q : A → Bool) (xs : List A)
      → ((x : A) → p x ≡ true → q x ≡ true)
      → count_if p xs ≤ count_if q xs
  count_if-le p q [] h = omega arith
  count_if-le p q (x ∷ xs) h = ground (arith, h x, count_if-le p q xs h)

  -- A weaker test passes more often, if some element passes it alone.
  pub count_if-lt :
      (p q : A → Bool) (xs : List A) {a : A}
      → ((x : A) → p x ≡ true → q x ≡ true)
      → Memᴰ a xs
      → p a ≡ false
      → q a ≡ true
      → count_if p xs < count_if q xs
  count_if-lt p q [] h m hp hq = elim m [ ]
  count_if-lt p q (x ∷ xs) {a} h (head e) hp hq =
      ground (arith, count_if-le p q xs h, ap p e, ap q e)
  count_if-lt p q (x ∷ xs) h (tail m) hp hq = ground (arith, h x, count_if-lt p q xs h m hp hq)

  pub remove_if-mem :
      (p : A → Bool) (xs : List A) {a : A} → Memᴰ a (remove_if p xs) → Memᴰ a xs × (p a ≡ false)
  remove_if-mem p [] m = elim m [ ]
  remove_if-mem p (x ∷ xs) {a} m = elim (Bool-cases (p x)) [
    | inl e ↦ let (k, f) = remove_if-mem p xs (rw e at m) in (tail k, f)
    | inr e ↦ split (remove_if-mem p xs) (rw e at m) e
  ]
    where
      split :
          (Memᴰ a (remove_if p xs) → Memᴰ a xs × (p a ≡ false))
          → Memᴰ a (x ∷ remove_if p xs)
          → p x ≡ false
          → Memᴰ a (x ∷ xs) × (p a ≡ false)
      split below (head f) e = (head f, subst (λ y. p y ≡ false) (sym f) e)
      split below (tail k) e = (tail (below k).0, (below k).1)

  pub All-any_of : (p : A → Bool) (xs : List A) → All (λ x. p x ≡ false) xs → any_of p xs ≡ false
  All-any_of p [] h = refl
  All-any_of p (x ∷ xs) (h, hs) = ground (arith, All-any_of p xs hs)

  pub All-intro {κ} : (P : A → Type κ) (xs : List A) → ((x : A) → Memᴰ x xs → P x) → All P xs
  All-intro P [] h = tt
  All-intro P (x ∷ xs) h = (h x (head refl), All-intro P xs (λ y m. h y (tail m)))

  pub get_elem?-lt : (xs : List A) (i : ℕ) (a : A) → get_elem? xs i ≡ some a → i < length xs
  get_elem?-lt [] i a h = cc
  get_elem?-lt (x ∷ xs) zero a h = omega arith
  get_elem?-lt (x ∷ xs) (suc i) a h = omega (arith, get_elem?-lt xs i a h)

  pub get_elem?-some : (xs : List A) (i : ℕ) → i < length xs → (a : A) × (get_elem? xs i ≡ some a)
  get_elem?-some [] i h = let no : ⊥ = omega arith in elim no [ ]
  get_elem?-some (x ∷ xs) zero h = (x, refl)
  get_elem?-some (x ∷ xs) (suc i) h = get_elem?-some xs i (omega arith)

  pub All-get_elem? {κ} :
      (P : A → Type κ) (xs : List A) (i : ℕ) (a : A) → All P xs → get_elem? xs i ≡ some a → P a
  All-get_elem? P [] i a h e = cc
  All-get_elem? P (x ∷ xs) zero a (h, hs) e = let same : x ≡ a = cc in subst P same h
  All-get_elem? P (x ∷ xs) (suc i) a (h, hs) e = All-get_elem? P xs i a hs e

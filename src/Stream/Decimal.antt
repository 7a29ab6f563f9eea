-- ===== src/Stream/Decimal.antt =====
-- The numbers that stand in a text, read by one pass over its characters.
use mathlib.Core.List.{append-nil, append_assoc}
use flexman.Base.{
  ℕ, zero, suc, ◌+◌, ◌-◌, ◌*◌, ◌/◌, ◌%◌, ◌<◌, ◌≡◌, refl, ap, sym, ◌∙◌, Bool, ◌&&◌, Option, none,
  some, List, [], ◌∷◌, ◌++◌, length, leb, All, All-append, ◌==◌, ltb, if◌then◌else◌, arith,
  Bool-cases, inl, inr, true, false,
}
use flexman.Stream.{Text, Adjust, left_side, right_side, pad, spaces, digits, digits_of}

abbrev is_digit : ℕ → Bool
is_digit c = leb 48 c && leb c 57

-- What a character ends, and the number that it goes on with.
abbrev step : Option ℕ → ℕ → List ℕ × Option ℕ
step none c = ([], if is_digit c then some (c - 48) else none)
step (some n) c = if is_digit c then ([], some (10 * n + (c - 48))) else (n ∷ [], none)

abbrev scan : Option ℕ → Text → List ℕ
scan none [] = []
scan (some n) [] = n ∷ []
scan s (c ∷ t) = let (found, s') = step s c in found ++ scan s' t

-- The digits_of numbers in a text, in their order.
abbrev pub numbers_in : Text → List ℕ
numbers_in = scan none

scan-last :
    (n d : ℕ) (t : Text) → d < 10 → scan (some n) ((48 + d) ∷ t) ≡ scan (some (10 * n + d)) t
scan-last n d t h =
    let digit : is_digit (48 + d) ≡ true = ground arith in
    let value : 48 + d - 48 ≡ d = omega arith in rw (digit, value) refl

scan-first : (n : ℕ) (t : Text) → n < 10 → scan none ((48 + n) ∷ t) ≡ scan (some n) t
scan-first n t h =
    let digit : is_digit (48 + n) ≡ true = ground arith in
    let value : 48 + n - 48 ≡ n = omega arith in rw (digit, value) refl

pub digits_one : (fuel n : ℕ) → ltb n 10 ≡ true → digits (suc fuel) n ≡ (48 + n) ∷ []
digits_one fuel n e = rw (digits, e) refl

pub digits_more :
    (fuel n : ℕ)
    → ltb n 10 ≡ false
    → digits (suc fuel) n ≡ digits fuel (n / 10) ++ (48 + n % 10) ∷ []
digits_more fuel n e = rw (digits, e) refl

-- Enough fuel is one more than the number.
scan-digits : (fuel n : ℕ) (t : Text) → n < fuel → scan none (digits fuel n ++ t) ≡ scan (some n) t
scan-digits zero n t h = let no : ⊥ = omega arith in elim no [ ]
scan-digits (suc fuel) n t h = elim (Bool-cases (ltb n 10)) [
  | inl e ↦ rw (digits_one fuel n e) (scan-first n t (ground arith))
  | inr e ↦
      let high : n / 10 < fuel = ground arith in
      let whole : 10 * (n / 10) + n % 10 ≡ n = omega arith in
      rw
        (
          digits_more fuel n e,
          append_assoc (digits fuel (n / 10)) ((48 + n % 10) ∷ []) t,
          scan-digits fuel (n / 10) ((48 + n % 10) ∷ t) high,
        )
        (scan-last (n / 10) (n % 10) t (omega arith) ∙ rw whole refl)
]

scan-spaces : (k : ℕ) (t : Text) → scan none (spaces k ++ t) ≡ scan none t
scan-spaces zero t = refl
scan-spaces (suc k) t = scan-spaces k t

ends_with_text : (k n : ℕ) → scan (some n) (spaces k) ≡ n ∷ []
ends_with_text zero n = refl
ends_with_text (suc k) n =
    ap (λ u. n ∷ scan none u) (sym (append-nil (spaces k))) ∙ ap (n ∷◌) (scan-spaces k [])

ends_before_space : (k n : ℕ) (t : Text) → scan (some n) (spaces k ++ 32 ∷ t) ≡ n ∷ scan none t
ends_before_space zero n t = refl
ends_before_space (suc k) n t = ap (n ∷◌) (scan-spaces k (32 ∷ t))

numbers_in-digits_of : (n : ℕ) (t : Text) → numbers_in (digits_of n ++ t) ≡ scan (some n) t
unfolding digits_of
numbers_in-digits_of n t = scan-digits (suc n) n t (omega arith)

-- A number filled up on the left, a star, and a number filled up on the right.
pub numbers_in-pair :
    (i j m n : ℕ)
    → numbers_in ((spaces i ++ digits_of m) ++ 42 ∷ (digits_of n ++ spaces j)) ≡ m ∷ n ∷ []
numbers_in-pair i j m n =
    rw
      (
        append_assoc (spaces i) (digits_of m) (42 ∷ (digits_of n ++ spaces j)),
        scan-spaces i (digits_of m ++ 42 ∷ (digits_of n ++ spaces j)),
        numbers_in-digits_of m (42 ∷ (digits_of n ++ spaces j)),
        numbers_in-digits_of n (spaces j),
        ends_with_text j n,
      )
      refl

-- The same in front of a space.
pub numbers_in-pairs :
    (i j m n : ℕ) (t : Text)
    → numbers_in (((spaces i ++ digits_of m) ++ 42 ∷ (digits_of n ++ spaces j)) ++ 32 ∷ t)
      ≡ m ∷ n ∷ numbers_in t
numbers_in-pairs i j m n t =
    rw
      (
        append_assoc (spaces i ++ digits_of m) (42 ∷ (digits_of n ++ spaces j)) (32 ∷ t),
        append_assoc (spaces i) (digits_of m) (42 ∷ ((digits_of n ++ spaces j) ++ 32 ∷ t)),
        append_assoc (digits_of n) (spaces j) (32 ∷ t),
        scan-spaces i (digits_of m ++ 42 ∷ (digits_of n ++ (spaces j ++ 32 ∷ t))),
        numbers_in-digits_of m (42 ∷ (digits_of n ++ (spaces j ++ 32 ∷ t))),
        numbers_in-digits_of n (spaces j ++ 32 ∷ t),
        ends_before_space j n t,
      )
      refl

pub pad-zero : (a : Adjust) (t : Text) → pad a 0 t ≡ t
pad-zero left_side t = let none_left : 0 - length t ≡ 0 = omega arith in rw none_left (append-nil t)
pad-zero right_side t = let none_left : 0 - length t ≡ 0 = omega arith in rw none_left refl

-- A padded number has none but digits and spaces.
abbrev pub Omits : ℕ → Text → Type 0
Omits c = All (λ x. (x == c) ≡ false)

spaces-Omits : (n : ℕ) → Omits 91 (spaces n)
spaces-Omits zero = tt
spaces-Omits (suc n) = (refl, spaces-Omits n)

digits-Omits : (fuel n : ℕ) → Omits 91 (digits fuel n)
digits-Omits zero n = tt
digits-Omits (suc fuel) n = elim (Bool-cases (ltb n 10)) [
  | inl e ↦
      let plain : (48 + n == 91) ≡ false = ground arith in rw (digits_one fuel n e) (plain, tt)
  | inr e ↦
      let plain : (48 + n % 10 == 91) ≡ false = ground arith in
      rw (digits_more fuel n e)
        (All-append _ (digits fuel (n / 10)) _ (digits-Omits fuel (n / 10)) (plain, tt))
]

pub pad-digits_of-Omits : (a : Adjust) (w n : ℕ) → Omits 91 (pad a w (digits_of n))
unfolding digits_of
pad-digits_of-Omits left_side w n =
    All-append _ (digits (suc n) n) _ (digits-Omits (suc n) n) (spaces-Omits _)
pad-digits_of-Omits right_side w n =
    All-append _ (spaces _) _ (spaces-Omits _) (digits-Omits (suc n) n)

-- ===== src/Support/Texts.antt =====
-- examples/fsmlib_support.hpp: the texts of vectors and matrices.
use mathlib.Core.List.{append-nil, append_assoc}
use flexman.Base.{
  ℕ, zero, suc, ◌+◌, ◌-◌, ◌≡◌, refl, sym, ap, ◌∙◌, true, false, List, [], ◌∷◌, ◌++◌, ltb,
  if◌then◌else◌, arith,
}
use flexman.Stream.{Text, Stream, Printable, right_side, new_stream, ◌<<◌, put, put_double}
use flexman.Stream.Decimal.{pad-zero}
use flexman.Tapping.{Indexed}
use flexman.Support.{Celled}

-- The `for` with `left` of `size` entries to go, from `i` on, with a comma after all but the last.
-- Where the body is run, `size` is not zero.
unfoldable pub put_entries : (entry : ℕ → Stream → Stream) → (size left i : ℕ) → Stream → Stream
put_entries entry size zero i ss = ss
put_entries entry size (suc left) i ss =
    let ss' = ss << entry i in
    put_entries entry size left (i + 1) (if ltb i (size - 1) then ss' << put ", " else ss')

module _ {ℓ} (Real : Type ℓ) ⦃p : Printable Real⦄ where
  unfoldable pub vector_to_string :
      {Vector : Type ℓ} ⦃v : Indexed Real Vector⦄ → (size : ℕ) → Vector → Text
  vector_to_string ⦃v⦄ size rhs =
      (new_stream
        << put "["
        << put_entries (λ i. put_double (v.at rhs i)) size size 0
        << put "]").text

  unfoldable pub matrix_to_string :
      {Matrix : Type ℓ} ⦃m : Celled Real Matrix⦄ → (rows cols : ℕ) → Matrix → Text
  matrix_to_string ⦃m⦄ rows cols rhs =
      (new_stream
        << put "["
        << put_entries
            (λ r ss.
              ss
              << put "["
              << put_entries (λ c. put_double (m.cell rhs r c)) cols cols 0
              << put "]")
            rows rows 0
        << put "]").text

-- The texts of the entries from `i` on.
abbrev pub texts_from : (ℕ → Text) → (left i : ℕ) → List Text
texts_from f zero i = []
texts_from f (suc left) i = f i ∷ texts_from f left (i + 1)

-- Between each two texts a comma and a space, and brackets around them.
abbrev pub join : List Text → Text
join [] = []
join (t ∷ []) = t
join (t ∷ u ∷ ts) = t ++ 44 ∷ 32 ∷ join (u ∷ ts)

abbrev pub bracketed : List Text → Text
bracketed ts = 91 ∷ (join ts ++ 93 ∷ [])

-- A stream with this text whose flags are those of a new one.
abbrev plain : Text → Stream
plain t = record new_stream { text = t }

put_entries-plain :
    (entry : ℕ → Stream → Stream) (f : ℕ → Text)
    → ((i : ℕ) (t : Text) → entry i (plain t) ≡ plain (t ++ f i))
    → (size left i : ℕ) (t : Text) → i + left ≡ size
    → put_entries entry size left i (plain t) ≡ plain (t ++ join (texts_from f left i))
unfolding put_entries
put_entries-plain entry f h size zero i t e = ap plain (sym (append-nil t))
put_entries-plain entry f h size (suc zero) i t e =
    let last : ltb i (size - 1) ≡ false = ground arith in rw (last, h i t) refl
put_entries-plain entry f h size (suc (suc left)) i t e =
    let more : ltb i (size - 1) ≡ true = ground arith in
    rw (more, h i t)
      (put_entries-plain entry f h size (suc left) (i + 1) ((t ++ f i) ++ 44 ∷ 32 ∷ [])
          (omega arith)
        ∙ ap plain (simp append_assoc))

module _ {ℓ} (Real : Type ℓ) ⦃p : Printable Real⦄ where
  put_double-plain : (x : Real) (t : Text) → put_double x (plain t) ≡ plain (t ++ p.show false 6 x)
  put_double-plain x t = ap (λ u. plain (t ++ u)) (pad-zero right_side (p.show false 6 x))

  put_row-plain :
      {Matrix : Type ℓ} ⦃m : Celled Real Matrix⦄ (cols : ℕ) (b : Matrix) (r : ℕ) (t : Text)
      → (plain t << put "[" << put_entries (λ c. put_double (m.cell b r c)) cols cols 0 << put "]")
        ≡ plain (t ++ bracketed (texts_from (λ c. p.show false 6 (m.cell b r c)) cols 0))
  put_row-plain ⦃m⦄ cols b r t =
      ap (put "]") (
        put_entries-plain (λ c. put_double (m.cell b r c)) (λ c. p.show false 6 (m.cell b r c))
          (λ c u. put_double-plain (m.cell b r c) u) cols cols 0 (t ++ 91 ∷ []) (omega arith))
      ∙ ap plain (simp append_assoc)

  -- The texts of a vector and of a matrix are those of their entries, joined by commas in brackets,
  -- and for a matrix once more in brackets row by row.
  pub to_string-bracketed :
      {Vector Matrix : Type ℓ} ⦃v : Indexed Real Vector⦄ ⦃m : Celled Real Matrix⦄ (rows cols : ℕ)
      (a : Vector) (b : Matrix)
      → (vector_to_string Real cols a
          ≡ bracketed (texts_from (λ i. p.show false 6 (v.at a i)) cols 0))
        × (matrix_to_string Real rows cols b
            ≡ bracketed (
                texts_from
                  (λ r. bracketed (texts_from (λ c. p.show false 6 (m.cell b r c)) cols 0))
                  rows
                  0))
  unfolding vector_to_string matrix_to_string
  to_string-bracketed ⦃v⦄ ⦃m⦄ rows cols a b = (
    ap (λ ss. (put "]" ss).text)
        (put_entries-plain (λ i. put_double (v.at a i)) (λ i. p.show false 6 (v.at a i))
          (λ i t. put_double-plain (v.at a i) t) cols cols 0 (91 ∷ []) (omega arith)),
    ap (λ ss. (put "]" ss).text)
        (put_entries-plain _
          (λ r. bracketed (texts_from (λ c. p.show false 6 (m.cell b r c)) cols 0))
          (put_row-plain cols b) rows rows 0 (91 ∷ []) (omega arith)),
  )

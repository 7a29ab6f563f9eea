-- ===== src/Stream.antt =====
-- What the code uses of `std::stringstream`, `<iomanip>` and `<string>`: a text is the list of its
-- character codes, and a stream keeps the flags that the manipulators set. How a `double` is printed
-- is a parameter.
pub mod Decimal
use Prim.Native.Char.{code}
use Prim.Native.String.{String}
use flexman.Base.{
  ℕ, zero, suc, ◌+◌, ◌-◌, ◌/◌, ◌%◌, Bool, true, false, List, [], ◌∷◌, ◌++◌, length, ltb,
}

abbrev pub Text : Type 0
Text = List ℕ

abbrev pub codes : String → Text
codes String.[] = []
codes (String.◌∷◌ c s) = code c ∷ codes s

pub data Adjust : Type 0 where
  left_side : Adjust
  right_side : Adjust

-- `width` holds for the next output only, the other flags stay until they are set again.
pub record Stream : Type 0 where
  pub text : Text
  pub width : ℕ
  pub adjust : Adjust
  pub is_fixed : Bool
  pub precision : ℕ

-- `<<` of a number that is no integer, under the flags of the stream.
pub record Printable {ℓ} (Real : Type ℓ) : Type ℓ where
  pub show : (is_fixed : Bool) → (precision : ℕ) → Real → Text

-- `std::stringstream ss;`
abbrev pub new_stream : Stream
new_stream = record { text = []; width = 0; adjust = right_side; is_fixed = false; precision = 6 }

infixl 20 ◌<<◌
abbrev pub ◌<<◌ : Stream → (Stream → Stream) → Stream
ss << f = f ss

abbrev pub setw : ℕ → Stream → Stream
setw n ss = record ss { width = n }

abbrev pub setprecision : ℕ → Stream → Stream
setprecision n ss = record ss { precision = n }

abbrev pub fixed : Stream → Stream
fixed ss = record ss { is_fixed = true }

abbrev pub right : Stream → Stream
right ss = record ss { adjust = right_side }

abbrev pub left : Stream → Stream
left ss = record ss { adjust = left_side }

abbrev pub spaces : ℕ → Text
spaces zero = []
spaces (suc n) = 32 ∷ spaces n

abbrev pub pad : Adjust → ℕ → Text → Text
pad left_side width t = t ++ spaces (width - length t)
pad right_side width t = spaces (width - length t) ++ t

-- `<<` of a text, which fills it up to the width of the stream.
abbrev pub put_text : Text → Stream → Stream
put_text t ss = record ss { text = ss.text ++ pad ss.adjust ss.width t; width = 0 }

abbrev pub put : String → Stream → Stream
put s = put_text (codes s)

-- The digits of a number, the highest first; as much fuel as the number has digits is enough.
abbrev pub digits : (fuel n : ℕ) → Text
digits zero n = []
digits (suc fuel) n = elim (ltb n 10) [
  | true ↦ (48 + n) ∷ []
  | false ↦ digits fuel (n / 10) ++ (48 + n % 10) ∷ []
]

unfoldable pub digits_of : ℕ → Text
digits_of n = digits (suc n) n

-- `<<` of a `size_t` or an `unsigned`
abbrev pub put_number : ℕ → Stream → Stream
put_number n = put_text (digits_of n)

-- `<<` of a `double`
abbrev pub put_double {ℓ} : {Real : Type ℓ} → ⦃p : Printable Real⦄ → Real → Stream → Stream
put_double ⦃p⦄ x ss = put_text (p.show ss.is_fixed ss.precision x) ss

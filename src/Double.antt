-- ===== src/Double.antt =====
-- What the code does with a `double`, over any type of numbers, and the one thing that it asks of
-- the type `Resources` beside it. The literals of include/flexman are whole numbers.
use flexman.Base.{ℕ, Bool, Option, if◌then◌else◌}

pub record Double {ℓ} (Real : Type ℓ) : Type ℓ where
  -- a literal, and `static_cast<double>` of a `size_t` or an `unsigned`
  pub of_ℕ : ℕ → Real
  -- `std::numeric_limits<double>::max()`
  pub highest : Real
  pub add : Real → Real → Real
  pub sub : Real → Real → Real
  pub mul : Real → Real → Real
  pub div : Real → Real → Real
  pub abs : Real → Real
  pub lt : Real → Real → Bool
  pub le : Real → Real → Bool
  -- `static_cast<unsigned>` and `static_cast<std::size_t>`, which C++ leaves undefined out of range
  pub to_unsigned : Real → Option ℕ
  pub to_size : Real → Option ℕ

module _ {ℓ} {Real : Type ℓ} ⦃d : Double Real⦄ where
  infixl 65 ◌⊕◌ ◌⊖◌
  infixl 70 ◌⊗◌ ◌⊘◌
  infix 50 ◌≺◌ ◌≼◌
  abbrev pub ◌⊕◌ : Real → Real → Real
  ◌⊕◌ = d.add

  abbrev pub ◌⊖◌ : Real → Real → Real
  ◌⊖◌ = d.sub

  abbrev pub ◌⊗◌ : Real → Real → Real
  ◌⊗◌ = d.mul

  abbrev pub ◌⊘◌ : Real → Real → Real
  ◌⊘◌ = d.div

  abbrev pub ◌≺◌ : Real → Real → Bool
  ◌≺◌ = d.lt

  abbrev pub ◌≼◌ : Real → Real → Bool
  ◌≼◌ = d.le

  -- `std::max(a, b)`
  abbrev pub max_of : Real → Real → Real
  max_of a b = if a ≺ b then b else a

-- `Resources()`, `==` and `<` of the template's type of resources.
pub record Consumable {ℓ} (Resources : Type ℓ) : Type ℓ where
  pub fresh : Resources
  pub beq : Resources → Resources → Bool
  pub less : Resources → Resources → Bool

-- The fields that particle swarm optimisation adds up.
pub record Metered {ℓ} (Real Resources : Type ℓ) : Type ℓ where
  pub energy : Resources → Real
  pub time : Resources → Real

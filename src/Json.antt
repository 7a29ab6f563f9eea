-- ===== src/Json.antt =====
-- The nodes of the json library, which is not in the repository: its calls as a parameter, with what
-- the operators of include/flexman/serialization.hpp and of the examples rely on.
pub mod Objects
use Prim.Native.String.{String}
use text.Mathlib.Text.{◌==◌ as str_eq}
use flexman.Base.{ℕ, ◌<◌, ◌≡◌, Bool, true, if◌then◌else◌, ◌==◌, List, map, Outcome, ok, ◌>>=◌}

-- `edit n k f` is `f(n[k])` on the node that the writing `operator[]` gives, and `slot n k` is that
-- node; `member` and `item` are the reading `operator[]`, which may throw.
pub record Json {ℓ} (Node : Type ℓ) : Type ℓ where
  pub clear : Node → Node
  pub set_object : Node → Node
  pub set_array : Node → Node
  pub is_object : Node → Bool
  pub is_array : Node → Bool
  pub member : Node → String → Outcome Node
  pub slot : Node → String → Node
  pub edit : Node → String → (Node → Node) → Node
  pub size : Node → ℕ
  pub resize : Node → ℕ → Node
  pub item : Node → ℕ → Outcome Node
  pub item_slot : Node → ℕ → Node
  pub edit_item : Node → ℕ → (Node → Node) → Node

-- An object holds what was last written under each key, an array what was last written at each index.
pub record IsJson {ℓ} (Node : Type ℓ) ⦃j : Json Node⦄ : Type ℓ where
  pub set_object-is_object : (n : Node) → j.is_object (j.set_object n) ≡ true
  pub edit-is_object :
      (n : Node) (k : String) (f : Node → Node)
      → j.is_object n ≡ true
      → j.is_object (j.edit n k f) ≡ true
  pub member-edit :
      (n : Node) (k : String) (f : Node → Node) (l : String)
      → j.is_object n ≡ true
      → j.member (j.edit n k f) l ≡ (if str_eq k l then ok (f (j.slot n k)) else j.member n l)
  pub set_array-is_array : (n : Node) → j.is_array (j.set_array n) ≡ true
  pub resize-is_array : (n : Node) (k : ℕ) → j.is_array n ≡ true → j.is_array (j.resize n k) ≡ true
  pub size-resize : (n : Node) (k : ℕ) → j.is_array n ≡ true → j.size (j.resize n k) ≡ k
  pub edit_item-is_array :
      (n : Node) (i : ℕ) (f : Node → Node)
      → j.is_array n ≡ true
      → j.is_array (j.edit_item n i f) ≡ true
  pub size-edit_item :
      (n : Node) (i : ℕ) (f : Node → Node)
      → j.is_array n ≡ true
      → i < j.size n
      → j.size (j.edit_item n i f) ≡ j.size n
  pub item-edit_item :
      (n : Node) (i : ℕ) (f : Node → Node) (k : ℕ)
      → j.is_array n ≡ true
      → i < j.size n
      → j.item (j.edit_item n i f) k ≡ (if i == k then ok (f (j.item_slot n i)) else j.item n k)
  pub slot-edit_item :
      (n : Node) (i : ℕ) (f : Node → Node) (k : ℕ)
      → j.is_array n ≡ true
      → i < j.size n
      → j.item_slot (j.edit_item n i f) k
        ≡ (if i == k then f (j.item_slot n i) else j.item_slot n k)

-- `operator<<`, which writes a value over a node, and `operator>>`, which reads a node into a value
-- that is already there.
pub record Serial {ℓ κ} (Node : Type ℓ) (A : Type κ) : Type (ℓ ⊔ κ) where
  pub write : A → Node → Node
  pub read : Node → A → Outcome A

module _ {ℓ κ} {Node : Type ℓ} {A : Type κ} where
  -- What was written reads back as `f` of it and of the value that was there.
  abbrev pub ReadsAs : Serial Node A → (A → A → A) → Type (ℓ ⊔ κ)
  ReadsAs s f = (a old : A) (n : Node) → s.read (s.write a n) old ≡ ok (f a old)

  -- What was written reads back.
  abbrev pub RoundTrips : Serial Node A → Type (ℓ ⊔ κ)
  RoundTrips s = ReadsAs s (λ a old. a)

module _ {ℓ} {Node : Type ℓ} ⦃j : Json Node⦄ where
  -- `lhs[k] >> a`
  unfoldable pub read_member {κ} : {A : Type κ} ⦃s : Serial Node A⦄ → Node → String → A → Outcome A
  read_member ⦃s⦄ n k a = do m ← j.member n k; s.read m a

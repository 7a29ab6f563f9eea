-- ===== src/Examples/Nodes.antt =====
-- A concrete type of json nodes, on which the laws of Json hold, with the numbers and the flags
-- that it stores.
use Prim.Native.String.{String}
use text.Mathlib.Text.{◌==◌ as str_eq}
use flexman.Base.{
  ℕ, ◌<◌, ◌≡◌, refl, Bool, true, false, if◌then◌else◌, ◌==◌, ltb, Outcome, ok, throw, undefined,
  arith, Bool-cases, inl, inr,
}
use flexman.Json.{Json, IsJson, Serial}

pub data Node : Type 0 where
  blank : Node
  number : ℕ → Node
  object : (String → Node) → Node
  array : ℕ → (ℕ → Node) → Node

abbrev object_of : Node → Node
object_of (object f) = object f
object_of _ = object (λ k. blank)

abbrev array_of : Node → Node
array_of (array s f) = array s f
array_of _ = array 0 (λ i. blank)

abbrev is_object : Node → Bool
is_object (object f) = true
is_object _ = false

abbrev is_array : Node → Bool
is_array (array s f) = true
is_array _ = false

abbrev at_key : Node → String → Node
at_key (object f) k = f k
at_key _ k = blank

abbrev member : Node → String → Outcome Node
member (object f) k = ok (f k)
member _ k = throw undefined

abbrev edit : Node → String → (Node → Node) → Node
edit n k g = object (λ l. if str_eq k l then g (at_key n k) else at_key n l)

abbrev size : Node → ℕ
size (array s f) = s
size _ = 0

abbrev at_index : Node → ℕ → Node
at_index (array s f) i = f i
at_index _ i = blank

abbrev item : Node → ℕ → Outcome Node
item (array s f) i = if ltb i s then ok (f i) else throw undefined
item _ i = throw undefined

instance abbrev pub nodes : Json Node
nodes = record {
  clear = λ n. blank;
  set_object = object_of;
  set_array = array_of;
  is_object = is_object;
  is_array = is_array;
  member = member;
  slot = at_key;
  edit = edit;
  size = size;
  resize = λ n k. array k (at_index n);
  item = item;
  item_slot = at_index;
  edit_item = λ n i g. array (size n) (λ k. if i == k then g (at_index n i) else at_index n k);
}

set_object-is_object : (n : Node) → is_object (object_of n) ≡ true
set_object-is_object blank = refl
set_object-is_object (number x) = refl
set_object-is_object (object f) = refl
set_object-is_object (array s f) = refl

set_array-is_array : (n : Node) → is_array (array_of n) ≡ true
set_array-is_array blank = refl
set_array-is_array (number x) = refl
set_array-is_array (object f) = refl
set_array-is_array (array s f) = refl

member-edit :
    (n : Node) (k : String) (g : Node → Node) (l : String)
    → is_object n ≡ true
    → member (edit n k g) l ≡ (if str_eq k l then ok (g (at_key n k)) else member n l)
member-edit blank k g l o = cc
member-edit (number x) k g l o = cc
member-edit (array s f) k g l o = cc
member-edit (object f) k g l o = elim (Bool-cases (str_eq k l)) [
  | inl e ↦ rw e refl
  | inr e ↦ rw e refl
]

item-edit_item :
    (n : Node) (i : ℕ) (g : Node → Node) (k : ℕ)
    → is_array n ≡ true
    → i < size n
    → item (nodes.edit_item n i g) k ≡ (if i == k then ok (g (at_index n i)) else item n k)
item-edit_item blank i g k o h = cc
item-edit_item (number x) i g k o h = cc
item-edit_item (object f) i g k o h = cc
item-edit_item (array s f) i g k o h = elim (Bool-cases (i == k)) [
  | inl e ↦ let inside : ltb k s ≡ true = ground arith in rw (e, inside) refl
  | inr e ↦ rw e refl
]

pub nodes-IsJson : IsJson Node
nodes-IsJson = record {
  set_object-is_object = set_object-is_object;
  edit-is_object = λ n k g o. refl;
  member-edit = member-edit;
  set_array-is_array = set_array-is_array;
  resize-is_array = λ n k o. refl;
  size-resize = λ n k o. refl;
  edit_item-is_array = λ n i g o. refl;
  size-edit_item = λ n i g o h. refl;
  item-edit_item = item-edit_item;
  slot-edit_item = λ n i g k o h. refl;
}

abbrev read_number : Node → ℕ → Outcome ℕ
read_number (number x) old = ok x
read_number _ old = throw undefined

instance abbrev pub stored_numbers : Serial Node ℕ
stored_numbers = record { write = λ x n. number x; read = read_number }

abbrev read_flag : Node → Bool → Outcome Bool
read_flag (number x) old = ok (x == 1)
read_flag _ old = throw undefined

instance abbrev pub stored_flags : Serial Node Bool
stored_flags = record { write = λ b n. number (if b then 1 else 0); read = read_flag }

pub stored_flags-RoundTrips :
    (b old : Bool) (n : Node) → read_flag (stored_flags.write b n) old ≡ ok b
stored_flags-RoundTrips true old n = refl
stored_flags-RoundTrips false old n = refl

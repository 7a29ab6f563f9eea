-- ===== src/Base/Outcomes.antt =====
-- What a call can do: return, throw, or (on fuel) still be running.
use mathlib.Core.Path.{◌≡◌, refl}
use mathlib.Core.Bool.{Bool, true, false}
use mathlib.Core.Option.{Option, none, some}
use flexman.Base.Tests.{if◌then◌else◌}

-- The messages of `std::invalid_argument` in include/flexman, the behaviour that C++ leaves
-- undefined (an index out of range, `back` of an empty vector, a shift by 32 or more), and a template
-- that no compiler accepts when it is instantiated.
pub data Error : Type 0 where
  null_manager zero_steps no_modes same_vector zero_iterations undefined uncompilable : Error

pub data Outcome {ℓ} (A : Type ℓ) : Type ℓ where
  ok : A → Outcome A
  throw : Error → Outcome A
  running : Outcome A

infixl 5 ◌>>=◌ ◌>>◌
abbrev pub ◌>>=◌ {ℓ κ} : {A : Type ℓ} {B : Type κ} → Outcome A → (A → Outcome B) → Outcome B
ok a >>= f = f a
throw e >>= f = throw e
running >>= f = running

abbrev pub ◌>>◌ {ℓ} : {B : Type ℓ} → Outcome (Unit {0}) → Outcome B → Outcome B
m >> k = m >>= λ _. k

-- `if (bad) throw ...`
abbrev pub refuse_if : Bool → Error → Outcome (Unit {0})
refuse_if true e = throw e
refuse_if false e = ok tt

-- A pointer that may be null, an index that may be out of range.
abbrev pub or_throw {ℓ} : {A : Type ℓ} → Option A → Error → Outcome A
or_throw none e = throw e
or_throw (some a) e = ok a

-- The call returns, and its result has the property.
abbrev pub Returns {ℓ κ} : {A : Type ℓ} → (A → Type κ) → Outcome A → Type (ℓ ⊔ κ)
Returns {A} P m = (a : A) × (m ≡ ok a) × P a

-- If the call returns, its result has the property.
abbrev pub Ensures {ℓ κ} : {A : Type ℓ} → (A → Type κ) → Outcome A → Type κ
Ensures P (ok a) = P a
Ensures P (throw e) = Unit
Ensures P running = Unit

module _ {ℓ κ} {A : Type ℓ} {B : Type κ} where
  pub >>=-Ensures {μ ν} :
      (P : A → Type μ) (Q : B → Type ν) (m : Outcome A) (f : A → Outcome B)
      → Ensures P m
      → ((a : A) → P a → Ensures Q (f a))
      → Ensures Q (m >>= f)
  >>=-Ensures P Q (ok a) f h k = k a h
  >>=-Ensures P Q (throw e) f h k = tt
  >>=-Ensures P Q running f h k = tt

pub Ensures-map {ℓ κ μ} :
    {A : Type ℓ} (P : A → Type κ) (Q : A → Type μ) (m : Outcome A)
    → ((a : A) → P a → Q a)
    → Ensures P m
    → Ensures Q m
Ensures-map P Q (ok a) f h = f a h
Ensures-map P Q (throw e) f h = tt
Ensures-map P Q running f h = tt

pub Ensures-× {ℓ κ μ} :
    {A : Type ℓ} (P : A → Type κ) (Q : A → Type μ) (m : Outcome A)
    → Ensures P m
    → Ensures Q m
    → Ensures (λ a. P a × Q a) m
Ensures-× P Q (ok a) p q = (p, q)
Ensures-× P Q (throw e) p q = tt
Ensures-× P Q running p q = tt

pub Ensures-eq {ℓ} : {A : Type ℓ} (m : Outcome A) → Ensures (λ a. m ≡ ok a) m
Ensures-eq (ok a) = refl
Ensures-eq (throw e) = tt
Ensures-eq running = tt

-- A call whose result is not looked at.
pub then-Ensures {ℓ κ μ} :
    {A : Type ℓ} {B : Type κ} (Q : B → Type μ) (m : Outcome A) (f : A → Outcome B)
    → ((a : A) → Ensures Q (f a))
    → Ensures Q (m >>= f)
then-Ensures Q (ok a) f h = h a
then-Ensures Q (throw e) f h = tt
then-Ensures Q running f h = tt

pub if-Ensures {ℓ κ} :
    {A : Type ℓ} (Q : A → Type κ) (b : Bool) (m n : Outcome A)
    → Ensures Q m
    → Ensures Q n
    → Ensures Q (if b then m else n)
if-Ensures Q true m n h k = h
if-Ensures Q false m n h k = k

pub >>=-same {ℓ κ} :
    {A : Type ℓ} {B : Type κ} (m : Outcome A) (f g : A → Outcome B)
    → ((a : A) → f a ≡ g a)
    → (m >>= f) ≡ (m >>= g)
>>=-same (ok a) f g h = h a
>>=-same (throw e) f g h = refl
>>=-same running f g h = refl

-- Two calls that go on from the same one, looked at by what follows them.
pub then-same {ℓ κ μ} :
    {A : Type ℓ} {B : Type κ} {C : Type μ} (m : Outcome A) (f g : A → Outcome B)
    (after : B → Outcome C)
    → ((a : A) → (f a >>= after) ≡ (g a >>= after))
    → (m >>= f >>= after) ≡ (m >>= g >>= after)
then-same (ok a) f g after h = h a
then-same (throw e) f g after h = refl
then-same running f g after h = refl

-- The call ends: it returns, or it meets what C++ leaves undefined. It throws nothing.
abbrev pub Settles {ℓ} : {A : Type ℓ} → Outcome A → Type 0
Settles (ok a) = Unit
Settles (throw e) = e ≡ undefined
Settles running = ⊥

pub >>=-Settles {ℓ κ μ} :
    {A : Type ℓ} {B : Type κ} (P : A → Type μ) (m : Outcome A) (f : A → Outcome B)
    → Settles m
    → Ensures P m
    → ((a : A) → P a → Settles (f a))
    → Settles (m >>= f)
>>=-Settles P (ok a) f h e k = k a e
>>=-Settles P (throw e) f h p k = h
>>=-Settles P running f h e k = h

pub then-Settles {ℓ κ} :
    {A : Type ℓ} {B : Type κ} (m : Outcome A) (f : A → Outcome B)
    → Settles m
    → ((a : A) → Settles (f a))
    → Settles (m >>= f)
then-Settles (ok a) f h k = k a
then-Settles (throw e) f h k = h
then-Settles running f h k = h

pub or_throw-Settles {ℓ} : {A : Type ℓ} (o : Option A) → Settles (or_throw o undefined)
or_throw-Settles none = refl
or_throw-Settles (some a) = tt

pub if-Settles {ℓ} :
    {A : Type ℓ} (b : Bool) (m n : Outcome A) → Settles m → Settles n → Settles (if b then m else n)
if-Settles true m n h k = h
if-Settles false m n h k = k

pub Returns-Settles {ℓ κ} : {A : Type ℓ} {P : A → Type κ} (m : Outcome A) → Returns P m → Settles m
Returns-Settles (ok a) h = tt
Returns-Settles (throw e) h = cc (h.1)
Returns-Settles running h = cc (h.1)

-- The call returns.
abbrev pub IsOk {ℓ} : {A : Type ℓ} → Outcome A → Type 0
IsOk (ok a) = Unit
IsOk (throw e) = ⊥
IsOk running = ⊥

pub >>=-IsOk {ℓ κ μ} :
    {A : Type ℓ} {B : Type κ} (P : A → Type μ) (m : Outcome A) (f : A → Outcome B)
    → IsOk m
    → Ensures P m
    → ((a : A) → P a → IsOk (f a))
    → IsOk (m >>= f)
>>=-IsOk P (ok a) f h e k = k a e
>>=-IsOk P (throw x) f h e k = h
>>=-IsOk P running f h e k = h

pub then-IsOk {ℓ κ} :
    {A : Type ℓ} {B : Type κ} (m : Outcome A) (f : A → Outcome B)
    → IsOk m
    → ((a : A) → IsOk (f a))
    → IsOk (m >>= f)
then-IsOk (ok a) f h k = k a
then-IsOk (throw x) f h k = h
then-IsOk running f h k = h

pub if-IsOk {ℓ} :
    {A : Type ℓ} (b : Bool) (m n : Outcome A) → IsOk m → IsOk n → IsOk (if b then m else n)
if-IsOk true m n h k = h
if-IsOk false m n h k = k

pub Returns-IsOk {ℓ κ} : {A : Type ℓ} {P : A → Type κ} (m : Outcome A) → Returns P m → IsOk m
Returns-IsOk (ok a) h = tt
Returns-IsOk (throw e) h = cc (h.1)
Returns-IsOk running h = cc (h.1)

pub IsOk-Settles {ℓ} : {A : Type ℓ} (m : Outcome A) → IsOk m → Settles m
IsOk-Settles (ok a) h = tt
IsOk-Settles (throw e) h = absurd h
IsOk-Settles running h = absurd h

-- A call that returns what has the property, if it returns.
pub Returns-Ensures {ℓ κ} :
    {A : Type ℓ} (P : A → Type κ) (m : Outcome A) → IsOk m → Ensures P m → Returns P m
Returns-Ensures P (ok a) h e = (a, refl, e)
Returns-Ensures P (throw x) h e = absurd h
Returns-Ensures P running h e = absurd h

pub or_throw-Ensures {ℓ} :
    {A : Type ℓ} (o : Option A) (e : Error) → Ensures (λ a. o ≡ some a) (or_throw o e)
or_throw-Ensures none e = tt
or_throw-Ensures (some a) e = refl

-- ===== src/Common/Run.antt =====
-- The outcome of a call of C code.
use mathlib.Core.Path.{◌≡◌, refl}
use mathlib.Core.Bool.{Bool, true, false}
use mathlib.Core.Option.{Option, none, some}
use libimobiledevice.Common.Tests.{if◌then◌else◌}

-- `ret` is a return; `hangs` says that a loop has not come to its end within the rounds given to
-- it; `faults` is undefined behaviour: a write past a buffer, a null pointer read, a block freed
-- twice or used after it was freed.
pub data Run {ℓ} (A : Type ℓ) : Type ℓ where
  ret : A → Run A
  hangs : Run A
  faults : Run A

infixl 5 ◌>>=◌
abbrev pub ◌>>=◌ {ℓ κ} : {A : Type ℓ} {B : Type κ} → Run A → (A → Run B) → Run B
ret a >>= f = f a
hangs >>= f = hangs
faults >>= f = faults

-- The call comes back with a value.
abbrev pub Returns {ℓ} : {A : Type ℓ} → Run A → Type ℓ
Returns {A} r = (a : A) × (r ≡ ret a)

-- Every value that the call comes back with has the property.
abbrev pub Ensures {ℓ κ} : {A : Type ℓ} → Run A → (A → Type κ) → Type (ℓ ⊔ κ)
Ensures {A} r P = (a : A) → r ≡ ret a → P a

pub >>=-eq-ret {ℓ κ} :
    {A : Type ℓ} {B : Type κ} (m : Run A) (f : A → Run B) {b : B}
    → (m >>= f) ≡ ret b
    → (a : A) × (m ≡ ret a) × (f a ≡ ret b)
>>=-eq-ret (ret a) f h = (a, refl, h)
>>=-eq-ret hangs f h = cc
>>=-eq-ret faults f h = cc

-- The call comes back.
abbrev pub Ends {ℓ} : {A : Type ℓ} → Run A → Type 0
Ends (ret a) = Unit
Ends hangs = ⊥
Ends faults = ⊥

pub Ends-Returns {ℓ} : {A : Type ℓ} (m : Run A) → Ends m → Returns m
Ends-Returns (ret a) h = (a, refl)
Ends-Returns hangs h = absurd h
Ends-Returns faults h = absurd h

-- A sequence of two calls comes back if the first does, and the second on what it returns.
pub Ends->>= {ℓ κ} :
    {A : Type ℓ} {B : Type κ} (m : Run A) (f : A → Run B)
    → Ends m
    → ((a : A) → m ≡ ret a → Ends (f a))
    → Ends (m >>= f)
Ends->>= (ret a) f h k = k a refl
Ends->>= hangs f h k = absurd h
Ends->>= faults f h k = absurd h

-- The value that the call comes back with, if it does, has the property. This computes, where
-- `Ensures` is about an equation.
abbrev pub After {ℓ κ} : {A : Type ℓ} → Run A → (A → Type κ) → Type κ
After (ret a) Q = Q a
After hangs Q = Unit
After faults Q = Unit

pub After->>= {ℓ ℓ' κ} :
    {A : Type ℓ} {B : Type ℓ'} (Q : A → Type κ) (R : B → Type κ) (m : Run A) (f : A → Run B)
    → After m Q
    → ((a : A) → Q a → After (f a) R)
    → After (m >>= f) R
After->>= Q R (ret a) f q k = k a q
After->>= Q R hangs f q k = tt
After->>= Q R faults f q k = tt

-- A call of which nothing is known.
pub After-any {ℓ ℓ' κ} :
    {A : Type ℓ} {B : Type ℓ'} (R : B → Type κ) (m : Run A) (f : A → Run B)
    → ((a : A) → After (f a) R)
    → After (m >>= f) R
After-any R (ret a) f k = k a
After-any R hangs f k = tt
After-any R faults f k = tt

pub After-mono {ℓ κ} :
    {A : Type ℓ} (Q R : A → Type κ) (m : Run A) → After m Q → ((a : A) → Q a → R a) → After m R
After-mono Q R (ret a) q k = k a q
After-mono Q R hangs q k = tt
After-mono Q R faults q k = tt

pub After→Ensures {ℓ κ} : {A : Type ℓ} (Q : A → Type κ) (m : Run A) → After m Q → Ensures m Q
After→Ensures Q (ret b) q a h = let e : b ≡ a = cc h in rw (← e) q
After→Ensures Q hangs q a h = cc
After→Ensures Q faults q a h = cc

pub After-if {ℓ κ} :
    {A : Type ℓ} (R : A → Type κ) (b : Bool) (x y : Run A)
    → (b ≡ true → After x R)
    → (b ≡ false → After y R)
    → After (if b then x else y) R
After-if R true x y t f = t refl
After-if R false x y t f = f refl

pub After-Option {ℓ ℓ' κ} :
    {A : Type ℓ} {B : Type ℓ'} (R : A → Type κ) (o : Option B) (x : Run A) (f : B → Run A)
    → (o ≡ none → After x R)
    → ((b : B) → o ≡ some b → After (f b) R)
    → After (elim o [ none ↦ x | some b ↦ f b ]) R
After-Option R none x f n s = n refl
After-Option R (some b) x f n s = s b refl

pub >>=-cong {ℓ κ} :
    {A : Type ℓ} {B : Type κ} (m m' : Run A) (f g : A → Run B)
    → m ≡ m'
    → ((a : A) → f a ≡ g a)
    → (m >>= f) ≡ (m' >>= g)
>>=-cong {A = A} {B = B} m m' f g e k = rw e (same m')
  where
    same : (n : Run A) → (n >>= f) ≡ (n >>= g)
    same (ret a) = k a
    same hangs = refl
    same faults = refl

pub Option-cong {ℓ κ} :
    {A : Type ℓ} {B : Type κ} (o : Option B) (x : A) (f g : B → A)
    → ((b : B) → f b ≡ g b)
    → elim o [ none ↦ x | some b ↦ f b ] ≡ elim o [ none ↦ x | some b ↦ g b ]
Option-cong none x f g k = refl
Option-cong (some b) x f g k = k b

-- Where a call comes back with a value, that is the value.
pub After-self {ℓ} : {A : Type ℓ} (m : Run A) → After m (λ a. m ≡ ret a)
After-self (ret a) = refl
After-self hangs = tt
After-self faults = tt

pub Ends-if {ℓ} :
    {A : Type ℓ} (b : Bool) (x y : Run A) → Ends x → Ends y → Ends (if b then x else y)
Ends-if true x y p q = p
Ends-if false x y p q = q

pub Ends-Option {ℓ κ} :
    {A : Type ℓ} {B : Type κ} (o : Option B) (x : Run A) (f : B → Run A)
    → Ends x
    → ((b : B) → Ends (f b))
    → Ends (elim o [ none ↦ x | some b ↦ f b ])
Ends-Option none x f n s = n
Ends-Option (some b) x f n s = s b

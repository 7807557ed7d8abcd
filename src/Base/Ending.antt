-- ===== src/Base/Ending.antt =====
-- What a call of C ends in: a result, a failed assertion (or a call of abort()), or behaviour that
-- C leaves undefined, such as a write behind the end of an object or through a freed pointer.
use mathlib.Core.Path.{◌≡◌, refl}
use mathlib.Core.Bool.{Bool, true, false}
use srlabs.Base.Word.{if◌then◌else◌}

pub data Outcome {ℓ} (A : Type ℓ) : Type ℓ where
  done : A → Outcome A
  abort undefined : Outcome A

infixl 5 ◌>>=◌
abbrev pub ◌>>=◌ {ℓ κ} : {A : Type ℓ} {B : Type κ} → Outcome A → (A → Outcome B) → Outcome B
done a >>= f = f a
abort >>= f = abort
undefined >>= f = undefined

-- No assertion fails, and a result satisfies `P`.
abbrev pub Safe {ℓ} : {A : Type ℓ} → (A → Type 0) → Outcome A → Type 0
Safe P (done a) = P a
Safe P abort = ⊥
Safe P undefined = Unit

-- The call returns, and the result satisfies `P`.
abbrev pub Returns {ℓ} : {A : Type ℓ} → (A → Type 0) → Outcome A → Type 0
Returns P (done a) = P a
Returns P abort = ⊥
Returns P undefined = ⊥

pub Safe-bind {ℓ κ} :
    {A : Type ℓ} {B : Type κ} (P : A → Type 0) (Q : B → Type 0) (m : Outcome A) (f : A → Outcome B)
    → Safe P m
    → ((a : A) → P a → Safe Q (f a))
    → Safe Q (m >>= f)
Safe-bind P Q (done a) f h k = k a h
Safe-bind P Q abort f h k = elim h [ ]
Safe-bind P Q undefined f h k = tt

pub Safe-mono {ℓ} :
    {A : Type ℓ} (P : A → Type 0) (Q : A → Type 0) (m : Outcome A)
    → ((a : A) → P a → Q a)
    → Safe P m
    → Safe Q m
Safe-mono P Q (done a) k h = k a h
Safe-mono P Q abort k h = elim h [ ]
Safe-mono P Q undefined k h = tt

pub Returns-elim {ℓ} :
    {A : Type ℓ} (P : A → Type 0) (m : Outcome A) → Returns P m → (a : A) × (m ≡ done a) × P a
Returns-elim P (done a) h = (a, refl, h)
Returns-elim P abort h = elim h [ ]
Returns-elim P undefined h = elim h [ ]

pub Returns-Safe {ℓ} :
    {A : Type ℓ} (P Q : A → Type 0) (m : Outcome A) → ((a : A) → P a → Q a) → Returns P m → Safe Q m
Returns-Safe P Q (done a) k h = k a h
Returns-Safe P Q abort k h = elim h [ ]
Returns-Safe P Q undefined k h = elim h [ ]

pub Returns-bind {ℓ κ} :
    {A : Type ℓ} {B : Type κ} (P : A → Type 0) (Q : B → Type 0) (m : Outcome A) (f : A → Outcome B)
    → Returns P m
    → ((a : A) → P a → Returns Q (f a))
    → Returns Q (m >>= f)
Returns-bind P Q (done a) f h k = k a h
Returns-bind P Q abort f h k = elim h [ ]
Returns-bind P Q undefined f h k = elim h [ ]

pub Returns-if {ℓ} :
    {A : Type ℓ} (P : A → Type 0) (b : Bool) (m m' : Outcome A)
    → Returns P m
    → Returns P m'
    → Returns P (if b then m else m')
Returns-if P true m m' h h' = h
Returns-if P false m m' h h' = h'

-- The same, where each branch may use the test.
pub Safe-cases {ℓ} :
    {A : Type ℓ} (P : A → Type 0) (b : Bool) (m m' : Outcome A)
    → (b ≡ true → Safe P m)
    → (b ≡ false → Safe P m')
    → Safe P (if b then m else m')
Safe-cases P true m m' h h' = h refl
Safe-cases P false m m' h h' = h' refl

-- No undefined behaviour either: a call that returns anything returns what a safe call may.
abbrev pub Ends {ℓ} : {A : Type ℓ} → Outcome A → Type 0
Ends o = Returns (λ _. Unit {0}) o

pub Safe-Ends {ℓ} : {A : Type ℓ} (P : A → Type 0) (m : Outcome A) → Safe P m → Ends m → Returns P m
Safe-Ends P (done a) h e = h
Safe-Ends P abort h e = e
Safe-Ends P undefined h e = e

pub Ends-bind {ℓ κ} :
    {A : Type ℓ} {B : Type κ} (m : Outcome A) (f : A → Outcome B)
    → Ends m
    → ((a : A) → Ends (f a))
    → Ends (m >>= f)
Ends-bind (done a) f h k = k a
Ends-bind abort f h k = elim h [ ]
Ends-bind undefined f h k = elim h [ ]

-- ===== src/Prelude/Errors.antt =====
-- A call that returns or raises. `E` is the exception, as the raising code classifies it.
use mathlib.Core.Path.{◌≡◌, refl}
use mathlib.Core.Logic.{◌⊎◌, inl, inr}
use mathlib.Core.Bool.{Bool, true, false}

pub data Result {ℓ κ} (E : Type κ) (A : Type ℓ) : Type (ℓ ⊔ κ) where
  ok : A → Result E A
  err : E → Result E A

infixl 10 ◌>>=◌ ◌>>◌
abbrev pub ◌>>=◌ {ℓ κ μ} :
    {E : Type μ} {A : Type ℓ} {B : Type κ} → Result E A → (A → Result E B) → Result E B
ok a >>= f = f a
err e >>= f = err e

abbrev pub ◌>>◌ {ℓ κ μ} :
    {E : Type μ} {A : Type ℓ} {B : Type κ} → Result E A → Result E B → Result E B
m >> k = m >>= λ _. k

-- `if b: raise e`
abbrev pub raise_if {μ} : {E : Type μ} → Bool → E → Result E (Unit {0})
raise_if true e = err e
raise_if false e = ok tt

-- A successful bind, taken apart.
pub >>=-eq-ok {ℓ κ μ} :
    {E : Type μ} {A : Type ℓ} {B : Type κ} (r : Result E A) (k : A → Result E B) {y : B}
    → (r >>= k) ≡ ok y
    → (x : A) × (r ≡ ok x) × (k x ≡ ok y)
>>=-eq-ok (ok x) k h = (x, refl, h)
>>=-eq-ok (err e) k h = cc

pub Result-cases {ℓ κ} :
    {E : Type κ} {A : Type ℓ} (r : Result E A) → ((a : A) × (r ≡ ok a)) ⊎ ((e : E) × (r ≡ err e))
Result-cases (ok a) = inl (a, refl)
Result-cases (err e) = inr (e, refl)

-- A bind on a call that can only return `x`, taken apart.
pub >>=-eq-ok_at {ℓ κ μ} :
    {E : Type μ} {A : Type ℓ} {B : Type κ} (x : A) (r : Result E A) (k : A → Result E B) {z : B}
    → ((y : A) → r ≡ ok y → y ≡ x)
    → (r >>= k) ≡ ok z
    → (r ≡ ok x) × (k x ≡ ok z)
>>=-eq-ok_at x (ok a) k only h = (cc (only a refl), cc (only a refl, h))
>>=-eq-ok_at x (err e) k only h = cc

-- A guard that is passed.
pub raise_if-ok {ℓ μ} :
    {E : Type μ} {B : Type ℓ} (b : Bool) (e : E) (k : Result E B) {y : B}
    → (raise_if b e >> k) ≡ ok y
    → (b ≡ false) × (k ≡ ok y)
raise_if-ok true e k h = cc
raise_if-ok false e k h = (refl, h)

pub ok-eq {ℓ μ} : {E : Type μ} {A : Type ℓ} (a b : A) → ◌≡◌ {A = Result E A} (ok a) (ok b) → a ≡ b
ok-eq a b h = cc

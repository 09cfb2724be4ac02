-- ===== src/Base/Throwing.antt =====
-- A call that returns a value or throws.
use mathlib.Core.Bool.{Bool, true, false}
use mathlib.Core.Logic.{◌⊎◌, inl, inr}
use mathlib.Core.Path.{◌≡◌, refl}

pub data Outcome {ℓ} (E : Type 0) (A : Type ℓ) : Type ℓ where
  ok : A → Outcome E A
  throw : E → Outcome E A

infixl 5 ◌>>=◌ ◌>>◌
abbrev pub ◌>>=◌ {ℓ κ} :
    {E : Type 0} {A : Type ℓ} {B : Type κ} → Outcome E A → (A → Outcome E B) → Outcome E B
ok a >>= f = f a
throw e >>= f = throw e

abbrev pub ◌>>◌ {ℓ} : {E : Type 0} {B : Type ℓ} → Outcome E (Unit {0}) → Outcome E B → Outcome E B
m >> k = m >>= λ _. k

-- `if (bad) throw e;`
abbrev pub throw_if : {E : Type 0} → Bool → E → Outcome E (Unit {0})
throw_if true e = throw e
throw_if false e = ok tt

-- A chain that returns went through its first call.
pub >>=-eq-ok {ℓ κ} :
    {E : Type 0} {A : Type ℓ} {B : Type κ} (first : Outcome E A) (next : A → Outcome E B)
    {result : B}
    → (first >>= next) ≡ ok result
    → (x : A) × (first ≡ ok x) × (next x ≡ ok result)
>>=-eq-ok (throw e) next returned = cc
>>=-eq-ok (ok x) next returned = (x, refl, returned)

pub Outcome-cases {ℓ} :
    {E : Type 0} {A : Type ℓ} (o : Outcome E A) → ((a : A) × (o ≡ ok a)) ⊎ ((e : E) × (o ≡ throw e))
Outcome-cases (ok a) = inl (a, refl)
Outcome-cases (throw e) = inr (e, refl)

-- A method that changes its object and may throw half-way: either way the object that is left.
pub data Effect (E : Type 0) (S : Type 0) : Type 0 where
  done : S → Effect E S
  raised : E → S → Effect E S

abbrev pub then_do : {E S : Type 0} → Effect E S → (S → Effect E S) → Effect E S
then_do (done s) f = f s
then_do (raised e s) f = raised e s

abbrev pub left : {E S : Type 0} → Effect E S → S
left (done s) = s
left (raised e s) = s

pub then_do-ext :
    {E S : Type 0} (r : Effect E S) (f g : S → Effect E S)
    → ((s : S) → f s ≡ g s)
    → then_do r f ≡ then_do r g
then_do-ext (done s) f g h = h s
then_do-ext (raised e s) f g h = refl

-- ===== src/Base/Errors.antt =====
-- Fallible code: a value or an error.
use mathlib.Core.Path.{◌≡◌, refl}
use mathlib.Core.Logic.{◌⊎◌, inl, inr}
use mathlib.Core.Bool.{Bool, true, false}

pub data Result {ℓ κ} (E : Type κ) (A : Type ℓ) : Type (ℓ ⊔ κ) where
  ok : A → Result E A
  err : E → Result E A

infixl 5 ◌>>=◌ ◌>>◌
abbrev pub ◌>>=◌ {ℓ κ η} :
    {E : Type η} {A : Type ℓ} {B : Type κ} → Result E A → (A → Result E B) → Result E B
err e >>= _ = err e
ok a >>= f = f a

-- A chain that succeeds went through its first step.
pub >>=-eq-ok {ℓ κ η} :
    {E : Type η} {A : Type ℓ} {B : Type κ} (first : Result E A) (rest : A → Result E B) {b : B}
    → (first >>= rest) ≡ ok b
    → (a : A) × (first ≡ ok a) × (rest a ≡ ok b)
>>=-eq-ok (err e) rest h = cc
>>=-eq-ok (ok a) rest done = (a, refl, done)

abbrev pub ◌>>◌ {ℓ η} : {E : Type η} {B : Type ℓ} → Result E (Unit {0}) → Result E B → Result E B
first >> rest = first >>= λ _. rest

-- `if !b { return e }`
abbrev pub guard {η} : {E : Type η} → Bool → E → Result E (Unit {0})
guard false e = err e
guard true _ = ok tt

pub Result-cases {ℓ η} :
    {E : Type η} {A : Type ℓ} (r : Result E A) → ((a : A) × (r ≡ ok a)) ⊎ ((e : E) × (r ≡ err e))
Result-cases (ok a) = inl (a, refl)
Result-cases (err e) = inr (e, refl)

pub guard-eq-ok {η} : {E : Type η} (b : Bool) (e : E) → guard b e ≡ ok tt → b ≡ true
guard-eq-ok true e h = refl
guard-eq-ok false e h = absurd cc

pub ok-injective {ℓ η} :
    {E : Type η} {A : Type ℓ} {a b : A} → Path (Result E A) (ok a) (ok b) → a ≡ b
ok-injective h = cc

pub err-ne-ok {ℓ η} :
    {E : Type η} {A : Type ℓ} {e : E} {a : A} → Path (Result E A) (err e) (ok a) → ⊥
err-ne-ok h = cc

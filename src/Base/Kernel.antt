-- ===== src/Base/Kernel.antt =====
-- A call of kernel code either runs to its end or panics: a failed ASSERT, PANIC or NOT_REACHED.
use mathlib.Core.Path.{◌≡◌, refl}
use mathlib.Core.Bool.{Bool, true, false}

pub data Kernel {ℓ} (A : Type ℓ) : Type ℓ where
  runs : A → Kernel A
  panics : Kernel A

infixl 5 ◌>>=◌ ◌>>◌
abbrev pub ◌>>=◌ {ℓ κ} : {A : Type ℓ} {B : Type κ} → Kernel A → (A → Kernel B) → Kernel B
runs a >>= f = f a
panics >>= f = panics

abbrev pub ◌>>◌ {ℓ} : {B : Type ℓ} → Kernel (Unit {0}) → Kernel B → Kernel B
m >> k = m >>= λ _. k

abbrev pub assert : Bool → Kernel (Unit {0})
assert true = runs tt
assert false = panics

-- The value and the state of a call that panicked are nobody's: a property of results holds of it.
pub >>=-runs {ℓ κ} :
    {A : Type ℓ} {B : Type κ} (m : Kernel A) (f : A → Kernel B) {b : B}
    → (m >>= f) ≡ runs b
    → (a : A) × (m ≡ runs a) × (f a ≡ runs b)
>>=-runs (runs a) f h = (a, refl, h)
>>=-runs panics f h = cc

pub assert-runs {ℓ} :
    {A : Type ℓ} (b : Bool) (m : Kernel A) {a : A}
    → (assert b >> m) ≡ runs a
    → (b ≡ true) × (m ≡ runs a)
assert-runs true m h = (refl, h)
assert-runs false m h = cc

pub runs-inj {ℓ} : {A : Type ℓ} {a b : A} → runs a ≡ runs b → a ≡ b
runs-inj e = cc

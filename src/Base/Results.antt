-- ===== src/Base/Results.antt =====
-- A computation that may throw: a value or the error that is raised.
use mathlib.Core.Path.{◌≡◌, refl}
use mathlib.Core.Bool.{Bool, true, false}

pub data Result {ℓ κ} (E : Type ℓ) (A : Type κ) : Type (ℓ ⊔ κ) where
  ok : A → Result E A
  err : E → Result E A

infixl 5 ◌>>=◌ ◌>>◌
abbrev pub ◌>>=◌ {ℓ κ μ} :
    {E : Type ℓ} {A : Type κ} {B : Type μ} → Result E A → (A → Result E B) → Result E B
ok a >>= f = f a
err e >>= f = err e

abbrev pub ◌>>◌ {ℓ κ} : {E : Type ℓ} {B : Type κ} → Result E (Unit {0}) → Result E B → Result E B
m >> k = m >>= λ _. k

-- `if (!test) throw e`.
abbrev pub require {ℓ} : {E : Type ℓ} → Bool → E → Result E (Unit {0})
require true e = ok tt
require false e = err e

-- Whether there is a value.
abbrev pub is_ok {ℓ κ} : {E : Type ℓ} {A : Type κ} → Result E A → Bool
is_ok (ok a) = true
is_ok (err e) = false

-- What holds of the value, if there is one.
abbrev pub IfOk {ℓ κ μ} : {E : Type ℓ} {A : Type κ} → (A → Type μ) → Result E A → Type μ
IfOk P (ok a) = P a
IfOk P (err e) = Unit

pub by_bind {ℓ κ μ ν} :
    {E : Type ℓ} {A : Type κ} {B : Type μ} (P : B → Type ν) (m : Result E A) (f : A → Result E B)
    → ((a : A) → m ≡ ok a → IfOk P (f a))
    → IfOk P (m >>= f)
by_bind P (ok a) f h = h a refl
by_bind P (err e) f h = tt

-- To prove something of a case on a result, whichever way it ended.
pub by_result {ℓ κ μ ν} :
    {E : Type ℓ} {A : Type κ} {B : Type μ} (P : B → Type ν) (m : Result E A) {f : A → B} {g : E → B}
    → ((a : A) → P (f a))
    → ((e : E) → P (g e))
    → P (elim m [ ok a ↦ f a | err e ↦ g e ])
by_result P (ok a) hf hg = hf a
by_result P (err e) hf hg = hg e

-- The same where it matters what the result was.
pub by_result_eq {ℓ κ μ ν} :
    {E : Type ℓ} {A : Type κ} {B : Type μ} (P : B → Type ν) (m : Result E A) {f : A → B} {g : E → B}
    → ((a : A) → m ≡ ok a → P (f a))
    → ((e : E) → m ≡ err e → P (g e))
    → P (elim m [ ok a ↦ f a | err e ↦ g e ])
by_result_eq P (ok a) hf hg = hf a refl
by_result_eq P (err e) hf hg = hg e refl

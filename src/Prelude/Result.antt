-- ===== src/Prelude/Result.antt =====
-- A value or an error.
use mathlib.Core.Path.{◌≡◌, refl}

pub data Result {ℓ} (E A : Type ℓ) : Type ℓ where
  ok : A → Result E A
  err : E → Result E A

infixl 5 ◌>>=◌ ◌>>◌
abbrev pub ◌>>=◌ {ℓ} : {E A B : Type ℓ} → Result E A → (A → Result E B) → Result E B
ok a >>= f = f a
err e >>= f = err e

abbrev pub ◌>>◌ {ℓ} : {E B : Type ℓ} → Result E (Unit {ℓ}) → Result E B → Result E B
m >> k = m >>= λ _. k

-- What stands behind a step whose follow-up succeeded
pub bind-ok {ℓ} :
    {E A B : Type ℓ} (next : A → Result E B) (x : Result E A) {b : B}
    → (x >>= next) ≡ ok b
    → (a : A) × (next a ≡ ok b) × (x ≡ ok a)
bind-ok next (err e) h = cc
bind-ok next (ok a) h = (a, h, refl)

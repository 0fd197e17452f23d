-- ===== src/Io/Outcome.antt =====
-- How a call ends. `Result` values of the source are `ok` and `err`; a slice or an index out of
-- range ends in `panic`, and a loop whose fuel is spent in `out_of_fuel`.
use mathlib.Core.Path.{◌≡◌, refl}
use mathlib.Core.Option.{Option, none, some}

pub data Outcome {ℓ κ} (E : Type ℓ) (A : Type κ) : Type (ℓ ⊔ κ) where
  ok : A → Outcome E A
  err : E → Outcome E A
  panic : Outcome E A
  out_of_fuel : Outcome E A

-- What is known of the value and of the error. A panic and spent fuel are excluded.
abbrev pub Ensures {ℓ κ} :
    {E : Type ℓ} {A : Type κ} → (A → Type 0) → (E → Type 0) → Outcome E A → Type 0
Ensures Q R (ok a) = Q a
Ensures Q R (err e) = R e
Ensures Q R panic = ⊥
Ensures Q R out_of_fuel = ⊥

module _ {ℓ κ μ} {E : Type ℓ} {A : Type κ} {B : Type μ} where
  infixl 10 ◌>>=◌
  -- `?`
  abbrev pub ◌>>=◌ : Outcome E A → (A → Outcome E B) → Outcome E B
  ok a >>= f = f a
  err e >>= f = err e
  panic >>= f = panic
  out_of_fuel >>= f = out_of_fuel

module _ {ℓ μ} {E : Type ℓ} {B : Type μ} where
  infixl 10 ◌>>◌
  abbrev pub ◌>>◌ : Outcome E (Unit {0}) → Outcome E B → Outcome E B
  m >> n = m >>= λ _. n

-- `.ok_or_else(..)`
abbrev pub ok_or {ℓ κ} : {E : Type ℓ} {A : Type κ} → Option A → E → Outcome E A
ok_or (some a) e = ok a
ok_or none e = err e

-- A chain that succeeds has succeeded in its first step.
pub >>=-eq-ok {ℓ κ μ} :
    {A : Type κ} {E : Type ℓ} {C : Type μ} (r : Outcome E A) (k : A → Outcome E C) {out : C}
    → (r >>= k) ≡ ok out
    → (v : A) × (r ≡ ok v) × (k v ≡ ok out)
>>=-eq-ok panic k q = cc
>>=-eq-ok out_of_fuel k q = cc
>>=-eq-ok (err x) k q = cc
>>=-eq-ok (ok v) k q = (v, refl, q)

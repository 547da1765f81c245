-- ===== src/Prelude/Except.antt =====
-- Results that are a value or an error, with `do`.
use porta.Prelude.{if◌then◌else◌, ◌≡◌, refl, ◌⊎◌, inl, inr, Bool, true, false}

pub data Except {ℓ} (E A : Type ℓ) : Type ℓ where
  ok : A → Except E A
  err : E → Except E A

infixl 5 ◌>>=◌ ◌>>◌
abbrev pub ◌>>=◌ {ℓ} : {E A B : Type ℓ} → Except E A → (A → Except E B) → Except E B
ok a >>= f = f a
err e >>= f = err e

abbrev pub ◌>>◌ : {E B : Type 0} → Except E (Unit {0}) → Except E B → Except E B
m >> k = m >>= λ _. k

-- `if b { return Err(e) }`.
abbrev pub reject_if : {E : Type 0} → Bool → E → Except E (Unit {0})
reject_if true e = err e
reject_if false e = ok tt

pub Except-cases {ℓ} :
    {E A : Type ℓ} (r : Except E A) → ((e : E) × (r ≡ err e)) ⊎ ((a : A) × (r ≡ ok a))
Except-cases (ok a) = inr (a, refl)
Except-cases (err e) = inl (e, refl)

-- `if b { return Err(e) }` before `x`: a property of every error and of `x` is one of the whole.
pub reject_cases {ℓ κ} :
    {E A : Type ℓ} (P : Except E A → Type κ) (b : Bool) (e : E) (x : Except E A)
    → ((e : E) → P (err e))
    → (b ≡ false → P x)
    → P (if b then err e else x)
reject_cases P true e x t f = t e
reject_cases P false e x t f = f refl

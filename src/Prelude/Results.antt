-- ===== src/Prelude/Results.antt =====
-- `Result` of Rust with `?` as its bind.
pub data Result {ℓ κ} (E : Type ℓ) (A : Type κ) : Type (ℓ ⊔ κ) where
  err : E → Result E A
  ok : A → Result E A

infixl 10 ◌>>=◌
abbrev pub ◌>>=◌ {ℓ κ ρ} :
    {E : Type ℓ} {A : Type κ} {B : Type ρ} → Result E A → (A → Result E B) → Result E B
err e >>= f = err e
ok a >>= f = f a

module _ {ℓ κ ρ} {E : Type ℓ} {A : Type κ} where
  -- a property of the value of a result, where there is one
  abbrev pub Ensures : (A → Type ρ) → Result E A → Type ρ
  Ensures P (err e) = Unit
  Ensures P (ok a) = P a

module _ {ℓ κ ρ μ ν} {E : Type ℓ} {A : Type κ} {B : Type ρ} where
  pub Ensures-bind :
      (P : A → Type μ)
      → (Q : B → Type ν) → (r : Result E A) → (f : A → Result E B) → Ensures P r
      → ((a : A) → P a → Ensures Q (f a))
      → Ensures Q (r >>= f)
  Ensures-bind P Q (err e) f h step = tt
  Ensures-bind P Q (ok a) f h step = step a h

module _ {ℓ κ μ ν} {E : Type ℓ} {A : Type κ} {P : A → Type μ} {Q : A → Type ν} where
  pub Ensures-mono : (r : Result E A) → Ensures P r → ((a : A) → P a → Q a) → Ensures Q r
  Ensures-mono (err e) h step = tt
  Ensures-mono (ok a) h step = step a h

-- ===== src/Base/Results.antt =====
-- Rust's `Result`, with `?` as its bind.
use mathlib.Core.Path.{◌≡◌, refl}
use mathlib.Core.Bool.{Bool, true, false}
use mathlib.Core.Option.{Option, none, some}
use network_monitor.Base.Tests.{if◌then◌else◌}

pub data Result {ℓ κ} (E : Type ℓ) (A : Type κ) : Type (ℓ ⊔ κ) where
  ok : A → Result E A
  err : E → Result E A

infixl 5 ◌>>=◌
abbrev pub ◌>>=◌ {ℓ κ μ} :
    {E : Type ℓ} {A : Type κ} {B : Type μ} → Result E A → (A → Result E B) → Result E B
ok a >>= f = f a
err e >>= f = err e

-- A predicate of the value, if there is one.
abbrev pub IfOk {ℓ κ μ} : {E : Type ℓ} {A : Type κ} → (A → Type μ) → Result E A → Type μ
IfOk P (ok a) = P a
IfOk P (err e) = Unit

module _ {ℓ κ μ} {E : Type ℓ} {A : Type κ} where
  pub bind-IfOk {ν ρ} :
      {B : Type μ} (Q : A → Type ν) (P : B → Type ρ) (r : Result E A) (f : A → Result E B)
      → IfOk Q r
      → ((a : A) → Q a → IfOk P (f a))
      → IfOk P (r >>= f)
  bind-IfOk Q P (ok a) f q h = h a q
  bind-IfOk Q P (err e) f q h = tt

  pub option-IfOk {ν} :
      {O : Type ν} (P : A → Type μ) (o : Option O) (d : Result E A) (f : O → Result E A)
      → IfOk P d
      → ((b : O) → IfOk P (f b))
      → IfOk P (elim o [ none ↦ d | some b ↦ f b ])
  option-IfOk P none d f h g = h
  option-IfOk P (some b) d f h g = g b

  pub if-IfOk :
      (P : A → Type μ) (c : Bool) (x y : Result E A)
      → (c ≡ true → IfOk P x)
      → (c ≡ false → IfOk P y)
      → IfOk P (if c then x else y)
  if-IfOk P true x y f g = f refl
  if-IfOk P false x y f g = g refl

module _ {ℓ κ} {E : Type ℓ} {A : Type κ} where
  pub any-IfOk : (r : Result E A) → IfOk (λ a. Unit {0}) r
  any-IfOk (ok a) = tt
  any-IfOk (err e) = tt

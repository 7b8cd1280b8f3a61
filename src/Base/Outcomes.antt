-- ===== src/Base/Outcomes.antt =====
-- What a call of the program comes to: it returns, it panics, or the fuel of the model runs out
-- (the call then goes on for longer than the fuel).

use mathlib.Core.Logic.{◌⊎◌, inl, inr}
use mathlib.Core.Option.{Option, none, some}
use mathlib.Core.Path.{◌≡◌, refl, ap}

pub data Outcome {ℓ} (A : Type ℓ) : Type ℓ where
  ret : A → Outcome A
  panic out_of_fuel : Outcome A

infixl 5 ◌>>=◌
abbrev pub ◌>>=◌ {ℓ κ} : {A : Type ℓ} {B : Type κ} → Outcome A → (A → Outcome B) → Outcome B
ret a >>= f = f a
panic >>= f = panic
out_of_fuel >>= f = out_of_fuel

-- `(x, err)`: a value or an error.
pub data Result {ℓ κ} (E : Type ℓ) (A : Type κ) : Type (ℓ ⊔ κ) where
  ok : A → Result E A
  err : E → Result E A

-- What a call returns, with a value for the others.
abbrev pub value_or {ℓ} : {A : Type ℓ} → A → Outcome A → A
value_or default (ret a) = a
value_or default panic = default
value_or default out_of_fuel = default

pub Outcome-cases {ℓ} :
    {A : Type ℓ} (o : Outcome A) → ((a : A) × (o ≡ ret a)) ⊎ ((o ≡ panic) ⊎ (o ≡ out_of_fuel))
Outcome-cases (ret a) = inl (a, refl)
Outcome-cases panic = inr (inl refl)
Outcome-cases out_of_fuel = inr (inr refl)

pub ret_inj {ℓ} : {A : Type ℓ} {a b : A} → ret a ≡ ret b → a ≡ b
ret_inj h = cc

pub Result-cases {ℓ κ} :
    {E : Type ℓ} {A : Type κ} (r : Result E A) → ((e : E) × (r ≡ err e)) ⊎ ((a : A) × (r ≡ ok a))
Result-cases (err e) = inl (e, refl)
Result-cases (ok a) = inr (a, refl)

module _ {ℓ κ} {E : Type ℓ} {A : Type κ} where
  pub ok_inj : {a b : A} → ◌≡◌ {A = Result E A} (ok a) (ok b) → a ≡ b
  ok_inj h = cc

  pub ok_ne_err : {a : A} {e : E} → ◌≡◌ {A = Result E A} (err e) (ok a) → ⊥
  ok_ne_err h = cc

module _ {ℓ κ} {A : Type ℓ} {B : Type κ} where
  abbrev pub fst : A × B → A
  fst p = p.0

  abbrev pub snd : A × B → B
  snd p = p.1

  -- A pair with an error is none without.
  pub error_absurd {μ} :
      {C : Type μ} {a a' : A} {b : B} → ◌≡◌ {A = A × Option B} (a, some b) (a', none) → C
  error_absurd {b = b} h = absurd (let w : some b ≡ none = ap (λ (p : A × Option B). p.1) h in cc)

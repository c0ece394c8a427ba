-- ===== src/Common/Errors.antt =====
-- What a Go function with an `error` result returns: a value, or an error. A handler that returns a
-- response beside an error is an error here: gRPC drops the response.
use mathlib.Core.Path.{◌≡◌, refl, ap}
use mathlib.Core.Logic.{◌⊎◌, inl, inr}

pub data Outcome {ℓ κ} (E : Type ℓ) (A : Type κ) : Type (ℓ ⊔ κ) where
  ok : A → Outcome E A
  err : E → Outcome E A

abbrev pub map_outcome {ℓ κ μ} :
    {E : Type ℓ} {A : Type κ} {B : Type μ} → (A → B) → Outcome E A → Outcome E B
map_outcome f (ok a) = ok (f a)
map_outcome f (err e) = err e

pub Outcome-cases {ℓ κ} :
    {E : Type ℓ} {A : Type κ} (o : Outcome E A) → ((a : A) × (o ≡ ok a)) ⊎ ((e : E) × (o ≡ err e))
Outcome-cases (ok a) = inl (a, refl)
Outcome-cases (err e) = inr (e, refl)

payload {ℓ κ} : {E : Type ℓ} {A : Type κ} → A → Outcome E A → A
payload d (ok a) = a
payload d (err e) = d

pub ok_injective {ℓ κ} :
    {E : Type ℓ} {A : Type κ} (a b : A) → ◌≡◌ {A = Outcome E A} (ok a) (ok b) → a ≡ b
unfolding payload
ok_injective a b e = ap (payload a) e

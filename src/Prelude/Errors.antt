-- ===== src/Prelude/Errors.antt =====
-- Computations that may raise: a result or an error of the component's own type.
use mathlib.Core.Path.{◌≡◌, refl, ap}
use mathlib.Core.Logic.{◌⊎◌, inl, inr}

pub data Result {κ ℓ} (E : Type κ) (A : Type ℓ) : Type (κ ⊔ ℓ) where
  raise : E → Result E A
  ok : A → Result E A

module _ {κ ℓ μ} {E : Type κ} {A : Type ℓ} {B : Type μ} where
  infixl 10 ◌>>=◌ ◌>>◌
  abbrev pub ◌>>=◌ : Result E A → (A → Result E B) → Result E B
  raise x >>= k = raise x
  ok v >>= k = k v

  abbrev pub ◌>>◌ : Result E A → Result E B → Result E B
  first >> second = first >>= λ _. second

  -- A block that returns has returned at its first step.
  pub bind-eq-ok :
      (first : Result E A) (k : A → Result E B) {w : B}
      → (first >>= k) ≡ ok w
      → (v : A) × (first ≡ ok v) × (k v ≡ ok w)
  bind-eq-ok (raise x) k returned = cc
  bind-eq-ok (ok v) k returned = (v, refl, returned)

  pub bind-ok :
      {first : Result E A} {v : A} (k : A → Result E B) → first ≡ ok v → (first >>= k) ≡ k v
  bind-ok k e = ap (λ r. r >>= k) e

pub bind_assoc {ℓ κ μ ν} :
    {E : Type ν} {A : Type ℓ} {B : Type κ} {C : Type μ} (m : Result E A) (f : A → Result E B)
    (g : B → Result E C)
    → (m >>= f >>= g) ≡ (m >>= λ a. f a >>= g)
bind_assoc (ok a) f g = refl
bind_assoc (raise c) f g = refl

pub bind_cong {ℓ κ μ} :
    {E : Type μ} {A : Type ℓ} {B : Type κ} (m : Result E A) (f g : A → Result E B)
    → ((a : A) → f a ≡ g a)
    → (m >>= f) ≡ (m >>= g)
bind_cong (ok a) f g h = h a
bind_cong (raise c) f g h = refl

abbrev pub Result-cases {ℓ κ} :
    {E : Type ℓ} {A : Type κ} (r : Result E A) → ((e : E) × (r ≡ raise e)) ⊎ ((a : A) × (r ≡ ok a))
Result-cases (raise e) = inl (e, refl)
Result-cases (ok a) = inr (a, refl)

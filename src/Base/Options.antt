-- ===== src/Base/Options.antt =====
-- Chains of results.
use mathlib.Core.Option.{Option, none, some}
use mathlib.Core.Path.{◌≡◌, refl}

infixl 5 ◌>>=◌
abbrev pub ◌>>=◌ {ℓ κ} : {A : Type ℓ} {B : Type κ} → Option A → (A → Option B) → Option B
none >>= f = none
some a >>= f = f a

module _ {ℓ κ μ} {A : Type ℓ} {B : Type κ} {C : Type μ} where
  pub bind_assoc :
      (o : Option A) (f : A → Option B) (g : B → Option C)
      → (o >>= f >>= g) ≡ (o >>= λ a. f a >>= g)
  bind_assoc none f g = refl
  bind_assoc (some a) f g = refl

pub bind_ext {ℓ κ} :
    {A : Type ℓ} {B : Type κ} (o : Option A) {f g : A → Option B}
    → ((a : A) → f a ≡ g a)
    → (o >>= f) ≡ (o >>= g)
bind_ext none h = refl
bind_ext (some a) h = h a

pub bind_some {ℓ κ} :
    {A : Type ℓ} {B : Type κ} (o : Option A) (f : A → Option B) {b : B}
    → (o >>= f) ≡ some b
    → (a : A) × (o ≡ some a) × (f a ≡ some b)
bind_some none f e = cc
bind_some (some a) f e = (a, refl, e)

pub bind_id {ℓ} : {A : Type ℓ} (o : Option A) → (o >>= λ a. some a) ≡ o
bind_id none = refl
bind_id (some a) = refl

pub bind_ext_some {ℓ κ} :
    {A : Type ℓ} {B : Type κ} (o : Option A) {f g : A → Option B}
    → ((a : A) → o ≡ some a → f a ≡ g a)
    → (o >>= f) ≡ (o >>= g)
bind_ext_some none h = refl
bind_ext_some (some a) h = h a refl

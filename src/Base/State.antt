-- ===== src/Base/State.antt =====
-- State with errors: a Go method that changes its receiver and returns (value, error).
use mathlib.Core.Path.{◌≡◌, refl, ap}
use mh2c_go.Base.Outcome.{Result, Error, ok, err, panic, diverge}

abbrev pub M {ℓ κ} : Type ℓ → Type κ → Type (ℓ ⊔ κ)
M S A = S → S × Result A

-- What follows a step, on the state that the step left: an error ends the method, and its effects stay.
abbrev pub continue {ℓ κ μ} :
    {S : Type ℓ} {A : Type κ} {B : Type μ} → S × Result A → (A → M S B) → S × Result B
continue (s, ok a) f = f a s
continue (s, err e) f = (s, err e)
continue (s, panic) f = (s, panic)
continue (s, diverge) f = (s, diverge)

infixl 5 ◌>>=◌ ◌>>◌
abbrev pub ◌>>=◌ {ℓ κ μ} : {S : Type ℓ} {A : Type κ} {B : Type μ} → M S A → (A → M S B) → M S B
◌>>=◌ m f s = continue (m s) f

abbrev pub ◌>>◌ {ℓ κ} : {S : Type ℓ} {B : Type κ} → M S (Unit {0}) → M S B → M S B
◌>>◌ m k s = continue (m s) (λ _. k)

-- A computation with no effect.
abbrev pub lift {ℓ κ} : {S : Type ℓ} {A : Type κ} → Result A → M S A
lift r s = (s, r)

abbrev pub pure {ℓ κ} : {S : Type ℓ} {A : Type κ} → A → M S A
pure a s = (s, ok a)

abbrev pub fail {ℓ κ} : {S : Type ℓ} {A : Type κ} → Error → M S A
fail e s = (s, err e)

-- A step that succeeded is followed by what comes next, on its state.
pub continue_ok {ℓ κ μ} :
    {S : Type ℓ} {A : Type κ} {B : Type μ} (r : S × Result A) (a : A) (f : A → M S B)
    → r.1 ≡ ok a
    → continue r f ≡ f a r.0
continue_ok (s, x) a f e = ap (λ y. continue (s, y) f) e

pub continue_assoc {ℓ κ μ ν} :
    {S : Type ℓ} {A : Type κ} {B : Type μ} {D : Type ν} (r : S × Result A) (f : A → M S B)
    (g : B → M S D)
    → continue (continue r f) g ≡ continue r (λ a s. continue (f a s) g)
continue_assoc (s, ok a) f g = refl
continue_assoc (s, err _) f g = refl
continue_assoc (s, panic) f g = refl
continue_assoc (s, diverge) f g = refl

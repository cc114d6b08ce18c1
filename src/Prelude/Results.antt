-- ===== src/Prelude/Results.antt =====
-- A call that may raise: its value, or the reason of the error.
use mathlib.Core.Path.{◌≡◌, refl}
use mathlib.Core.Bool.{Bool, true, false}

pub data Result {ℓ} (E : Type ℓ) (A : Type ℓ) : Type ℓ where
  ok : A → Result E A
  err : E → Result E A

infixl 5 ◌>>=◌
abbrev pub ◌>>=◌ : {E A B : Type 0} → Result E A → (A → Result E B) → Result E B
err e >>= f = err e
ok a >>= f = f a

infixl 5 ◌>>◌
abbrev pub ◌>>◌ : {E A B : Type 0} → Result E A → Result E B → Result E B
m >> n = m >>= λ _. n

abbrev pub require : {E : Type 0} → Bool → E → Result E (Unit {0})
require true e = ok tt
require false e = err e

pub ok_inj : {E A : Type 0} {a b : A} → ◌≡◌ {A = Result E A} (ok a) (ok b) → a ≡ b
ok_inj h = cc h

-- What a chain that returns has passed.
pub bind_ok :
    {E A B : Type 0} (m : Result E A) (f : A → Result E B) (v : B)
    → (m >>= f) ≡ ok v
    → (a : A) × (m ≡ ok a) × (f a ≡ ok v)
bind_ok (ok a) f v h = (a, refl, h)
bind_ok (err e) f v h = cc h

pub require_ok :
    {E B : Type 0} (b : Bool) (e : E) (m : Result E B) (v : B)
    → (require b e >> m) ≡ ok v
    → (b ≡ true) × (m ≡ ok v)
require_ok true e m v h = (refl, h)
require_ok false e m v h = cc h

-- Two continuations that agree can be exchanged.
pub bind_ext :
    {E A B : Type 0} (m : Result E A) (f g : A → Result E B)
    → ((a : A) → f a ≡ g a)
    → (m >>= f) ≡ (m >>= g)
bind_ext (ok a) f g h = h a
bind_ext (err e) f g h = refl

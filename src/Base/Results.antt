-- ===== src/Base/Results.antt =====
-- How a call ends: by returning, by a failed `assert`, or by an access outside of its buffer.
use mathlib.Core.Bool.{Bool, true, false}
use mathlib.Core.Path.{◌≡◌, refl}

pub data Outcome {ℓ} (A : Type ℓ) : Type ℓ where
  done : A → Outcome A
  aborted : Outcome A
  overrun : Outcome A

infixl 5 ◌>>=◌ ◌>>◌
abbrev pub ◌>>=◌ {ℓ κ} : {A : Type ℓ} {B : Type κ} → Outcome A → (A → Outcome B) → Outcome B
done a >>= f = f a
aborted >>= f = aborted
overrun >>= f = overrun

abbrev pub ◌>>◌ {ℓ} : {B : Type ℓ} → Outcome (Unit {0}) → Outcome B → Outcome B
m >> k = m >>= λ _. k

-- `assert(b)`
abbrev pub check : Bool → Outcome (Unit {0})
check true = done tt
check false = aborted

-- What holds of a call's result if it returns.
abbrev pub Ensures {ℓ} : {A : Type ℓ} → (A → Type 0) → Outcome A → Type 0
Ensures P (done a) = P a
Ensures P aborted = Unit
Ensures P overrun = Unit

pub Ensures-bind {ℓ κ} :
    {A : Type ℓ} {B : Type κ} (P : A → Type 0) (Q : B → Type 0) (m : Outcome A) (f : A → Outcome B)
    → Ensures P m
    → ((a : A) → P a → Ensures Q (f a))
    → Ensures Q (m >>= f)
Ensures-bind P Q (done a) f h k = k a h
Ensures-bind P Q aborted f h k = tt
Ensures-bind P Q overrun f h k = tt

-- What holds whatever the first call returns.
pub Ensures-always {ℓ κ} :
    {A : Type ℓ} {B : Type κ} (Q : B → Type 0) (m : Outcome A) (f : A → Outcome B)
    → ((a : A) → Ensures Q (f a))
    → Ensures Q (m >>= f)
Ensures-always Q (done a) f k = k a
Ensures-always Q aborted f k = tt
Ensures-always Q overrun f k = tt

-- A call returns what it returns.
pub Ensures-returned : {A : Type 0} (m : Outcome A) → Ensures (λ a. m ≡ done a) m
Ensures-returned (done a) = refl
Ensures-returned aborted = tt
Ensures-returned overrun = tt

pub Ensures-weaken {ℓ} :
    {A : Type ℓ} (P Q : A → Type 0) (m : Outcome A)
    → Ensures P m
    → ((a : A) → P a → Q a)
    → Ensures Q m
Ensures-weaken P Q (done a) h k = k a h
Ensures-weaken P Q aborted h k = tt
Ensures-weaken P Q overrun h k = tt

pub bind_cong {ℓ κ} :
    {A : Type ℓ} {B : Type κ} (m : Outcome A) (f g : A → Outcome B)
    → ((a : A) → f a ≡ g a)
    → m >>= f ≡ m >>= g
bind_cong (done a) f g h = h a
bind_cong aborted f g h = refl
bind_cong overrun f g h = refl

pub bind_assoc {ℓ κ μ} :
    {A : Type ℓ} {B : Type κ} {C : Type μ} (m : Outcome A) (f : A → Outcome B) (g : B → Outcome C)
    → (m >>= f) >>= g ≡ m >>= λ a. f a >>= g
bind_assoc (done a) f g = refl
bind_assoc aborted f g = refl
bind_assoc overrun f g = refl

-- ===== src/Base/Bits.antt =====
-- Bit masks at variables: `x & (2^k - 1)` and `x & ~(2^k - 1)` for every k, and tables over a byte.
use Prim.Native.Nat.{
  ℕ, zero, suc, ◌+◌, ◌-◌, ◌*◌, ◌/◌, ◌%◌, ◌^◌, ◌≤◌, ◌<◌, min, bit_and, digits, bit_and-bitwise,
}
use mathlib.Core.Path.{◌≡◌, refl, ◌∙◌, sym, ap}
use mathlib.Core.Bool.{Bool, true, false}
use native.Mathlib.Omega.{arith}
use native.Mathlib.Nat.{
  pow-suc, one-le-pow, add-mul-mod_self_right, mod-eq_of_lt, mod-add-div', mod-lt, mod-le,
}
use mathlib.Core.Logic.{inl, inr}
use native.Mathlib.Decide.{ℕ_discrete}
use jevmachopp.Base.Tests.{◌==◌, ==_iff, if◌then◌else◌, Bool-cases}

-- Whether two functions have the same table below `n`.
unfoldable pub same_table : ℕ → (ℕ → ℕ) → (ℕ → ℕ) → Bool
same_table zero f g = true
same_table (suc last) f g = if f last == g last then same_table last f g else false

pub agree_below : (n : ℕ) (f g : ℕ → ℕ) → same_table n f g ≡ true → (x : ℕ) → x < n → f x ≡ g x
unfolding same_table
agree_below zero f g table x h = absurd (omega arith)
agree_below (suc last) f g table x h = elim (Bool-cases (f last == g last)) [
  | inl here ↦ elim (ℕ_discrete x last) [
    | yes top ↦ ap f top ∙ ((==_iff (f last) (g last)).0 here ∙ ap g (sym top))
    | no lower ↦ agree_below last f g (rest here) x (omega arith)
  ]
  | inr differ ↦ absurd (rejected differ)
]
  where
    rest : (f last == g last) ≡ true → same_table last f g ≡ true
    rest here = ground arith

    rejected : (f last == g last) ≡ false → ⊥
    rejected differ = ground arith

-- Any fuel from the first number on gives the native operation.
enough_digits :
    (bound fuel x y : ℕ) → fuel ≤ bound → x ≤ fuel → digits (λ d. zero) min fuel x y ≡ bit_and x y
enough_digits bound zero zero y hf hx = sym (bit_and-bitwise 0 y)
enough_digits bound zero (suc x) y hf hx = absurd (omega arith)
enough_digits bound (suc fuel) zero y hf hx = sym (bit_and-bitwise 0 y)
enough_digits zero (suc fuel) (suc x) y hf hx = absurd (omega arith)
enough_digits (suc bound) (suc fuel) (suc x) y hf hx = omega (
  arith,
  enough_digits bound fuel (suc x / 2) (y / 2) (omega arith) (omega arith),
  enough_digits bound x (suc x / 2) (y / 2) (omega arith) (omega arith),
  bit_and-bitwise (suc x) y,
)

-- The lowest digit and the digits above it.
pub bit_and-halves : (x y : ℕ) → bit_and x y ≡ min (x % 2) (y % 2) + 2 * bit_and (x / 2) (y / 2)
bit_and-halves zero y = omega (arith, bit_and-bitwise 0 y, bit_and-bitwise 0 (y / 2))
bit_and-halves (suc x) y = omega (
  arith,
  bit_and-bitwise (suc x) y,
  enough_digits x x (suc x / 2) (y / 2) (omega arith) (omega arith),
)

no_digits : (fuel x : ℕ) → digits (λ d. zero) min fuel x 0 ≡ 0
no_digits zero x = refl
no_digits (suc fuel) zero = refl
no_digits (suc fuel) (suc x) = omega (arith, no_digits fuel (suc x / 2))

pub bit_and-zero : (x : ℕ) → bit_and x 0 ≡ 0
bit_and-zero x = bit_and-bitwise x 0 ∙ no_digits x x

pub pow2_pos : (k : ℕ) → 1 ≤ 2 ^ k
pow2_pos k = one-le-pow k 2 (omega arith)

-- A remainder is known by its quotient and its bound.
pub mod_unique : (a q r p : ℕ) → a ≡ r + q * p → r < p → a % p ≡ r
mod_unique a q r p e h = rw e (add-mul-mod_self_right r q p ∙ mod-eq_of_lt h)

-- `a % (2 * p)`, by its lowest digit.
mod_step : (a p : ℕ) → 1 ≤ p → a % (p * 2) ≡ a / 2 % p * 2 + a % 2
mod_step a p h = mod_unique a (a / 2 / p) (a / 2 % p * 2 + a % 2) (p * 2) split below
  where
    split : a ≡ a / 2 % p * 2 + a % 2 + a / 2 / p * (p * 2)
    split = omega (arith, mod-add-div' (a / 2) p)

    below : a / 2 % p * 2 + a % 2 < p * 2
    below = omega (arith, mod-lt (a / 2) h)

-- `x & (2^k - 1)` is `x % 2^k`.
pub bit_and_mask : (k a : ℕ) → bit_and a (2 ^ k - 1) ≡ a % 2 ^ k
bit_and_mask zero a = omega (arith, bit_and-zero a)
bit_and_mask (suc k) a = rw (pow-suc 2 k) (
    bit_and-halves a (2 ^ k * 2 - 1)
    ∙ rw (half, odd, bit_and_mask k (a / 2), mod_step a (2 ^ k) (pow2_pos k)) (omega arith))
  where
    half : (2 ^ k * 2 - 1) / 2 ≡ 2 ^ k - 1
    half = omega (arith, pow2_pos k)

    odd : (2 ^ k * 2 - 1) % 2 ≡ 1
    odd = omega (arith, pow2_pos k)

-- `x & ~(2^k - 1)` in a word of `w` bits clears the k low bits.
pub bit_and_high : (k w a : ℕ) → k ≤ w → a < 2 ^ w → bit_and a (2 ^ w - 2 ^ k) ≡ a - a % 2 ^ k
bit_and_high zero w a h lt = bit_and_mask w a ∙ (mod-eq_of_lt lt ∙ omega arith)
bit_and_high (suc k) zero a h lt = absurd (omega arith)
bit_and_high (suc k) (suc w) a h lt =
    rw (pow-suc 2 k, pow-suc 2 w)
      (bit_and-halves a (2 ^ w * 2 - 2 ^ k * 2)
        ∙ rw
            (
              half,
              even,
              mod_step a (2 ^ k) (pow2_pos k),
              bit_and_high k w (a / 2) (omega arith) small,
            )
            (omega (arith, mod-le (a / 2) (2 ^ k))))
  where
    half : (2 ^ w * 2 - 2 ^ k * 2) / 2 ≡ 2 ^ w - 2 ^ k
    half = omega arith

    even : (2 ^ w * 2 - 2 ^ k * 2) % 2 ≡ 0
    even = omega arith

    small : a / 2 < 2 ^ w
    small = omega (arith, pow-suc 2 w)

-- ===== src/Numerics.antt =====
-- include/jevmachopp/Common.h: the integer helpers that fix sizes at compile time.
pub mod Pow2
mod Tests
use native.Mathlib.Nat.{
  pow-le-pow_right, mod-add-div', dvd-zero, mod-lt, mod-eq_of_lt, dvd_refl, dvd-mod_iff, pow-suc,
  le_of_dvd,
}
use Prim.Native.Nat.{◌∣◌}
use mathlib.Core.Option
use jevmachopp.Base.{
  ℕ, zero, suc, ◌+◌, ◌-◌, ◌*◌, ◌/◌, ◌%◌, ◌^◌, ◌≤◌, ◌<◌, ◌≡◌, ◌≢◌, ◌∙◌, refl, ap, sym, arith,
  bit_and, Bool, true, false, ◌==◌, if◌then◌else◌, bit_and_high, mod_unique, bit_and_mask, pow2_pos,
  Option, none, some, Bool-cases, inl, inr, ℕ_discrete, ==-false,
}

-- `gcd` on an unsigned type, with fuel for its `while`.
unfoldable pub gcd_loop : ℕ → ℕ → ℕ → Option ℕ
gcd_loop zero a b = none
gcd_loop (suc fuel) a b = let rest = gcd_loop fuel b (a % b) in if b == 0 then some a else rest

unfoldable pub gcd : ℕ → ℕ → Option ℕ
unfolding gcd_loop
gcd a b = gcd_loop (b + 1) a b

-- `lcm` in a w-bit unsigned type.
unfoldable pub lcm : ℕ → ℕ → ℕ → Option ℕ
unfolding gcd
lcm w a b = Option.map (λ c. if c == 0 then 0 else a / c * b % 2 ^ w) (gcd a b)

-- The loop of `is_pow2` over the bits from `i` on, `left` of them.
unfoldable pub count_bits : ℕ → ℕ → ℕ → ℕ
count_bits num i zero = 0
count_bits num i (suc left) =
    let rest = count_bits num (i + 1) left in if bit_and (2 ^ i) num == 0 then rest else rest + 1

-- `is_pow2` in a w-bit type.
unfoldable pub is_pow2 : ℕ → ℕ → Bool
unfolding count_bits
is_pow2 w num = count_bits num 0 w == 1

-- `(num + mask) & ~mask` in a w-bit type.
abbrev pub add_and_clear : ℕ → ℕ → ℕ → ℕ
add_and_clear w mask num = bit_and ((num + mask) % 2 ^ w) (2 ^ w - 1 - mask)

unfoldable pub roundup_pow2 : ℕ → ℕ → ℕ → ℕ
roundup_pow2 w num nth_pow2 = add_and_clear w (2 ^ nth_pow2 % 2 ^ w - 1) num

unfoldable pub roundup_pow2_mul : ℕ → ℕ → ℕ → ℕ
roundup_pow2_mul w num pow2_mul = add_and_clear w (pow2_mul % 2 ^ w - 1) num

pow_lt : (k w : ℕ) → k < w → 2 ^ k < 2 ^ w
pow_lt k w h =
    omega (arith, pow-suc 2 k, pow2_pos k, pow-le-pow_right {n = 2} (omega arith) {i = suc k} h)

cleared :
    (w k num : ℕ)
    → k < w
    → num + 2 ^ k ≤ 2 ^ w
    → add_and_clear w (2 ^ k % 2 ^ w - 1) num ≡ num + (2 ^ k - 1) - (num + (2 ^ k - 1)) % 2 ^ k
cleared w k num h fits =
    rw (mod-eq_of_lt (pow_lt k w h), mod-eq_of_lt no_wrap, all_ones)
      (bit_and_high k w (num + (2 ^ k - 1)) (omega arith) no_wrap)
  where
    no_wrap : num + (2 ^ k - 1) < 2 ^ w
    no_wrap = omega (arith, pow2_pos k)

    all_ones : 2 ^ w - 1 - (2 ^ k - 1) ≡ 2 ^ w - 2 ^ k
    all_ones = omega (arith, pow2_pos k)

-- The fuel of `gcd` is enough, and what it returns divides both numbers and is divided by every
-- number that does.
gcd_loop-dvd :
    (fuel a b : ℕ)
    → b < fuel
    → (g : ℕ) × (gcd_loop fuel a b ≡ some g) × (g ∣ a) × (g ∣ b) × ((d : ℕ) → d ∣ a → d ∣ b → d ∣ g)
unfolding gcd_loop
gcd_loop-dvd zero a b h = absurd (omega arith)
gcd_loop-dvd (suc fuel) a b h = elim (ℕ_discrete b 0) [
  | yes none_left ↦ rw none_left (a, refl, dvd_refl a, dvd-zero a, λ d da db. da)
  | no more ↦
      let (g, e, gb, gr, least) = gcd_loop-dvd fuel b (a % b) (smaller more) in
      rw (==-false b 0 more)
        (g, e, (dvd-mod_iff g gb).0 gr, gb, λ d da db. least d db ((dvd-mod_iff d db).1 da))
]
  where
    smaller : b ≢ 0 → a % b < fuel
    smaller more = omega (arith, mod-lt a {m = b} (omega arith))

-- `gcd` on unsigned numbers ends, and what it returns divides both numbers and is divided by every
-- number that divides both.
pub gcd-dvd :
    (a b : ℕ) → (g : ℕ) × (gcd a b ≡ some g) × (g ∣ a) × (g ∣ b) × ((d : ℕ) → d ∣ a → d ∣ b → d ∣ g)
unfolding gcd
gcd-dvd a b = gcd_loop-dvd (b + 1) a b (omega arith)

-- For `2 ^ k` and a number whose sum is no more than the range of the type, `roundup_pow2_mul`
-- gives the least multiple of `2 ^ k` that is not below the number.
pub roundup_pow2_mul-least :
    (w k num : ℕ)
    → k < w
    → num + 2 ^ k ≤ 2 ^ w
    → (roundup_pow2_mul w num (2 ^ k) % 2 ^ k ≡ 0)
      × (num ≤ roundup_pow2_mul w num (2 ^ k))
      × (roundup_pow2_mul w num (2 ^ k) < num + 2 ^ k)
unfolding roundup_pow2_mul
roundup_pow2_mul-least w k num h fits = rw (cleared w k num h fits) (
  multiple (num + (2 ^ k - 1)),
  omega (arith, mod-lt (num + (2 ^ k - 1)) {m = 2 ^ k} (pow2_pos k)),
  omega (arith, pow2_pos k),
)
  where
    multiple : (x : ℕ) → (x - x % 2 ^ k) % 2 ^ k ≡ 0
    multiple x =
        mod_unique (x - x % 2 ^ k) (x / 2 ^ k) 0 (2 ^ k) (omega (arith, mod-add-div' x (2 ^ k)))
          (pow2_pos k)

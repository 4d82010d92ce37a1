-- ===== src/Numerics/Pow2.antt =====
-- What `is_pow2` of include/jevmachopp/Common.h recognises.
use native.Mathlib.Nat.{pow-suc, div-div-eq-div-mul}
use jevmachopp.Base.{
  ℕ, zero, suc, ◌+◌, ◌*◌, ◌/◌, ◌%◌, ◌^◌, ◌<◌, ◌≡◌, refl, ap, sym, ◌∙◌, arith, true, ◌==◌, bit_and,
  Bool-cases, inl, inr, ◌↔◌, ==_iff, pow2_pos, bit_and-halves, ==-false,
}
use jevmachopp.Numerics.{count_bits, is_pow2}
use Prim.Native.Nat.{bit_and-bitwise, min}

-- The number of the low bits of a number that are set.
bits_set : ℕ → ℕ → ℕ
bits_set n zero = 0
bits_set n (suc left) = n % 2 + bits_set (n / 2) left

-- One bit of a number.
bit_and_bit : (i n : ℕ) → bit_and (2 ^ i) n ≡ 2 ^ i * (n / 2 ^ i % 2)
bit_and_bit zero n = omega (arith, bit_and-halves 1 n, bit_and-bitwise 0 (n / 2))
bit_and_bit (suc i) n = rw (pow-suc 2 i) (
    bit_and-halves (2 ^ i * 2) n
    ∙ rw (twice, bit_and_bit i (n / 2), shift) (double (2 ^ i) (n / (2 ^ i * 2) % 2)))
  where
    twice : 2 ^ i * 2 / 2 ≡ 2 ^ i
    twice = omega arith

    shift : n / 2 / 2 ^ i ≡ n / (2 ^ i * 2)
    shift = div-div-eq-div-mul n 2 (2 ^ i) ∙ ap (λ m. n / m) (omega arith)

    double : (m b : ℕ) → min (m * 2 % 2) (n % 2) + 2 * (m * b) ≡ m * 2 * b
    double m b = grind arith

count_bits-bit :
    (num i left bit : ℕ)
    → bit < 2
    → bit_and (2 ^ i) num ≡ 2 ^ i * bit
    → count_bits num i (suc left) ≡ bit + count_bits num (i + 1) left
unfolding count_bits
count_bits-bit num i left zero lt e =
    rw ((==_iff (bit_and (2 ^ i) num) 0).1 (e ∙ omega arith)) (omega arith)
count_bits-bit num i left (suc zero) lt e =
    rw (==-false (bit_and (2 ^ i) num) 0 (λ z. absurd (omega (arith, e, pow2_pos i)))) (omega arith)
count_bits-bit num i left (suc (suc b)) lt e = absurd (omega arith)

count_bits-bits_set : (num i left : ℕ) → count_bits num i left ≡ bits_set (num / 2 ^ i) left
unfolding count_bits bits_set
count_bits-bits_set num i zero = refl
count_bits-bits_set num i (suc left) =
    count_bits-bit num i left (num / 2 ^ i % 2) (omega arith) (bit_and_bit i num)
    ∙ ap (λ c. num / 2 ^ i % 2 + c)
        (count_bits-bits_set num (i + 1) left ∙ ap (λ m. bits_set m left) behind)
  where
    after : i + 1 ≡ suc i
    after = omega arith

    next : 2 ^ (i + 1) ≡ 2 ^ i * 2
    next = ap (λ m. 2 ^ m) after ∙ pow-suc 2 i

    behind : num / 2 ^ (i + 1) ≡ num / 2 ^ i / 2
    behind = sym (div-div-eq-div-mul num (2 ^ i) 2 ∙ ap (λ m. num / m) (sym next))

bits_set-zero : (n left : ℕ) → n < 2 ^ left → bits_set n left ≡ 0 → n ≡ 0
unfolding bits_set
bits_set-zero n zero lt none_set = omega arith
bits_set-zero n (suc left) lt none_set =
    omega (arith, bits_set-zero (n / 2) left (omega (arith, pow-suc 2 left)) (omega arith))

bits_set-one :
    (n left : ℕ) → n < 2 ^ left → bits_set n left ≡ 1 → (k : ℕ) × (k < left) × (n ≡ 2 ^ k)
unfolding bits_set
bits_set-one n zero lt one = absurd (omega arith)
bits_set-one n (suc left) lt one = elim (Bool-cases (n % 2 == 0)) [
  | inl even ↦
      let (k, lt_k, e) =
        bits_set-one (n / 2) left (omega (arith, pow-suc 2 left))
          (omega (arith, (==_iff (n % 2) 0).0 even)) in
      (suc k, omega arith, omega (arith, pow-suc 2 k, (==_iff (n % 2) 0).0 even))
  | inr odd ↦
      let rest = bits_set-zero (n / 2) left (omega (arith, pow-suc 2 left)) (ground arith) in
      (0, omega arith, ground arith)
]

bits_set-pow : (k left : ℕ) → k < left → bits_set (2 ^ k) left ≡ 1
unfolding bits_set
bits_set-pow k zero lt = absurd (omega arith)
bits_set-pow zero (suc left) lt = ap (λ m. 1 + m) (none_set left)
  where
    none_set : (l : ℕ) → bits_set 0 l ≡ 0
    none_set zero = refl
    none_set (suc l) = omega (arith, none_set l)
bits_set-pow (suc k) (suc left) lt =
    rw (pow-suc 2 k, twice) (omega (arith, bits_set-pow k left (omega arith)))
  where
    twice : 2 ^ k * 2 / 2 ≡ 2 ^ k
    twice = omega arith

-- A number of a w-bit type passes the test if it is a power of two, and only then.
pub is_pow2-pow :
    (w num : ℕ) → num < 2 ^ w → (is_pow2 w num ≡ true) ↔ ((k : ℕ) × (k < w) × (num ≡ 2 ^ k))
unfolding is_pow2
is_pow2-pow w num lt = (
  λ passes. bits_set-one num w lt (
      sym (count_bits-bits_set num 0 w ∙ ap (λ m. bits_set m w) (omega arith))
      ∙ (==_iff (count_bits num 0 w) 1).0 passes),
  λ (k, lt_k, e). (==_iff (count_bits num 0 w) 1).1 (
      count_bits-bits_set num 0 w
      ∙ (ap (λ m. bits_set m w) (omega arith ∙ e) ∙ bits_set-pow k w lt_k)),
)

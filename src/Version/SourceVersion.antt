-- ===== src/Version/SourceVersion.antt =====
-- lib/jevmachopp/Version.cpp: `SourceVersion`, a.b.c.d.e packed as a24.b10.c10.d10.e10. The masks are
-- as the source writes them, `(2 << 10) - 1`.
use jevmachopp.Base.{ℕ, ◌+◌, ◌-◌, ◌*◌, ◌/◌, ◌%◌, ◌^◌, ◌<◌, ◌≡◌, arith, bit_and, bit_and_mask}

unfoldable pub a : ℕ → ℕ
a version = bit_and (version / 2 ^ 40) (2 * 2 ^ 24 - 1)

unfoldable pub b : ℕ → ℕ
b version = bit_and (version / 2 ^ 30) (2 * 2 ^ 10 - 1) % 2 ^ 16

unfoldable pub c : ℕ → ℕ
c version = bit_and (version / 2 ^ 20) (2 * 2 ^ 10 - 1) % 2 ^ 16

unfoldable pub d : ℕ → ℕ
d version = bit_and (version / 2 ^ 10) (2 * 2 ^ 10 - 1) % 2 ^ 16

unfoldable pub e : ℕ → ℕ
e version = bit_and version (2 * 2 ^ 10 - 1) % 2 ^ 16

-- The packing that the comment of the source names.
pub record Parts : Type 0 where
  pub a_part : ℕ
  pub b_part : ℕ
  pub c_part : ℕ
  pub d_part : ℕ
  pub e_part : ℕ

abbrev pub packed : Parts → ℕ
packed p = p.a_part * 2 ^ 40 + p.b_part * 2 ^ 30 + p.c_part * 2 ^ 20 + p.d_part * 2 ^ 10 + p.e_part

pub record Fits (p : Parts) : Type 0 where
  pub a_fits : p.a_part < 2 ^ 24
  pub b_fits : p.b_part < 2 ^ 10
  pub c_fits : p.c_part < 2 ^ 10
  pub d_fits : p.d_part < 2 ^ 10
  pub e_fits : p.e_part < 2 ^ 10

eleven_bits : (x : ℕ) → bit_and x (2 * 2 ^ 10 - 1) ≡ x % 2 ^ 11
eleven_bits = bit_and_mask 11

many_bits : (x : ℕ) → bit_and x (2 * 2 ^ 24 - 1) ≡ x % 2 ^ 25
many_bits = bit_and_mask 25

-- For parts that fit the packing a24.b10.c10.d10.e10, `a` gives its part, and each of `b` to `e`
-- gives its part with the lowest bit of the part above it as an eleventh bit.
pub parts-packed :
    (p : Parts)
    → Fits p
    → (a (packed p) ≡ p.a_part)
      × (b (packed p) ≡ p.b_part + p.a_part % 2 * 2 ^ 10)
      × (c (packed p) ≡ p.c_part + p.b_part % 2 * 2 ^ 10)
      × (d (packed p) ≡ p.d_part + p.c_part % 2 * 2 ^ 10)
      × (e (packed p) ≡ p.e_part + p.d_part % 2 * 2 ^ 10)
unfolding a b c d e
parts-packed p h = omega (
  arith,
  many_bits (packed p / 2 ^ 40),
  eleven_bits (packed p / 2 ^ 30),
  eleven_bits (packed p / 2 ^ 20),
  eleven_bits (packed p / 2 ^ 10),
  eleven_bits (packed p),
)

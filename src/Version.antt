-- ===== src/Version.antt =====
-- lib/jevmachopp/Version.cpp: packed version numbers.
pub mod SourceVersion
mod Tests
use jevmachopp.Base.{
  ℕ, ◌+◌, ◌-◌, ◌*◌, ◌/◌, ◌%◌, ◌^◌, ◌≤◌, ◌<◌, ◌≡◌, ◌≢◌, ◌∙◌, ap, refl, arith, bit_and, bit_and_mask,
  Bool, ltb,
}

pub record Version : Type 0 where
  pub patch : ℕ
  pub minor : ℕ
  pub major : ℕ

-- The constructor from a packed `uint32_t`.
unfoldable pub unpack : ℕ → Version
unpack ver = record {
  patch = bit_and ver 0xff;
  minor = bit_and (ver / 2 ^ 8) 0xff;
  major = ver / 2 ^ 16;
}

-- The layout that the constructor reads.
abbrev pub packed : Version → ℕ
packed v = v.major * 2 ^ 16 + v.minor * 2 ^ 8 + v.patch

low_byte : (x : ℕ) → bit_and x 0xff ≡ x % 2 ^ 8
low_byte = bit_and_mask 8

-- For fields in the range of their types, unpacking the packed word gives the fields.
pub unpack-packed :
    (v : Version) → v.patch < 2 ^ 8 → v.minor < 2 ^ 8 → v.major < 2 ^ 16 → unpack (packed v) ≡ v
unfolding unpack
unpack-packed v hp hm hj = ground (arith, low_byte (packed v), low_byte (packed v / 2 ^ 8))

-- Packing the fields that a 32-bit word unpacks to gives the word back.
pub packed-unpack : (ver : ℕ) → ver < 2 ^ 32 → packed (unpack ver) ≡ ver
unfolding unpack
packed-unpack ver h = omega (arith, low_byte ver, low_byte (ver / 2 ^ 8))

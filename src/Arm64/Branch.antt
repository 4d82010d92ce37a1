-- ===== src/Arm64/Branch.antt =====
-- lib/jevmachopp/ARM64Disasm.cpp: `isBL`, `decodeBL` and `isBLTo` on encoded branches.
use jevmachopp.Base.{
  ℕ, ◌+◌, ◌-◌, ◌*◌, ◌%◌, ◌^◌, ◌≤◌, ◌<◌, ◌≡◌, ◌↔◌, arith, bit_and, bit_and_mask, bit_and_high, some,
  true,
}
use jevmachopp.Arm64.{is_bl, decode_bl, is_bl_to}

-- `bl` to an offset of `imm26` words: opcode 100101 over a 26-bit immediate.
abbrev pub encode_bl : ℕ → ℕ
encode_bl imm26 = 0x94000000 + imm26

high_bits : (x : ℕ) → x < 2 ^ 32 → bit_and x 0xfc000000 ≡ x - x % 2 ^ 26
high_bits x h = bit_and_high 26 32 x (omega arith) h

low_bits : (x : ℕ) → bit_and x 0x03ffffff ≡ x % 2 ^ 26
low_bits = bit_and_mask 26

-- A 32-bit word is recognised as a `bl` just if it is the opcode with some 26-bit immediate.
pub is_bl_iff :
    (inst : ℕ)
    → inst < 2 ^ 32
    → (is_bl inst ≡ true) ↔ ((imm26 : ℕ) × (imm26 < 2 ^ 26) × (inst ≡ encode_bl imm26))
unfolding is_bl
is_bl_iff inst h = (
  λ yes_bl. (inst % 2 ^ 26, omega arith, ground (arith, high_bits inst h)),
  λ (imm26, lt, e). ground (arith, high_bits inst h),
)

-- The offset decoded from a `bl` is its 26-bit immediate in words of four bytes, with the sign of
-- the immediate's top bit.
pub decode_bl-encode_bl :
    (imm26 : ℕ)
    → imm26 < 2 ^ 26
    → (imm26 < 2 ^ 25 → decode_bl (encode_bl imm26) ≡ some (imm26 * 4))
      × (2 ^ 25 ≤ imm26 → decode_bl (encode_bl imm26) ≡ some (2 ^ 32 - (2 ^ 26 - imm26) * 4))
unfolding decode_bl
decode_bl-encode_bl imm26 h = (
  λ below. ground (arith, high_bits (encode_bl imm26) (omega arith), low_bits (encode_bl imm26)),
  λ above. ground (arith, high_bits (encode_bl imm26) (omega arith), low_bits (encode_bl imm26)),
)

-- For a `bl` whose immediate is a number of words forwards or backwards, in its reach and without
-- passing either end of the addresses, `isBLTo` holds of exactly one target: the address that many
-- words from the instruction.
pub is_bl_to-encode_bl :
    (words pc target : ℕ)
    → words ≤ 2 ^ 25
    → pc < 2 ^ 64
    → (words < 2 ^ 25
        → pc + words * 4 < 2 ^ 64
        → (is_bl_to (encode_bl words) pc target ≡ true) ↔ (target ≡ pc + words * 4))
      × (0 < words
          → words * 4 ≤ pc
          → (is_bl_to (encode_bl (2 ^ 26 - words)) pc target ≡ true) ↔ (target ≡ pc - words * 4))
unfolding is_bl_to
is_bl_to-encode_bl words pc target h wide = (
  λ below fits. ground (arith, (decode_bl-encode_bl words (omega arith)).0 below),
  λ pos inside.
      ground (arith, (decode_bl-encode_bl (2 ^ 26 - words) (omega arith)).1 (omega arith)),
)

-- ===== src/Arm64.antt =====
-- lib/jevmachopp/ARM64Disasm.cpp: recognising and decoding `bl` and the wide moves. A 32-bit signed
-- offset is its bit pattern; where the source widens it, the sign is extended to 64 bits.
pub mod Branch
mod Tests
use jevmachopp.Base.{
  ℕ, ◌+◌, ◌-◌, ◌*◌, ◌/◌, ◌%◌, ◌^◌, Option, none, some, Bool, true, false, not, ◌&&◌, ◌==◌, ltb,
  if◌then◌else◌, bit_and, Outcome, done, overrun, ◌>>=◌,
}

unfoldable pub is_bl : ℕ → Bool
is_bl inst = bit_and inst 0xfc000000 == 0x94000000

-- `inst & ~bl_opc_mask`, converted to a signed offset, shifted left by 6 and right by 4: the last
-- shift copies the sign.
abbrev pub sar4 : ℕ → ℕ
sar4 x = if ltb x (2 ^ 31) then x / 2 ^ 4 else x / 2 ^ 4 + (2 ^ 32 - 2 ^ 28)

unfoldable pub decode_bl : ℕ → Option ℕ
unfolding is_bl
decode_bl inst =
    if not (is_bl inst) then none else some (sar4 (bit_and inst 0x03ffffff * 2 ^ 6 % 2 ^ 32))

-- An `int32_t` in an addition to a `uint64_t`.
abbrev pub widen : ℕ → ℕ
widen x = if ltb x (2 ^ 31) then x else x + (2 ^ 64 - 2 ^ 32)

unfoldable pub is_bl_to : ℕ → ℕ → ℕ → Bool
unfolding decode_bl
is_bl_to inst pc target_addr = elim (decode_bl inst) [
  | none ↦ false
  | some off ↦ (widen off + pc) % 2 ^ 64 == target_addr
]

unfoldable pub is_mov_wide_imm : ℕ → Bool
is_mov_wide_imm inst = bit_and inst 0x1f800000 == 0x12800000

unfoldable pub decode_mov_wide_imm_reg : ℕ → ℕ
decode_mov_wide_imm_reg inst = bit_and inst 0x1f

unfoldable pub is_mov_wide_imm_to : ℕ → ℕ → Bool
unfolding is_mov_wide_imm decode_mov_wide_imm_reg
is_mov_wide_imm_to inst reg = is_mov_wide_imm inst && decode_mov_wide_imm_reg inst == reg

pub record MovImmInfo : Type 0 where
  pub val : ℕ
  pub reg : ℕ
  pub is64 : Bool

-- `raw_imm << (16 * hw)`, of a `raw_imm` that is promoted to `int`, in an `uint64_t`; a shift by 32 or
-- more is undefined, for which `overrun` stands here.
unfoldable pub shifted_imm : ℕ → ℕ → Outcome ℕ
shifted_imm raw_imm hw =
    if hw == 0 then done raw_imm else if hw == 1 then done (widen (raw_imm * 2 ^ 16)) else overrun

unfoldable pub decode_mov_wide_imm : ℕ → Outcome (Option MovImmInfo)
unfolding is_mov_wide_imm decode_mov_wide_imm_reg shifted_imm
decode_mov_wide_imm inst = elim (is_mov_wide_imm inst) [
  | false ↦ done none
  | true ↦ shifted_imm (bit_and (inst / 2 ^ 5) 0xffff) (bit_and (inst / 2 ^ 21) 0x3) >>= λ imm.
      done (
        some (record {
          val = imm;
          reg = decode_mov_wide_imm_reg inst;
          is64 = not (bit_and inst 0x80000000 == 0);
        }))
]

-- `ARM64Inst`
pub record Arm64Inst : Type 0 where
  pub inst_word : ℕ
  pub pc : ℕ

unfoldable pub inst_is_bl : Arm64Inst → Bool
unfolding is_bl
inst_is_bl inst = is_bl inst.inst_word

unfoldable pub inst_is_bl_to : Arm64Inst → ℕ → Bool
unfolding is_bl_to
inst_is_bl_to inst target_addr = is_bl_to inst.inst_word inst.pc target_addr

-- ===== src/Arm64/Tests.antt =====
-- Branches on small inputs.
use jevmachopp.Base.{◌≡◌, refl, true, false, some, done, overrun}
use jevmachopp.Arm64.{is_mov_wide_imm_to, decode_mov_wide_imm}

-- `mov x5, #0x10`
move_to_x5 : is_mov_wide_imm_to 0xd2800205 5 ≡ true
unfolding is_mov_wide_imm_to
move_to_x5 = refl

-- `mov w0, #0x80000000`, whose value has its sign extended.
sign_of_value :
    decode_mov_wide_imm 0x52b00000
    ≡ done (some (record { val = 0xffffffff80000000; reg = 0; is64 = false }))
unfolding decode_mov_wide_imm
sign_of_value = refl

-- `mov x5, #0x1_0000_0000`
shift_by_32 : decode_mov_wide_imm 0xd2c00025 ≡ overrun
unfolding decode_mov_wide_imm
shift_by_32 = refl

-- ===== src/Numerics/Tests.antt =====
-- The integer helpers on small inputs.
use jevmachopp.Base.{◌≡◌, refl, some, true, false}
use jevmachopp.Numerics.{lcm, is_pow2, roundup_pow2}

lcm_4_6 : lcm 64 4 6 ≡ some 12
unfolding lcm
lcm_4_6 = refl

pow2_12 : is_pow2 32 12 ≡ false
unfolding is_pow2
pow2_12 = refl

pow2_4096 : is_pow2 32 4096 ≡ true
unfolding is_pow2
pow2_4096 = refl

roundup_page : roundup_pow2 64 0x4001 14 ≡ 0x8000
unfolding roundup_pow2
roundup_page = refl

-- ===== src/Version/Tests.antt =====
-- Versions on small inputs.
use jevmachopp.Base.{◌≡◌, refl}
use jevmachopp.Version.{unpack, Version}
use jevmachopp.Version.SourceVersion
use jevmachopp.Version.SourceVersion.{Parts, Fits, a, b, c, d, e, parts-packed}

abbrev v10_15_7 : Version
v10_15_7 = record { patch = 7; minor = 15; major = 10 }

unpack-v10_15_7 : unpack 0x0a0f07 ≡ v10_15_7
unfolding unpack
unpack-v10_15_7 = refl

-- 7195.81.3
abbrev parts : Parts
parts = record { a_part = 7195; b_part = 81; c_part = 3; d_part = 0; e_part = 0 }

b_is_1105 : b (SourceVersion.packed parts) ≡ 1105
unfolding b
b_is_1105 = refl

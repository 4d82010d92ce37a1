-- ===== src/Csr/Tests.antt =====
-- Tests of include/jevmachopp/CSR.h.
use jevmachopp.Base.{[], ◌∷◌, ◌≡◌, refl}
use jevmachopp.Csr.{
  to_strings, flags_loop, as_unsigned, allow_unrestricted_fs, allow_unauthenticated_root,
}

two_flags : to_strings 0x802 ≡ allow_unrestricted_fs ∷ allow_unauthenticated_root ∷ []
unfolding to_strings flags_loop as_unsigned
two_flags = refl

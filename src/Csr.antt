-- ===== src/Csr.antt =====
-- include/jevmachopp/CSR.h: the flags of a configuration of system integrity protection. A flag stands
-- for its name.
mod Tests
use jevmachopp.Base.{ℕ, ◌^◌, List, [], ◌∷◌, not, ◌==◌, if◌then◌else◌, bit_and}

pub data CsrConfig : Type 0 where
  allow_untrusted_kexts : CsrConfig
  allow_unrestricted_fs : CsrConfig
  allow_task_for_pid : CsrConfig
  allow_kernel_debugger : CsrConfig
  allow_apple_internal : CsrConfig
  allow_unrestricted_dtrac : CsrConfig
  allow_unrestricted_nvram : CsrConfig
  allow_device_configuration : CsrConfig
  allow_any_recovery_os : CsrConfig
  allow_unapproved_kexts : CsrConfig
  allow_executable_policy_override : CsrConfig
  allow_unauthenticated_root : CsrConfig

unfoldable pub as_unsigned : CsrConfig → ℕ
as_unsigned allow_untrusted_kexts = 2 ^ 0
as_unsigned allow_unrestricted_fs = 2 ^ 1
as_unsigned allow_task_for_pid = 2 ^ 2
as_unsigned allow_kernel_debugger = 2 ^ 3
as_unsigned allow_apple_internal = 2 ^ 4
as_unsigned allow_unrestricted_dtrac = 2 ^ 5
as_unsigned allow_unrestricted_nvram = 2 ^ 6
as_unsigned allow_device_configuration = 2 ^ 7
as_unsigned allow_any_recovery_os = 2 ^ 8
as_unsigned allow_unapproved_kexts = 2 ^ 9
as_unsigned allow_executable_policy_override = 2 ^ 10
as_unsigned allow_unauthenticated_root = 2 ^ 11

-- The flags by their index.
abbrev pub flags : List CsrConfig
flags =
    allow_untrusted_kexts ∷ allow_unrestricted_fs ∷ allow_task_for_pid ∷ allow_kernel_debugger
    ∷ allow_apple_internal ∷ allow_unrestricted_dtrac ∷ allow_unrestricted_nvram
    ∷ allow_device_configuration ∷ allow_any_recovery_os ∷ allow_unapproved_kexts
    ∷ allow_executable_policy_override ∷ allow_unauthenticated_root ∷ []

-- The loop of `to_strings`, over the flags that are left.
unfoldable pub flags_loop : ℕ → List CsrConfig → List CsrConfig
unfolding as_unsigned
flags_loop val [] = []
flags_loop val (flag ∷ left) =
    let rest = flags_loop val left in
    if not (bit_and (as_unsigned flag) val == 0) then flag ∷ rest else rest

unfoldable pub to_strings : ℕ → List CsrConfig
unfolding flags_loop
to_strings val = flags_loop val flags

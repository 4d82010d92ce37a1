-- ===== src/Nvram/Partition.antt =====
-- include/jevmachopp/NVRAM.h and lib/jevmachopp/NVRAM.cpp: the headers of partitions, their
-- variables and the boot arguments. A partition is the offset of its header in memory.
use jevmachopp.Base.{
  ℕ, suc, ◌+◌, ◌*◌, ◌%◌, ◌^◌, List, [], ◌∷◌, length, Option, none, some, Bool, Outcome, done, ◌>>=◌,
}
use jevmachopp.Text.{text_eq, range_contains_str}
use jevmachopp.Memory.{loaded_uint, c_string}
use jevmachopp.CStr.{packed_find, range_for_space_delimited_c_str}
use jevmachopp.Nvram.{var_name, var_value}

-- `NVRAMProxyData`
pub record ProxyData : Type 0 where
  pub nvram_hdr : ℕ
  pub common_part : ℕ
  pub system_part : ℕ

-- `data` of a header.
abbrev pub partition_data : ℕ → ℕ
partition_data p = p + 16

abbrev pub boot_args_name : List ℕ
boot_args_name = b'b' ∷ b'o' ∷ b'o' ∷ b't' ∷ b'-' ∷ b'a' ∷ b'r' ∷ b'g' ∷ b's' ∷ []

module _ (mem : List ℕ) where
  unfoldable pub size_blocks : ℕ → Outcome ℕ
  size_blocks p = loaded_uint 2 mem (p + 2)

  -- `size_bytes` of a header and of a partition.
  unfoldable pub size_bytes : ℕ → Outcome ℕ
  unfolding size_blocks
  size_bytes p = size_blocks p >>= λ n. done (n * 0x10 % 2 ^ 32)

  -- `name` of a header and of a partition.
  abbrev pub partition_name : ℕ → Outcome (List ℕ)
  partition_name p = c_string mem (p + 4)

  -- `extractProxyData`
  unfoldable pub extract_proxy_data : ℕ → Outcome ProxyData
  unfolding size_bytes
  extract_proxy_data buf =
      let common = buf + 32 in
      size_bytes common >>= λ n.
      done (record { nvram_hdr = buf; common_part = common; system_part = common + n })

  -- `varNamed`, the offset of the variable; the loop ends within the memory.
  unfoldable pub var_named : ℕ → List ℕ → Outcome (Option ℕ)
  unfolding packed_find var_name
  var_named part name =
      packed_find mem (λ s. text_eq (var_name (some s)) name) (suc (length mem))
        (some (partition_data part))

  abbrev string_at : Option ℕ → Outcome (Option (List ℕ))
  string_at none = done none
  string_at (some p) = c_string mem p >>= λ s. done (some s)

  -- The value of a variable, or null where there is none.
  unfoldable pub variable_value : ℕ → List ℕ → Outcome (Option (List ℕ))
  unfolding var_value
  variable_value part name = var_named part name >>= λ o. string_at o >>= λ s. done (var_value s)

  unfoldable pub common_boot_args_value : ProxyData → Outcome (Option (List ℕ))
  common_boot_args_value d = variable_value d.common_part boot_args_name

  unfoldable pub common_boot_args : ProxyData → Outcome (List (List ℕ))
  unfolding common_boot_args_value
  common_boot_args d = common_boot_args_value d >>= range_for_space_delimited_c_str

  unfoldable pub common_has_boot_arg : ProxyData → List ℕ → Outcome Bool
  unfolding common_boot_args range_contains_str
  common_has_boot_arg d arg_name =
      common_boot_args d >>= λ args. done (range_contains_str args arg_name)

  unfoldable pub system_boot_args_value : ProxyData → Outcome (Option (List ℕ))
  system_boot_args_value d = variable_value d.system_part boot_args_name

  unfoldable pub system_boot_args : ProxyData → Outcome (List (List ℕ))
  unfolding system_boot_args_value
  system_boot_args d = system_boot_args_value d >>= range_for_space_delimited_c_str

  unfoldable pub system_has_boot_arg : ProxyData → List ℕ → Outcome Bool
  unfolding system_boot_args range_contains_str
  system_has_boot_arg d arg_name =
      system_boot_args d >>= λ args. done (range_contains_str args arg_name)

-- ===== src/Nvram/BootArgs.antt =====
-- lib/jevmachopp/NVRAM.cpp: the variables of a partition in memory, and the boot arguments.
use jevmachopp.Base.{
  ℕ, List, ◌∷◌, length, some, Bool, false, inl, inr, ◌≡◌, refl, arith, All, done, overrun, true,
  ◌↔◌,
}
use mathlib.Core.Option
use jevmachopp.Text.{text_eq, find_if_or_nullptr, range_contains_str}
use jevmachopp.Text.Laws.{find_if_or_nullptr-none, IsAmong, range_contains_str-IsAmong}
use jevmachopp.Memory.Reads.{IsAt, IsAt-length}
use jevmachopp.Memory.Place.{place, place-find}
use jevmachopp.CStr.{range_for_delimited_c_str, delimited_start}
use jevmachopp.CStr.Delimited.{Parts, range-Parts}
use jevmachopp.CStr.Packed.{
  IsCString, strings_image, string_size, packed_find-place, placed_strings, length-strings_image,
  IsStringAt,
}
use jevmachopp.Nvram.{var_name, var_value}
use jevmachopp.Nvram.Partition.{
  ProxyData, partition_data, var_named, variable_value, boot_args_name, common_boot_args_value,
  common_boot_args, common_has_boot_arg,
}

abbrev pub has_name : List ℕ → List ℕ → Bool
has_name name s = text_eq (var_name (some s)) name

module _ (mem : List ℕ) (part : ℕ) (s : List ℕ) (ss : List (List ℕ)) (ok : All IsCString (s ∷ ss))
    (at : IsAt mem (partition_data part) (strings_image (s ∷ ss))) where
  var_named-place :
      (name : List ℕ)
      → var_named mem part name
        ≡ done (
            Option.map
              (λ e. e.0)
              (find_if_or_nullptr
                (λ e. has_name name e.1)
                (place string_size (partition_data part) (s ∷ ss))))
  unfolding var_named
  var_named-place name =
      packed_find-place mem (has_name name) (length mem) (partition_data part) s ss
        (omega (
          arith,
          length-strings_image (s ∷ ss),
          IsAt-length mem (partition_data part) (strings_image (s ∷ ss)) at,
        ))
        ok at

  -- For a partition in memory with one or more variables, none of them empty, the value that is
  -- looked up by a name is that of the first variable that has the name, or null where there is
  -- none.
  pub variable_value-find_if_or_nullptr :
      (name : List ℕ)
      → variable_value mem part name
        ≡ done (var_value (find_if_or_nullptr (has_name name) (s ∷ ss)))
  unfolding variable_value
  variable_value-find_if_or_nullptr name =
      rw (var_named-place name)
        (elim (place-find string_size (has_name name) (IsStringAt mem) (partition_data part)
          (s ∷ ss) (placed_strings mem (partition_data part) (s ∷ ss) ok at)) [
            | inl (placed, plain) ↦ rw (placed, plain) refl
            | inr (q, x, placed, plain, there, hit) ↦ rw (placed, plain, there) refl
          ])

module _ (mem : List ℕ) (d : ProxyData) (s : List ℕ) (ss : List (List ℕ)) where
  -- For a common partition in memory with one or more variables, none of them empty and none named
  -- `boot-args`, `common_hasBootArg` searches a null pointer.
  pub common_has_boot_arg-overrun :
      (arg : List ℕ)
      → All IsCString (s ∷ ss)
      → IsAt mem (partition_data d.common_part) (strings_image (s ∷ ss))
      → All (λ v. has_name boot_args_name v ≡ false) (s ∷ ss)
      → common_has_boot_arg mem d arg ≡ overrun
  unfolding common_has_boot_arg common_boot_args common_boot_args_value range_for_delimited_c_str
      delimited_start var_value
  common_has_boot_arg-overrun arg ok at missing =
      rw
        (
          variable_value-find_if_or_nullptr mem d.common_part s ss ok at boot_args_name,
          find_if_or_nullptr-none (has_name boot_args_name) (s ∷ ss) missing,
        )
        refl

  -- For a common partition in memory with one or more variables, none of them empty, the first
  -- `boot-args` among them having a value: `common_hasBootArg` tells whether the argument is one of
  -- the parts of the value between spaces.
  pub common_has_boot_arg-Parts :
      (arg value : List ℕ)
      → All IsCString (s ∷ ss)
      → IsAt mem (partition_data d.common_part) (strings_image (s ∷ ss))
      → var_value (find_if_or_nullptr (has_name boot_args_name) (s ∷ ss)) ≡ some value
      → (p : Parts b' ' value) × (found : Bool) × (common_has_boot_arg mem d arg ≡ done found)
        × ((found ≡ true) ↔ IsAmong arg (p.first ∷ p.others))
  unfolding common_has_boot_arg common_boot_args common_boot_args_value
  common_has_boot_arg-Parts arg value ok at found =
      let (p, views) = range-Parts b' ' value in
      (
        p,
        range_contains_str (p.first ∷ p.others) arg,
        rw
            (
              variable_value-find_if_or_nullptr mem d.common_part s ss ok at boot_args_name,
              found,
              views,
            )
            refl,
        range_contains_str-IsAmong arg (p.first ∷ p.others),
      )

-- ===== src/DeviceTree/Patch.antt =====
-- lib/jevmachopp/DeviceTree.cpp: the patching of properties. A call returns its result and the
-- memory after it.
use jevmachopp.Base.{
  ℕ, List, [], ◌∷◌, length, get_or, Option, none, some, Bool, true, false, ◌&&◌, not, ◌==◌,
  if◌then◌else◌, Outcome, done, overrun, ◌>>=◌,
}
use jevmachopp.Hex.{sv2int}
use jevmachopp.DeviceTree.{size_raw, as_u32, as_u64, data_at}
use jevmachopp.Memory.{store, bytes_le}
use jevmachopp.DeviceTree.Node.{lookup_property, child_named, property_named}
use jevmachopp.Nvram.Partition.{extract_proxy_data, var_named}
use jevmachopp.Nvram.{var_value}
use jevmachopp.Memory.{c_string}

-- A value written over `*(uint64_t *)` at the data of a property, if the string is a number.
abbrev pub write_parsed : List ℕ → ℕ → Outcome ℕ → Option (Option ℕ) → Outcome (Bool × List ℕ)
write_parsed mem q before none = overrun
write_parsed mem q before (some none) = done (false, mem)
write_parsed mem q before (some (some prop_val)) =
    before >>= λ _. store mem (data_at q) (bytes_le 8 prop_val) >>= λ mem'. done (true, mem')

-- `processPatch` at the property that its path leads to.
unfoldable pub patch_property : List ℕ → ℕ → List ℕ → Outcome (Bool × List ℕ)
patch_property mem q prop_val_str = size_raw mem q >>= λ s.
    if s == 4
    then write_parsed mem q (as_u32 mem q) (sv2int 4 prop_val_str)
    else (if s == 8
        then write_parsed mem q (as_u64 mem q) (sv2int 8 prop_val_str)
        else done (false, mem))

module _ (split : List ℕ → ℕ → List (List ℕ)) where
  unfoldable pub process_patch : List ℕ → ℕ → List ℕ → Outcome (Bool × List ℕ)
  unfolding lookup_property patch_property
  process_patch mem root patch_spec =
      let parts = split patch_spec b'=' in
      if not (length parts == 2)
      then done (false, mem)
      else (lookup_property mem split root (get_or parts 0 []) >>= λ o. elim o [
        | none ↦ done (false, mem)
        | some q ↦ patch_property mem q (get_or parts 1 [])
      ])

  -- The loop of `processPatches` over the patches.
  unfoldable pub patches_loop : List ℕ → ℕ → Bool → List (List ℕ) → Outcome (Bool × List ℕ)
  unfolding process_patch
  patches_loop mem root good [] = done (good, mem)
  patches_loop mem root good (spec ∷ specs) =
      process_patch mem root spec >>= λ r. patches_loop r.1 root (good && r.0) specs

  unfoldable pub process_patches : List ℕ → ℕ → List ℕ → Outcome (Bool × List ℕ)
  unfolding patches_loop
  process_patches mem root patches_spec = patches_loop mem root true (split patches_spec b' ')

  abbrev chosen_name : List ℕ
  chosen_name = b'c' ∷ b'h' ∷ b'o' ∷ b's' ∷ b'e' ∷ b'n' ∷ []

  abbrev proxy_data_name : List ℕ
  proxy_data_name =
      b'n' ∷ b'v' ∷ b'r' ∷ b'a' ∷ b'm' ∷ b'-' ∷ b'p' ∷ b'r' ∷ b'o' ∷ b'x' ∷ b'y' ∷ b'-' ∷ b'd'
      ∷ b'a' ∷ b't' ∷ b'a' ∷ []

  abbrev dt_patches_name : List ℕ
  dt_patches_name = b'd' ∷ b't' ∷ b'-' ∷ b'p' ∷ b'a' ∷ b't' ∷ b'c' ∷ b'h' ∷ b'e' ∷ b's' ∷ []

  -- A string view of a null pointer is undefined.
  abbrev patches_of : List ℕ → ℕ → Option (List ℕ) → Outcome (Bool × List ℕ)
  patches_of mem root none = overrun
  patches_of mem root (some spec) = process_patches mem root spec

  -- `processPatches` with the patches from the NVRAM of the tree.
  unfoldable pub process_nvram_patches : List ℕ → ℕ → Outcome (Bool × List ℕ)
  unfolding process_patches child_named property_named extract_proxy_data var_named
  process_nvram_patches mem root = child_named mem root chosen_name >>= λ o. elim o [
    | none ↦ done (false, mem)
    | some chosen ↦ property_named mem chosen proxy_data_name >>= λ prop. elim prop [
      | none ↦ done (false, mem)
      | some q ↦ extract_proxy_data mem (data_at q) >>= λ d.
          var_named mem d.common_part dt_patches_name >>= λ var. elim var [
            | none ↦ done (true, mem)
            | some v ↦ c_string mem v >>= λ s. patches_of mem root (var_value (some s))
          ]
    ]
  ]

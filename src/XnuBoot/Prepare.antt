-- ===== src/XnuBoot/Prepare.antt =====
-- lib/jevmachopp/XNUBoot.cpp: `load_and_prep_xnu_kernelcache`. Addresses are offsets in memory. What
-- is printed is left out, with the reads that it makes but for those of properties.
use jevmachopp.Base.{
  ℕ, zero, suc, ◌+◌, ◌-◌, ◌%◌, ◌^◌, List, map, drop, length, Option, none, some, Bool, true, false,
  not, ◌||◌, ◌==◌, bit_and, if◌then◌else◌, Outcome, done, aborted, ◌>>=◌,
}
use jevmachopp.Memory.{load, store, loaded_uint, c_string}
use jevmachopp.Text.{codes, range_contains_str}
use jevmachopp.AddrRange.{AddrRange}
use jevmachopp.AddrRange as Range
use jevmachopp.MachO.{is_magic_good, unix_thread}
use jevmachopp.MachO.Commands.{segments, vmaddr_range, file_range}
use jevmachopp.DeviceTree.{as_reg, data_at}
use jevmachopp.DeviceTree.Node.{child_named, property_named, get_cpu_impl_reg_addrs}
use jevmachopp.DeviceTree.Patch.{process_nvram_patches}
use jevmachopp.XnuBoot.Regions.{
  read_regions, set_reg, properties_named_with_prefix, kernel_prefix, reserved_prefix, reserve_loop,
  segments_loop,
}

-- `vector_args`, the five arguments by their names in `xnu_jump_stub`.
pub record VectorArgs : Type 0 where
  pub entry : ℕ
  pub new_bootargs_addr : ℕ
  pub image_addr : ℕ
  pub new_base : ℕ
  pub image_size : ℕ
  pub image_entry : ℕ
  pub restore_logo : Bool

-- How the preparation ends: early, or with `next_stage` set and the registers of processors to write.
pub data Boot : Type 0 where
  bailed : List ℕ → Boot
  prepared : (mem : List ℕ) (next_stage : VectorArgs) (rvbar_writes : List (ℕ × ℕ)) → Boot

-- What is known of the kernel and of the boot when copying begins.
pub record KernelImage : Type 0 where
  pub macho_base : ℕ
  pub payload_base : ℕ
  pub vm_size : ℕ
  pub entry_pc : ℕ

-- Where the copies behind the kernel begin.
pub record CopyPlaces : Type 0 where
  pub sepfw_reg : ℕ
  pub ba_reg : ℕ
  pub sepfw_copy_base : ℕ
  pub ba_copy_base : ℕ
  pub stub_copy_base : ℕ

-- A null pointer ends the preparation early.
abbrev pub or_bail {ℓ} : {A : Type ℓ} → A → (ℕ → Outcome A) → Option ℕ → Outcome A
or_bail bail k none = done bail
or_bail bail k (some p) = k p

-- `memcpy`
unfoldable pub memcpy : List ℕ → ℕ → ℕ → ℕ → Outcome (List ℕ)
memcpy mem dest src n = load mem src n >>= store mem dest

-- `_xnu_jump_stub_end` of the stub at `p`, with fuel for the words.
unfoldable pub stub_end : List ℕ → ℕ → ℕ → Outcome ℕ
stub_end mem zero p = aborted
stub_end mem (suc fuel) p = loaded_uint 4 mem p >>= λ word. elim (word == 0xdeadbeef) [
  | true ↦ done p
  | false ↦ stub_end mem fuel (p + 4)
]

module _ (split : List ℕ → ℕ → List (List ℕ)) (decimal : ℕ → List ℕ)
    (emplace_back : List ℕ → ℕ → Outcome (List ℕ)) (xnu_jump_stub : ℕ) (dt : ℕ)
    (memory_map : ℕ) where
  -- The arguments for the stub, and the writes of `rvbar` to all processors but the first.
  unfoldable pub stage : List ℕ → KernelImage → CopyPlaces → List ℕ → Boot
  stage mem k c cpu_impl_reg_addrs =
      prepared mem
        (record {
          entry = c.stub_copy_base;
          new_bootargs_addr = (c.ba_copy_base + 2 ^ 64 - k.payload_base + k.macho_base) % 2 ^ 64;
          image_addr = k.payload_base;
          new_base = k.macho_base;
          image_size = (c.stub_copy_base + 2 ^ 64 - k.payload_base) % 2 ^ 64;
          image_entry = k.entry_pc;
          restore_logo = true;
        })
        (map (λ addr. (addr, bit_and k.entry_pc (2 ^ 64 - 2 ^ 12))) (drop 1 cpu_impl_reg_addrs))

  -- The patches of the device tree, unless a boot argument says not to, and the last step.
  unfoldable pub finish_boot : List ℕ → KernelImage → CopyPlaces → List (List ℕ) → Outcome Boot
  finish_boot mem k c split_boot_args =
      (if range_contains_str split_boot_args (codes "-no-dt-patches")
        then done (true, mem)
        else process_nvram_patches split mem dt)
      >>= λ patched. get_cpu_impl_reg_addrs patched.1 emplace_back dt >>= λ regs.
          done (stage patched.1 k c regs)

  -- The regions of the memory map, for the kernel in its new place.
  unfoldable pub update_map : List ℕ → KernelImage → CopyPlaces → List (List ℕ) → Outcome Boot
  update_map mem k c split_boot_args = read_regions mem memory_map >>= λ _.
      properties_named_with_prefix mem memory_map kernel_prefix >>= λ first.
      reserve_loop decimal (suc first.m_sz) mem 0 first >>= λ reserved.
      properties_named_with_prefix reserved memory_map reserved_prefix >>= λ region.
      segments reserved k.payload_base >>= λ segs.
      segments_loop reserved k.macho_base region segs >>= λ placed.
      loaded_uint 8 placed (data_at c.sepfw_reg + 8) >>= λ sepfw_size.
      set_reg placed c.sepfw_reg (record {
        base = (c.sepfw_copy_base + 2 ^ 64 - k.payload_base + k.macho_base) % 2 ^ 64;
        size = sepfw_size;
      })
      >>= λ moved. loaded_uint 8 moved (data_at c.ba_reg + 8) >>= λ ba_size.
          set_reg moved c.ba_reg (record {
            base = (c.ba_copy_base + 2 ^ 64 - k.payload_base + k.macho_base) % 2 ^ 64;
            size = ba_size;
          })
          >>= λ mapped.
              read_regions mapped memory_map >>= λ _. finish_boot mapped k c split_boot_args

  -- The copies of the firmware, the boot arguments and the stub, one behind the other.
  unfoldable pub make_copies : List ℕ → KernelImage → Outcome (List ℕ × Option CopyPlaces)
  make_copies mem k =
      property_named mem memory_map (codes "SEPFW")
      >>= or_bail (mem, none)
          λ sepfw. as_reg mem sepfw >>= λ sepfw_reg.
            let sepfw_copy_base = (k.payload_base + k.vm_size) % 2 ^ 64 in
            memcpy mem sepfw_copy_base sepfw_reg.base sepfw_reg.size >>= λ with_sepfw.
            property_named with_sepfw memory_map (codes "BootArgs")
            >>= or_bail (with_sepfw, none)
                λ ba. as_reg with_sepfw ba >>= λ ba_reg.
                  let ba_copy_base = (sepfw_copy_base + sepfw_reg.size) % 2 ^ 64 in
                  memcpy with_sepfw ba_copy_base ba_reg.base ba_reg.size >>= λ with_ba.
                  let stub_copy_base = (ba_copy_base + ba_reg.size) % 2 ^ 64 in
                  stub_end with_ba (suc (length with_ba)) xnu_jump_stub >>= λ last.
                  memcpy with_ba stub_copy_base xnu_jump_stub (last - xnu_jump_stub)
                  >>= λ with_stub. done (
                    with_stub,
                    some (record {
                      sepfw_reg = sepfw;
                      ba_reg = ba;
                      sepfw_copy_base = sepfw_copy_base;
                      ba_copy_base = ba_copy_base;
                      stub_copy_base = stub_copy_base;
                    }),
                  )

  -- What follows on the copies.
  unfoldable pub copy_behind : List ℕ → KernelImage → List (List ℕ) → Outcome Boot
  copy_behind mem k split_boot_args = make_copies mem k >>= λ (copied, o). elim o [
    | none ↦ done (bailed copied)
    | some places ↦ update_map copied k places split_boot_args
  ]

  -- The kernel in the payload, with its entry point.
  unfoldable pub prepare_kernel : List ℕ → List (List ℕ) → Outcome Boot
  prepare_kernel mem split_boot_args =
      property_named mem memory_map (codes "Kernel-mach_header")
      >>= or_bail (bailed mem) λ header. as_reg mem header >>= λ mach_header_reg.
          property_named mem memory_map (codes "Kernel-PYLD")
          >>= or_bail (bailed mem) λ payload. as_reg mem payload >>= λ payload_reg.
              is_magic_good mem payload_reg.base >>= λ good.
              if not good
              then done (bailed mem)
              else (vmaddr_range mem payload_reg.base >>= λ vm.
                  file_range mem payload_reg.base >>= λ file.
                  if not (file.min_addr == 0) || not (Range.size file == Range.size vm)
                  then done (bailed mem)
                  else (unix_thread mem payload_reg.base
                      >>= or_bail (bailed mem) λ thread. loaded_uint 8 mem (thread + 264) >>= λ pc.
                          copy_behind mem
                            (record {
                              macho_base = mach_header_reg.base;
                              payload_base = payload_reg.base;
                              vm_size = Range.size vm;
                              entry_pc =
                                  (mach_header_reg.base + (pc + 2 ^ 64 - vm.min_addr)) % 2 ^ 64;
                            })
                            split_boot_args))

module _ (split : List ℕ → ℕ → List (List ℕ)) (decimal : ℕ → List ℕ)
    (emplace_back : List ℕ → ℕ → Outcome (List ℕ)) (xnu_jump_stub : ℕ) where
  -- The memory map, if the boot is verbose.
  unfoldable pub prepare_boot : List ℕ → ℕ → ℕ → Outcome Boot
  prepare_boot mem boot_args dt = c_string mem (boot_args + 108) >>= λ command_line.
      child_named mem dt (codes "chosen")
      >>= or_bail (bailed mem) λ chosen.
        let split_boot_args = split command_line b' ' in
        if not (range_contains_str split_boot_args (codes "-v"))
        then done (bailed mem)
        else (child_named mem chosen (codes "memory-map")
            >>= or_bail (bailed mem) λ memory_map. read_regions mem memory_map >>= λ _.
                prepare_kernel split decimal emplace_back xnu_jump_stub dt memory_map mem
                  split_boot_args)

  unfoldable pub load_and_prep_xnu_kernelcache : List ℕ → Option ℕ → Outcome Boot
  load_and_prep_xnu_kernelcache mem none = done (bailed mem)
  load_and_prep_xnu_kernelcache mem (some boot_args) =
      loaded_uint 8 mem (boot_args + 8) >>= λ virt_base.
      loaded_uint 8 mem (boot_args + 16) >>= λ phys_base.
      loaded_uint 8 mem (boot_args + 96) >>= λ device_tree.
      let virt_off = (virt_base + 2 ^ 64 - phys_base) % 2 ^ 64 in
      prepare_boot mem boot_args ((device_tree + 2 ^ 64 - virt_off) % 2 ^ 64)

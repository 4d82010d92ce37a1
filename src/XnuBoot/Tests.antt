-- ===== src/XnuBoot/Tests.antt =====
-- Tests of lib/jevmachopp/XNUBoot.cpp and lib/jevmachopp/m1n1.cpp: a memory with boot arguments, a
-- device tree and a kernel of one segment.
use jevmachopp.Base.{
  ◌<◌, ◌^◌, length, ℕ, ◌+◌, ◌-◌, ◌*◌, ◌/◌, ◌%◌, List, [], ◌∷◌, ◌++◌, replicate, some, false, done,
  overrun, ◌>>=◌, ◌≡◌, refl, arith, Ensures, get_elem?, Outcome, length, ◌<◌,
}
use jevmachopp.Text.{codes, text_eq, range_contains_str, before_nul}
use jevmachopp.Text.SplitAt.{split_at}
use jevmachopp.Memory.{bytes_le, load, store}
use jevmachopp.Memory.Reads.{IsBytes}
use jevmachopp.DeviceTree.Image.{Prop, Tree, node, end, tree, tree_image}
use jevmachopp.LoadCommandType
use jevmachopp.XnuBoot.{flush_i_and_d_cache, xnu_jump_stub}
use jevmachopp.XnuBoot.Prepare.{
  load_and_prep_xnu_kernelcache, Boot, bailed, prepared, prepare_boot, stub_end, stage, finish_boot,
  update_map, copy_behind, make_copies, prepare_kernel, memcpy, KernelImage,
}
use jevmachopp.XnuBoot.Copied.{IsCopied, make_copies-IsCopied}
use jevmachopp.XnuBoot.Flush.{flush_i_and_d_cache-line}
use jevmachopp.XnuBoot.Stub.{xnu_jump_stub-overrun}
use jevmachopp.XnuBoot.Copies.{before_copy, xnu_jump_stub-copies}
use jevmachopp.XnuBoot.Regions.{
  starts_with, first_passing, properties_named_with_prefix, read_regions, set_reg, reserve,
  reserve_loop, place_segment, segments_loop,
}
use jevmachopp.DeviceTree.{
  prop_name, set_name, size_raw, size_padded, as_reg, next_prop, increment, iterator_find,
  iterator_sum, iterator_fold,
}
use jevmachopp.DeviceTree.Node.{
  properties_size, children_size, properties_cbegin, properties, properties_sizeof, property_named,
  next_node, children_cbegin, children, node_sizeof, name_or_nullptr, node_name, child_named,
  get_cpu_impl_reg_addrs,
}
use jevmachopp.DeviceTree.Patch.{process_nvram_patches}
use jevmachopp.MachO.{
  is_magic_good, lc_size, lc_sizeof, lc_cend, lc_increment, lc_find, lc_filter, unix_thread,
  segment_load_commands,
}
use jevmachopp.MachO.Commands.{
  segments, segment_vmaddr_range, segment_file_range, vmaddr_range, file_range, for_all,
}
use jevmachopp.AddrRange as Range

line_of_last_byte :
    get_elem? (flush_i_and_d_cache 100 200) ((100 + 199) / 64 - 100 / 64)
    ≡ some ((100 + 199) / 64 * 64)
line_of_last_byte = flush_i_and_d_cache-line 100 200 199 (omega arith) (omega arith)

-- An image that is a byte too long.
xnu_jump_stub-overrun_example : xnu_jump_stub (replicate 64 7) 0 32 0 17 0 ≡ overrun
xnu_jump_stub-overrun_example =
    xnu_jump_stub-overrun (replicate 64 7) 0 32 0 17 0 (λ e. absurd (omega arith))

xnu_jump_stub-copies_example :
    xnu_jump_stub
      (before_copy (1 ∷ []) (replicate 32 2) (3 ∷ []) (replicate 32 4) (5 ∷ []))
      70
      34
      1
      32
      80
    ≡ done (record {
      memory = before_copy (1 ∷ []) (replicate 32 4) (3 ∷ []) (replicate 32 4) (5 ∷ []);
      target = 80;
      x0 = 70;
    })
xnu_jump_stub-copies_example =
    xnu_jump_stub-copies 1 (1 ∷ []) (replicate 32 2) (3 ∷ []) (replicate 32 4) (5 ∷ []) 70 80 refl
      refl (omega arith)

abbrev boot_args : List ℕ
boot_args =
    replicate 96 0
    ++ (bytes_le 8 736 ++ (replicate 4 0 ++ (codes "-v -no-dt-patches" ++ replicate 611 0)))

abbrev prop : List ℕ → List ℕ → Prop
prop name bytes = record { name = name; replacement = false; data_bytes = bytes }

abbrev region : List ℕ → ℕ → ℕ → Prop
region name base size = prop name (bytes_le 8 base ++ bytes_le 8 size)

abbrev named : List ℕ → Prop
named s = prop (codes "name") (s ++ (0 ∷ []))

abbrev memory_map : Tree
memory_map =
    node
      (named (codes "memory-map")
        ∷ region (codes "Kernel-mach_header") 1600 0
        ∷ region (codes "Kernel-PYLD") 1060 400
        ∷ region (codes "SEPFW") 0 8
        ∷ region (codes "BootArgs") 0 8
        ∷ [])
      end

abbrev device_tree : Tree
device_tree = node [] (tree (node (named (codes "chosen") ∷ []) (tree memory_map end)) end)

abbrev kernel : List ℕ
kernel =
    bytes_le 4 0xfeedfacf
    ++ (replicate 12 0
        ++ (bytes_le 4 2
            ++ (bytes_le 4 360
                ++ (replicate 8 0
                    ++ (bytes_le 4 LoadCommandType.segment_64
                        ++ (bytes_le 4 72
                            ++ (codes "__TEXT"
                                ++ (replicate 10 0
                                    ++ (bytes_le 8 0x1000
                                        ++ (bytes_le 8 400
                                            ++ (bytes_le 8 0
                                                ++ (bytes_le 8 400
                                                    ++ (replicate 16 0
                                                        ++ (bytes_le 4 LoadCommandType.unixthread
                                                            ++ (bytes_le 4 288
                                                            ++ (replicate 264 0
                                                            ++ (bytes_le 8 0x1010
                                                            ++ replicate 16 0)))))))))))))))))

-- Room behind the kernel, the stub, and room for the kernel at its new base.
abbrev boot_memory : List ℕ
boot_memory =
    boot_args
    ++ (tree_image device_tree
        ++ (kernel
            ++ (replicate 64 0 ++ (replicate 8 9 ++ (bytes_le 4 0xdeadbeef ++ replicate 500 0)))))

abbrev decimal : ℕ → List ℕ
decimal n = (48 + n / 10) ∷ (48 + n % 10) ∷ []

abbrev boot : List ℕ → Outcome Boot
boot mem =
    load_and_prep_xnu_kernelcache split_at decimal (λ xs x. done (xs ++ (x ∷ []))) 1532 mem (some 0)

boot_memory-IsBytes : IsBytes boot_memory
unfolding bytes_le tree_image
boot_memory-IsBytes = omega arith

abbrev image : KernelImage
image = record { macho_base = 1600; payload_base = 1060; vm_size = 400; entry_pc = 1616 }

boot_memory-fits : length boot_memory < 2 ^ 64
unfolding bytes_le tree_image
boot_memory-fits = omega arith

make_copies-IsCopied_example :
    Ensures
      (IsCopied 1532 900 boot_memory image)
      (make_copies split_at decimal (λ xs x. done (xs ++ (x ∷ []))) 1532 736 900 boot_memory image)
make_copies-IsCopied_example =
    make_copies-IsCopied 1532 900 boot_memory image split_at decimal (λ xs x. done (xs ++ (x ∷ [])))
      736 boot_memory-fits

-- The stub is to move 416 bytes, and to enter the kernel in its new place.
boot_prepares :
    boot boot_memory >>= (λ r. elim r [
      | bailed mem ↦ done []
      | prepared mem st writes ↦ done (st.image_size ∷ st.image_entry ∷ [])
    ])
    ≡ done (416 ∷ 1616 ∷ [])
unfolding stub_end stage finish_boot update_map copy_behind make_copies prepare_kernel memcpy
    load_and_prep_xnu_kernelcache prepare_boot starts_with first_passing
    properties_named_with_prefix read_regions set_reg reserve reserve_loop place_segment
    segments_loop prop_name set_name size_raw size_padded as_reg next_prop increment iterator_find
    iterator_sum iterator_fold properties_size children_size properties_cbegin properties
    properties_sizeof property_named next_node children_cbegin children node_sizeof name_or_nullptr
    node_name child_named get_cpu_impl_reg_addrs process_nvram_patches is_magic_good lc_size
    lc_sizeof lc_cend lc_increment lc_find lc_filter unix_thread segment_load_commands segments
    segment_vmaddr_range segment_file_range vmaddr_range file_range for_all load store bytes_le
    text_eq range_contains_str before_nul Range.make Range.collapse_range Range.collapse_from
    Range.is_null split_at tree_image Range.size
boot_prepares = refl

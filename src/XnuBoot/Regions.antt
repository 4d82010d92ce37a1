-- ===== src/XnuBoot/Regions.antt =====
-- lib/jevmachopp/XNUBoot.cpp and include/jevmachopp/DeviceTree.h: the regions of the memory map of a
-- device tree, which are renamed while a loop goes along them. A filtered range looks at the memory
-- when it moves on.
use jevmachopp.Base.{
  ℕ, zero, suc, ◌+◌, ◌-◌, ◌%◌, ◌^◌, List, [], ◌∷◌, ◌++◌, take, Bool, true, false, ◌==◌, leb,
  if◌then◌else◌, Outcome, done, aborted, ◌>>=◌, ◌>>◌, check,
}
use jevmachopp.Memory.{store, bytes_le, c_string}
use jevmachopp.Text.{text_eq, codes}
use jevmachopp.AddrRange
use jevmachopp.MachO.Commands.{segment_vmaddr_range, segment_file_range}
use jevmachopp.DeviceTree.{
  DtIterator, DtRegister, end_iterator, iterators_differ, pointer_of, increment, next_prop,
  prop_name, set_name, size_raw, as_reg, data_at, iterator_fold,
}
use jevmachopp.DeviceTree.Node.{properties}

-- `starts_with` of a string view.
unfoldable pub starts_with : List ℕ → List ℕ → Bool
starts_with s [] = true
starts_with [] (c ∷ cs) = false
starts_with (b ∷ bs) (c ∷ cs) = elim (b == c) [ true ↦ starts_with bs cs | false ↦ false ]

-- A filtered range from an iterator on: to the first property that passes, with fuel for the steps.
unfoldable pub first_passing : List ℕ → (ℕ → Outcome Bool) → ℕ → DtIterator → Outcome DtIterator
first_passing mem pred zero it = aborted
first_passing mem pred (suc fuel) it = iterators_differ it end_iterator >>= λ more. elim more [
  | false ↦ done it
  | true ↦ pointer_of it.m_ptr >>= λ p. pred p >>= λ passes. elim passes [
    | true ↦ done it
    | false ↦ increment (next_prop mem) it >>= first_passing mem pred fuel
  ]
]

-- `++` of a filtered range.
abbrev pub next_passing : List ℕ → (ℕ → Outcome Bool) → DtIterator → Outcome DtIterator
next_passing mem pred it =
    increment (next_prop mem) it >>= λ it'. first_passing mem pred (suc it'.m_sz) it'

abbrev pub has_prefix : List ℕ → List ℕ → ℕ → Outcome Bool
has_prefix prefix mem p = prop_name mem p >>= λ s. done (starts_with s prefix)

-- `propertiesNamedWithPrefix`, the start of the range.
unfoldable pub properties_named_with_prefix : List ℕ → ℕ → List ℕ → Outcome DtIterator
properties_named_with_prefix mem node prefix =
    properties mem node >>= λ it. first_passing mem (has_prefix prefix mem) (suc it.m_sz) it

-- A loop over `properties_sized(sizeof(DTRegister))` that prints the name and the register.
unfoldable pub read_regions : List ℕ → ℕ → Outcome (Unit {0})
read_regions mem node = properties mem node >>= λ it.
    iterator_fold (next_prop mem)
      (λ p _. size_raw mem p >>= λ s. elim (s == 16) [
        | false ↦ done tt
        | true ↦ prop_name mem p >>= λ _. as_reg mem p >>= λ _. done tt
      ])
      (suc it.m_sz) it tt

-- `(DTRegister &)prop.as_reg() = reg`
unfoldable pub set_reg : List ℕ → ℕ → DtRegister → Outcome (List ℕ)
set_reg mem p reg =
    as_reg mem p >>= λ _. store mem (data_at p) (bytes_le 8 reg.base ++ bytes_le 8 reg.size)

abbrev pub kernel_prefix : List ℕ
kernel_prefix = codes "Kernel-"

abbrev pub reserved_prefix : List ℕ
reserved_prefix = codes "MemoryMapReserved-"

-- What `snprintf` leaves in `new_name_buf`, without its terminator.
abbrev pub new_name_of : List ℕ → List ℕ
new_name_of s = take 31 s

-- `decimal` is what `snprintf` writes for `%d`, of a number that is not negative.
module _ (decimal : ℕ → List ℕ) where
  -- `99 - rounds` by `%d`.
  abbrev pub reserved_number : ℕ → List ℕ
  reserved_number rounds =
      if leb rounds 99 then decimal (99 - rounds) else b'-' ∷ decimal (rounds - 99)

  -- A region of the kernel before the move gives up its name and its range.
  unfoldable pub reserve : List ℕ → ℕ → ℕ → Outcome (List ℕ)
  unfolding set_reg
  reserve mem p rounds = as_reg mem p >>= λ _.
      set_name mem p (new_name_of (reserved_prefix ++ reserved_number rounds)) >>= λ named.
      set_reg named p (record { base = 0; size = 0 })

  -- The loop over the regions with the prefix `Kernel-`, with fuel for the steps.
  unfoldable pub reserve_loop : ℕ → List ℕ → ℕ → DtIterator → Outcome (List ℕ)
  unfolding reserve
  reserve_loop zero mem rounds it = aborted
  reserve_loop (suc fuel) mem rounds it = iterators_differ it end_iterator >>= λ more. elim more [
    | false ↦ done mem
    | true ↦ pointer_of it.m_ptr >>= λ p. prop_name mem p >>= λ name.
        elim (text_eq name (codes "Kernel-mach_header")) [
          | true ↦
              next_passing mem (has_prefix kernel_prefix mem) it >>= reserve_loop fuel mem rounds
          | false ↦ reserve mem p rounds >>= λ mem'.
              next_passing mem' (has_prefix kernel_prefix mem') it
              >>= reserve_loop fuel mem' (suc rounds)
        ]
  ]

-- A segment of the kernel takes over a reserved region; `%s` reads its name up to a terminator.
unfoldable pub place_segment : List ℕ → ℕ → ℕ → ℕ → Outcome (List ℕ)
unfolding set_reg
place_segment mem macho_base p seg = c_string mem seg >>= λ name.
    set_name mem p (new_name_of (kernel_prefix ++ name)) >>= λ named.
    segment_vmaddr_range named seg >>= λ vm. segment_file_range named seg >>= λ file. do
      check (AddrRange.size vm == AddrRange.size file)
      set_reg named p
          (record { base = (macho_base + file.min_addr) % 2 ^ 64; size = AddrRange.size file })

-- The loop over the segments, from the region of an iterator on.
unfoldable pub segments_loop : List ℕ → ℕ → DtIterator → List ℕ → Outcome (List ℕ)
unfolding place_segment
segments_loop mem macho_base it [] = done mem
segments_loop mem macho_base it (seg ∷ segs) = pointer_of it.m_ptr >>= λ p.
    place_segment mem macho_base p seg >>= λ mem'.
    next_passing mem' (has_prefix reserved_prefix mem') it >>= λ it'.
    segments_loop mem' macho_base it' segs

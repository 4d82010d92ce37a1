-- ===== src/MachO/Symbols.antt =====
-- lib/jevmachopp/SymtabCommand.cpp, lib/jevmachopp/NList.cpp, and the symbols of
-- lib/jevmachopp/MachO.cpp.
use jevmachopp.Base.{
  ℕ, ◌+◌, ◌-◌, ◌*◌, ◌/◌, ◌^◌, List, Option, none, some, ◌&&◌, ◌==◌, if◌then◌else◌, not, bit_and,
  Outcome, done, ◌>>=◌, ◌>>◌, check,
}
use jevmachopp.Memory.{loaded_uint}
use jevmachopp.MachO.{symtab, dysymtab}
use jevmachopp.MachO.Commands.{Span, span_between}

abbrev pub empty_span : Span
empty_span = record { start = 0; count = 0 }

-- The span from `&nlists[i]` to `&nlists[i + n]`.
abbrev pub part_of : Span → ℕ → ℕ → Span
part_of nlists i n = record { start = nlists.start + i * 16; count = n }

module _ (mem : List ℕ) where
  -- `SymtabCommand::nlists_cbegin` and the rest, of the symbol table at `p`.
  unfoldable pub nlists_cbegin : ℕ → ℕ → Outcome ℕ
  nlists_cbegin macho p = loaded_uint 4 mem p >>= λ symoff. done (macho + symoff)

  unfoldable pub nlists_size : ℕ → Outcome ℕ
  nlists_size p = loaded_uint 4 mem (p + 4)

  unfoldable pub nlists_sizeof : ℕ → Outcome ℕ
  nlists_sizeof p = nlists_size p >>= λ n. done (n * 16)

  unfoldable pub nlists_cend : ℕ → ℕ → Outcome ℕ
  nlists_cend macho p = nlists_cbegin macho p >>= λ first. nlists_sizeof p >>= λ n. done (first + n)

  unfoldable pub nlists : ℕ → ℕ → Outcome Span
  nlists macho p =
      nlists_cbegin macho p >>= λ first. nlists_cend macho p >>= λ last. span_between 16 first last

  unfoldable pub strtab_data : ℕ → ℕ → Outcome ℕ
  strtab_data macho p = loaded_uint 4 mem (p + 8) >>= λ stroff. done (macho + stroff)

  unfoldable pub strtab_sizeof : ℕ → Outcome ℕ
  strtab_sizeof p = loaded_uint 4 mem (p + 12)

  -- `MachO::symtab_nlists` and `MachO::strtab_data`
  unfoldable pub symtab_nlists : ℕ → Outcome Span
  symtab_nlists macho =
      symtab mem macho >>= λ o. elim o [ none ↦ done empty_span | some p ↦ nlists macho p ]

  unfoldable pub macho_strtab_data : ℕ → Outcome (Option ℕ)
  macho_strtab_data macho = symtab mem macho >>= λ o. elim o [
    | none ↦ done none
    | some p ↦ strtab_data macho p >>= λ q. done (some q)
  ]

  -- The symbols from a first index on, by the offsets in the dynamic symbol table of the fields for
  -- the first index and for the number of them.
  abbrev syms_by : ℕ → ℕ → ℕ → Option ℕ → Option ℕ → Outcome Span
  syms_by macho first number none d = done empty_span
  syms_by macho first number (some p) none = done empty_span
  syms_by macho first number (some p) (some d) = nlists macho p >>= λ span.
      loaded_uint 4 mem (d + first) >>= λ i.
      loaded_uint 4 mem (d + number) >>= λ n. done (part_of span i n)

  abbrev syms : ℕ → ℕ → ℕ → Outcome Span
  syms macho first number =
      symtab mem macho >>= λ p. dysymtab mem macho >>= λ d. syms_by macho first number p d

  abbrev dysymtab_field : ℕ → ℕ → Outcome ℕ
  dysymtab_field macho offset =
      dysymtab mem macho >>= λ o. elim o [ none ↦ done 0 | some d ↦ loaded_uint 4 mem (d + offset) ]

  unfoldable pub local_syms : ℕ → Outcome Span
  local_syms macho = syms macho 0 4

  unfoldable pub local_syms_size : ℕ → Outcome ℕ
  local_syms_size macho = dysymtab_field macho 4

  unfoldable pub ext_def_syms : ℕ → Outcome Span
  ext_def_syms macho = syms macho 8 12

  unfoldable pub ext_def_syms_size : ℕ → Outcome ℕ
  ext_def_syms_size macho = dysymtab_field macho 12

  unfoldable pub undef_syms : ℕ → Outcome Span
  undef_syms macho = syms macho 16 20

  unfoldable pub undef_syms_size : ℕ → Outcome ℕ
  undef_syms_size macho = dysymtab_field macho 20

  unfoldable pub indirect_syms_size : ℕ → Outcome ℕ
  indirect_syms_size macho = dysymtab_field macho 52

  abbrev indirect_span : ℕ → Option ℕ → Outcome Span
  indirect_span macho none = done empty_span
  indirect_span macho (some d) = loaded_uint 4 mem (d + 48) >>= λ indirectsymoff.
      loaded_uint 4 mem (d + 52) >>= λ n.
      done (record { start = macho + indirectsymoff; count = n })

  unfoldable pub indirect_syms_idxes_raw : ℕ → Option ℕ → Outcome Span
  indirect_syms_idxes_raw macho none = dysymtab mem macho >>= indirect_span macho
  indirect_syms_idxes_raw macho (some d) = indirect_span macho (some d)

  -- `NList::name`, with a string table.
  unfoldable pub nlist_name : ℕ → ℕ → Outcome ℕ
  nlist_name strtab nlist = loaded_uint 4 mem nlist >>= λ strx. done (strtab + strx)

  unfoldable pub dylib_ordinal : ℕ → Outcome ℕ
  dylib_ordinal nlist = loaded_uint 1 mem (nlist + 4) >>= λ type.
      loaded_uint 1 mem (nlist + 5) >>= λ sect. loaded_uint 2 mem (nlist + 6) >>= λ desc. do
        check (bit_and type 0x0e == 0 && sect == 0)
        done (bit_and (desc / 2 ^ 8) 0xff)

-- An index of an indirect symbol.
unfoldable pub indirect_idx : ℕ → ℕ
indirect_idx idx_raw =
    if not (bit_and idx_raw 0x80000000 == 0)
    then bit_and idx_raw (2 ^ 32 - 1 - 0xc0000000)
    else idx_raw

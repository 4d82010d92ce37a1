-- ===== src/CallFinder.antt =====
-- lib/jevmachopp/CallFinder.cpp: the search for calls of a symbol and for what is written to the
-- register of the argument before them. What is printed is the result here.
pub mod Moves
pub mod Scan
mod Tests
use jevmachopp.Base.{
  ℕ, zero, suc, ◌+◌, ◌-◌, ◌*◌, ◌/◌, ◌%◌, ◌^◌, List, [], ◌∷◌, length, take, drop, Option, none, some,
  Bool, true, false, not, ◌&&◌, ◌==◌, ltb, leb, if◌then◌else◌, Outcome, done, aborted, overrun,
  ◌>>=◌, ◌>>◌, check,
}
use mathlib.Core.List
use jevmachopp.Memory.{load, loaded_uint, c_string}
use jevmachopp.Text.{text_eq, codes}
use jevmachopp.Hex.{little_endian}
use jevmachopp.AddrRange
use jevmachopp.Csr.{CsrConfig, to_strings}
use jevmachopp.Arm64.{MovImmInfo, is_bl_to, is_mov_wide_imm_to, decode_mov_wide_imm}
use jevmachopp.Leb.{Decoder, values_from}
use jevmachopp.MachO.{symtab, dysymtab, function_starts_command}
use jevmachopp.MachO.Commands.{
  Span, section_named, segment_vmaddr_range, segment_data, vmaddr_fileoff_delta,
}
use jevmachopp.MachO.Symbols.{
  empty_span, nlists, strtab_data, indirect_syms_idxes_raw, indirect_idx, nlist_name,
}
use jevmachopp.MachO.Indirect.{indirect_search}
use jevmachopp.MachO.FunctionStarts.{
  psum, func_start_for_offsets, raw_offsets_cbegin, linkedit_data,
}
use jevmachopp.MachO.Starts.{non_null, func_start_for_file_offset}
use jevmachopp.MachO.Names.{text_seg, segment_names_map, nlist_segment_name, dylib_names_map}

abbrev pub bytes_per_stub : ℕ
bytes_per_stub = 16

-- A write to the register, as it is printed: the address, the value, and the flags it stands for.
pub record FoundWrite : Type 0 where
  pub dis_pc : ℕ
  pub val : ℕ
  pub is64 : Bool
  pub flags : List CsrConfig

pub record FoundCall : Type 0 where
  pub pc : ℕ
  pub foff : ℕ
  pub write : Option FoundWrite

-- `span_cast<const uint32_t>` of bytes, as the words.
unfoldable pub words_of : List ℕ → List ℕ
words_of (a ∷ b ∷ c ∷ d ∷ rest) = little_endian (a ∷ b ∷ c ∷ d ∷ []) ∷ words_of rest
words_of short = []

unfoldable pub span_cast : List ℕ → Outcome (List ℕ)
unfolding words_of
span_cast bytes = do check (length bytes % 4 == 0); done (words_of bytes)

-- `subspan`, which is undefined outside of the span.
unfoldable pub subspan : List ℕ → ℕ → ℕ → Outcome (List ℕ)
subspan words offset count =
    if leb (offset + count) (length words) then done (take count (drop offset words)) else overrun

-- What `decodeMovWideImm` gives for an instruction that is a wide move.
abbrev pub write_of : ℕ → Option MovImmInfo → Outcome (Option FoundWrite)
write_of dis_pc none = overrun
write_of dis_pc (some info) = done (
    some (record {
      dis_pc = dis_pc;
      val = info.val;
      is64 = info.is64;
      flags = to_strings (info.val % 2 ^ 32);
    }))

-- The loop over the instructions before a call, which come last first; `dis_pc` does not change.
unfoldable pub write_loop : ℕ → List ℕ → Outcome (Option FoundWrite)
write_loop dis_pc [] = done none
write_loop dis_pc (instr_raw ∷ before) = elim (is_mov_wide_imm_to instr_raw 0) [
  | true ↦ decode_mov_wide_imm instr_raw >>= write_of dis_pc
  | false ↦ write_loop dis_pc before
]

-- What a call leads to: the write before it in its function, whose start `func_start` gives.
unfoldable pub found_call : List ℕ → (ℕ → Outcome ℕ) → ℕ → ℕ → Outcome FoundCall
unfolding write_loop
found_call text_instr func_start vm_file_delta pc =
    let foff = (pc + 2 ^ 64 - vm_file_delta) % 2 ^ 64 in
    func_start foff >>= λ func_fileoff.
    subspan text_instr (func_fileoff / 4) ((foff + 2 ^ 64 - func_fileoff) % 2 ^ 64 / 4)
    >>= λ disass. write_loop ((pc + 2 ^ 64 - 4) % 2 ^ 64) (List.reverse disass) >>= λ w.
        done (record { pc = pc; foff = foff; write = w })

-- The loop over the instructions of the text.
unfoldable pub call_loop : (ℕ → Outcome FoundCall) → ℕ → ℕ → List ℕ → Outcome (List FoundCall)
call_loop call symbol_stub_addr pc [] = done []
call_loop call symbol_stub_addr pc (instr_raw ∷ rest) =
    let later = call_loop call symbol_stub_addr ((pc + 4) % 2 ^ 64) rest in
    elim (is_bl_to instr_raw pc symbol_stub_addr) [
      | true ↦ call pc >>= λ c. later >>= λ cs. done (c ∷ cs)
      | false ↦ later
    ]

module _ (mem : List ℕ) where
  -- `setIfNull` with `__auth_stubs` and with `__stubs`.
  unfoldable pub stub_section : ℕ → Outcome (Option ℕ)
  stub_section text = section_named mem text (codes "__auth_stubs") >>= λ o. elim o [
    | some s ↦ done (some s)
    | none ↦ section_named mem text (codes "__stubs")
  ]

  -- Whether a symbol has the name and is of the text.
  unfoldable pub is_symbol : ℕ → ℕ → List (List ℕ) → List ℕ → ℕ → Outcome Bool
  is_symbol macho symbols seg_name_map symbol_name nlist =
      strtab_data mem macho symbols >>= λ strtab.
      nlist_name mem strtab nlist >>= c_string mem >>= λ name. elim (text_eq name symbol_name) [
        | false ↦ done false
        | true ↦
            nlist_segment_name mem nlist seg_name_map >>= λ seg. done (text_eq seg (codes "__TEXT"))
      ]

  module _ (decode_uleb128 : Decoder) where
    -- The calls of the stub at an address, in the text segment.
    unfoldable pub calls_of_stub : ℕ → ℕ → ℕ → Outcome (List FoundCall)
    unfolding call_loop found_call span_cast
    calls_of_stub macho text symbol_stub_addr = segment_data mem macho text >>= λ text_raw.
        load mem text_raw.start text_raw.count >>= span_cast >>= λ text_instr.
        vmaddr_fileoff_delta mem text >>= λ vm_file_delta.
        function_starts_command mem macho >>= non_null >>= λ starts.
        segment_vmaddr_range mem text >>= λ vm.
        call_loop
          (found_call text_instr
            (λ foff. func_start_for_file_offset mem decode_uleb128 macho starts foff (some text))
            vm_file_delta)
          symbol_stub_addr vm.min_addr text_instr

    unfoldable pub find_calls_to : ℕ → List ℕ → Outcome (Bool × List FoundCall)
    unfolding calls_of_stub stub_section
    find_calls_to macho symbol_name = symtab mem macho >>= non_null >>= λ symbols.
        dylib_names_map mem macho >>= λ _. segment_names_map mem macho >>= λ seg_name_map.
        indirect_search mem macho (is_symbol macho symbols seg_name_map symbol_name) >>= λ o.
        elim o [
          | none ↦ done (false, [])
          | some (symbol_indir_idx, _) ↦ text_seg mem macho >>= non_null >>= λ text.
              segment_vmaddr_range mem text >>= λ vm.
              check (ltb (AddrRange.size vm) (128 * 1024 * 1024))
              >> (stub_section text >>= non_null)
              >>= λ stub_sect. loaded_uint 8 mem (stub_sect + 32) >>= λ stubs_base.
                  calls_of_stub macho text
                    ((stubs_base + symbol_indir_idx * bytes_per_stub) % 2 ^ 64)
                  >>= λ calls. done (true, calls)
        ]

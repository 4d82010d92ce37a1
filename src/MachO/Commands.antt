-- ===== src/MachO/Commands.antt =====
-- lib/jevmachopp/SegmentCommand.cpp and lib/jevmachopp/Section.cpp, and the segments of
-- lib/jevmachopp/MachO.cpp.
use jevmachopp.Base.{
  ℕ, zero, suc, ◌+◌, ◌-◌, ◌*◌, ◌%◌, ◌/◌, ◌^◌, List, [], ◌∷◌, Option, none, some, Bool, true, false,
  ◌==◌, if◌then◌else◌, map, Outcome, done, overrun, ◌>>=◌,
}
use mathlib.Core.Option
use jevmachopp.Memory.{load, loaded_uint}
use jevmachopp.Text.{text_eq, read_maybe_null_term_cstring}
use jevmachopp.AddrRange.{AddrRange, make, collapse_range}
use jevmachopp.LoadCommandType
use jevmachopp.MachO.{lc_cmd, lc_search, segment_load_commands, subcmd}

-- A span: its first element, and the number of elements.
pub record Span : Type 0 where
  pub start : ℕ
  pub count : ℕ

-- The span between two pointers to elements of a size; the difference of pointers that are not a
-- number of elements apart is undefined.
abbrev pub span_between : ℕ → ℕ → ℕ → Outcome Span
span_between size first last =
    if (last - first) % size == 0
    then done (record { start = first; count = (last - first) / size })
    else overrun

module _ (mem : List ℕ) where
  abbrev name_field : ℕ → Outcome (List ℕ)
  name_field p = load mem p 16 >>= λ bytes. done (read_maybe_null_term_cstring (some bytes) 16)

  -- `SegmentCommand::name`
  unfoldable pub segment_name : ℕ → Outcome (List ℕ)
  segment_name p = name_field p

  -- `SegmentCommand::data`
  unfoldable pub segment_data : ℕ → ℕ → Outcome Span
  segment_data macho p = loaded_uint 8 mem (p + 32) >>= λ fileoff.
      loaded_uint 8 mem (p + 40) >>= λ filesize.
      done (record { start = macho + fileoff; count = filesize })

  unfoldable pub sect_size : ℕ → Outcome ℕ
  sect_size p = loaded_uint 4 mem (p + 56)

  unfoldable pub sect_sizeof : ℕ → Outcome ℕ
  sect_sizeof p = sect_size p >>= λ n. done (n * 80)

  abbrev pub sect_cbegin : ℕ → ℕ
  sect_cbegin p = p + 64

  unfoldable pub sect_cend : ℕ → Outcome ℕ
  sect_cend p = sect_sizeof p >>= λ n. done (p + 64 + n)

  unfoldable pub sections : ℕ → Outcome Span
  sections p = sect_cend p >>= λ last. span_between 80 (sect_cbegin p) last

  -- `Section::sectName` and `Section::segName`
  unfoldable pub sect_name : ℕ → Outcome (List ℕ)
  sect_name p = name_field p

  unfoldable pub seg_name : ℕ → Outcome (List ℕ)
  seg_name p = name_field (p + 16)

  -- The loop of `sectionNamed` over the sections from `p` on, `left` of them.
  unfoldable pub section_loop : List ℕ → ℕ → ℕ → Outcome (Option ℕ)
  section_loop name p zero = done none
  section_loop name p (suc left) = sect_name p >>= λ s. elim (text_eq s name) [
    | true ↦ done (some p)
    | false ↦ section_loop name (p + 80) left
  ]

  unfoldable pub section_named : ℕ → List ℕ → Outcome (Option ℕ)
  section_named p name = sections p >>= λ span. section_loop name span.start span.count

  -- `SegmentCommand::vmaddr_range` and `SegmentCommand::file_range`
  unfoldable pub segment_vmaddr_range : ℕ → Outcome AddrRange
  segment_vmaddr_range p = loaded_uint 8 mem (p + 16) >>= λ vmaddr.
      loaded_uint 8 mem (p + 24) >>= λ vmsize. make vmaddr ((vmaddr + vmsize) % 2 ^ 64)

  unfoldable pub segment_file_range : ℕ → Outcome AddrRange
  segment_file_range p = loaded_uint 8 mem (p + 32) >>= λ fileoff.
      loaded_uint 8 mem (p + 40) >>= λ filesize. make fileoff ((fileoff + filesize) % 2 ^ 64)

  unfoldable pub vmaddr_fileoff_delta : ℕ → Outcome ℕ
  vmaddr_fileoff_delta p = loaded_uint 8 mem (p + 16) >>= λ vmaddr.
      loaded_uint 8 mem (p + 32) >>= λ fileoff. done ((vmaddr + 2 ^ 64 - fileoff) % 2 ^ 64)

  unfoldable pub segments : ℕ → Outcome (List ℕ)
  segments macho = segment_load_commands mem macho >>= λ ps. done (map subcmd ps)

  -- Whether a load command is the segment of a name.
  abbrev pub is_segment_named : List ℕ → ℕ → Outcome Bool
  is_segment_named name p = lc_cmd mem p >>= λ cmd. elim (cmd == LoadCommandType.segment_64) [
    | false ↦ done false
    | true ↦ segment_name (subcmd p) >>= λ s. done (text_eq s name)
  ]

  unfoldable pub segment_with_name : ℕ → List ℕ → Outcome (Option ℕ)
  segment_with_name macho name =
      lc_search mem (is_segment_named name) macho >>= λ o. done (Option.map subcmd o)

  -- What a call gives for all of a list.
  unfoldable pub for_all : (ℕ → Outcome AddrRange) → List ℕ → Outcome (List AddrRange)
  for_all f [] = done []
  for_all f (p ∷ ps) = f p >>= λ r. for_all f ps >>= λ rs. done (r ∷ rs)

  -- `MachO::vmaddr_range` and `MachO::file_range`
  unfoldable pub vmaddr_range : ℕ → Outcome AddrRange
  vmaddr_range macho =
      segments macho >>= λ ps. for_all segment_vmaddr_range ps >>= λ rs. done (collapse_range rs)

  unfoldable pub file_range : ℕ → Outcome AddrRange
  file_range macho =
      segments macho >>= λ ps. for_all segment_file_range ps >>= λ rs. done (collapse_range rs)

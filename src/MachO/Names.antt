-- ===== src/MachO/Names.antt =====
-- The maps of names of lib/jevmachopp/MachO.cpp, lib/jevmachopp/DylibCommand.cpp,
-- lib/jevmachopp/FilesetEntryCommand.cpp, and the look-ups of lib/jevmachopp/NList.cpp in the maps.
use jevmachopp.Base.{
  ℕ, zero, suc, ◌+◌, ◌-◌, ◌%◌, ◌^◌, List, [], ◌∷◌, ◌++◌, Option, none, some, Bool, ltb, ◌==◌,
  if◌then◌else◌, map, length, take, drop, replicate, Outcome, done, overrun, ◌>>=◌,
}
use jevmachopp.Memory.{loaded_uint}
use jevmachopp.LoadCommandType
use jevmachopp.MachO.{
  lc_cmd, subcmd, imported_dylib_load_commands, dylib_load_commands, fileset_entry_load_commands,
}
use jevmachopp.MachO.Commands.{
  segments, segment_with_name, segment_name, sect_size, sections, sect_name,
}
use jevmachopp.MachO.Symbols.{dylib_ordinal}

-- `sizeof` the maps of names, in names.
abbrev pub names_size : ℕ
names_size = 0xff

module _ {ℓ} {A : Type ℓ} where
  -- `res[i] = x` and `map[i]` on an array; behind its end they are outside of it.
  unfoldable pub set_at : List A → ℕ → A → Outcome (List A)
  set_at xs i x = if ltb i (length xs) then done (take i xs ++ (x ∷ drop (suc i) xs)) else overrun

  unfoldable pub get_at : List A → ℕ → Outcome A
  get_at [] i = overrun
  get_at (x ∷ xs) zero = done x
  get_at (x ∷ xs) (suc i) = get_at xs i

-- A map that is being filled, and the index that follows, of 8 bits.
abbrev Filling : Type 0
Filling = List (List ℕ) × ℕ

-- `res[idx++] = name`
unfoldable pub put_name : List ℕ → Filling → Outcome Filling
put_name name (res, idx) = set_at res idx name >>= λ res'. done (res', (idx + 1) % 2 ^ 8)

module _ (mem : List ℕ) where
  unfoldable pub text_seg : ℕ → Outcome (Option ℕ)
  text_seg macho = segment_with_name mem macho (b'_' ∷ b'_' ∷ b'T' ∷ b'E' ∷ b'X' ∷ b'T' ∷ [])

  unfoldable pub data_const_seg : ℕ → Outcome (Option ℕ)
  data_const_seg macho =
      segment_with_name mem macho
        (b'_' ∷ b'_' ∷ b'D' ∷ b'A' ∷ b'T' ∷ b'A' ∷ b'_' ∷ b'C' ∷ b'O' ∷ b'N' ∷ b'S' ∷ b'T' ∷ [])

  unfoldable pub data_seg : ℕ → Outcome (Option ℕ)
  data_seg macho = segment_with_name mem macho (b'_' ∷ b'_' ∷ b'D' ∷ b'A' ∷ b'T' ∷ b'A' ∷ [])

  unfoldable pub linkedit_seg : ℕ → Outcome (Option ℕ)
  linkedit_seg macho =
      segment_with_name mem macho
        (b'_' ∷ b'_' ∷ b'L' ∷ b'I' ∷ b'N' ∷ b'K' ∷ b'E' ∷ b'D' ∷ b'I' ∷ b'T' ∷ [])

  -- The inner loop of `segmentNamesMap`, with `left` sections to go.
  unfoldable pub segment_names_of : ℕ → ℕ → Filling → Outcome Filling
  segment_names_of seg zero f = done f
  segment_names_of seg (suc left) f =
      segment_name mem seg >>= λ s. put_name s f >>= segment_names_of seg left

  unfoldable pub segment_names_loop : List ℕ → Filling → Outcome Filling
  segment_names_loop [] f = done f
  segment_names_loop (seg ∷ segs) f =
      sect_size mem seg >>= λ e. segment_names_of seg e f >>= segment_names_loop segs

  unfoldable pub segment_names_map : ℕ → Outcome (List (List ℕ))
  segment_names_map macho = segments mem macho >>= λ segs.
      segment_names_loop segs (replicate names_size [], 0) >>= λ (res, _). done res

  -- The inner loop of `sectionNamesMap`, over the sections from `sec` on.
  unfoldable pub section_names_of : ℕ → ℕ → Filling → Outcome Filling
  section_names_of sec zero f = done f
  section_names_of sec (suc left) f =
      sect_name mem sec >>= λ s. put_name s f >>= section_names_of (sec + 80) left

  unfoldable pub section_names_loop : List ℕ → Filling → Outcome Filling
  section_names_loop [] f = done f
  section_names_loop (seg ∷ segs) f = sections mem seg >>= λ span.
      section_names_of span.start span.count f >>= section_names_loop segs

  unfoldable pub section_names_map : ℕ → Outcome (List (List ℕ))
  section_names_map macho = segments mem macho >>= λ segs.
      section_names_loop segs (replicate names_size [], 0) >>= λ (res, _). done res

  -- `DylibCommand::name` and the tests of its load command; a subcommand follows a header of 8 bytes.
  unfoldable pub dylib_command_name : ℕ → Outcome ℕ
  dylib_command_name p = loaded_uint 4 mem p >>= λ name_offset. done (p - 8 + name_offset)

  unfoldable pub is_id : ℕ → Outcome Bool
  is_id p = lc_cmd mem (p - 8) >>= λ cmd. done (cmd == LoadCommandType.id_dylib)

  unfoldable pub is_load : ℕ → Outcome Bool
  is_load p = lc_cmd mem (p - 8) >>= λ cmd. done (cmd == LoadCommandType.load_dylib)

  unfoldable pub is_load_weak : ℕ → Outcome Bool
  is_load_weak p = lc_cmd mem (p - 8) >>= λ cmd. done (cmd == LoadCommandType.load_weak_dylib)

  unfoldable pub is_rexport : ℕ → Outcome Bool
  is_rexport p = lc_cmd mem (p - 8) >>= λ cmd. done (cmd == LoadCommandType.reexport_dylib)

  unfoldable pub fileset_entry_name : ℕ → Outcome ℕ
  fileset_entry_name p = loaded_uint 4 mem (p + 16) >>= λ name_offset. done (p - 8 + name_offset)

  unfoldable pub dylib_commands : ℕ → Outcome (List ℕ)
  dylib_commands macho = dylib_load_commands mem macho >>= λ ps. done (map subcmd ps)

  unfoldable pub imported_dylib_commands : ℕ → Outcome (List ℕ)
  imported_dylib_commands macho =
      imported_dylib_load_commands mem macho >>= λ ps. done (map subcmd ps)

  unfoldable pub fileset_entry_commands : ℕ → Outcome (List ℕ)
  fileset_entry_commands macho =
      fileset_entry_load_commands mem macho >>= λ ps. done (map subcmd ps)

  -- The copy of `dylibNamesMap`, which writes from index `i` on; null pointers stand in the rest.
  unfoldable pub copy_names : List ℕ → List (Option ℕ) → ℕ → Outcome (List (Option ℕ))
  copy_names [] res i = done res
  copy_names (p ∷ ps) res i = dylib_command_name p >>= λ name.
      set_at res i (some name) >>= λ res'. copy_names ps res' (suc i)

  unfoldable pub dylib_names_map : ℕ → Outcome (List (Option ℕ))
  dylib_names_map macho =
      imported_dylib_commands macho >>= λ ps. copy_names ps (replicate names_size none) 0

  -- `NList::dylibName`, `NList::segmentName` and `NList::sectionName`; an ordinal of 0 is outside.
  unfoldable pub dylib_name : ℕ → List (Option ℕ) → Outcome (Option ℕ)
  dylib_name nlist names =
      dylib_ordinal mem nlist >>= λ n. if n == 0 then overrun else get_at names (n - 1)

  unfoldable pub nlist_segment_name : ℕ → List (List ℕ) → Outcome (List ℕ)
  nlist_segment_name nlist names = loaded_uint 1 mem (nlist + 5) >>= get_at names

  unfoldable pub nlist_section_name : ℕ → List (List ℕ) → Outcome (List ℕ)
  nlist_section_name nlist names = loaded_uint 1 mem (nlist + 5) >>= get_at names

-- ===== src/MachO/Tests.antt =====
-- Tests of lib/jevmachopp/MachO.cpp: a file with a segment of one section, and a symbol table.
use jevmachopp.Base.{
  ◌+◌, ◌-◌, ◌%◌, List, [], ◌∷◌, ◌++◌, length, replicate, ◌≡◌, refl, sym, arith, append-nil, All,
  done, ◌<◌, ◌^◌, ◌>>=◌, none, some, map, ℕ,
}
use jevmachopp.LoadCommandType
use jevmachopp.Memory.{bytes_le, load, loaded_uint}
use jevmachopp.MachO.{symtab, dysymtab, function_starts_command, unix_thread}
use jevmachopp.MachO.Commands.{vmaddr_fileoff_delta, sections, sect_sizeof, sect_cend, sect_size}
use jevmachopp.MachO.FunctionStarts.{psum, linkedit_data, raw_offsets_cbegin}
use jevmachopp.MachO.Names.{put_name, set_at, get_at, names_size}
use jevmachopp.MachO.SubCommand.{variant_of, dylib_variant}
use jevmachopp.MachO.Walk.{
  Command, IsCommand, commands_image, macho_image, first_of, subcommands-first_of,
}
use jevmachopp.Leb.{Decoder, begin, values_from}
use jevmachopp.MachO.Starts.{raw_offsets, vm_addrs, file_offsets, vm_addrs-file_offsets}

abbrev segment_body : List ℕ
segment_body = replicate 56 0 ++ (bytes_le 4 1 ++ replicate 84 0)

abbrev commands : List Command
commands =
    record { cmd = LoadCommandType.segment_64; body = segment_body }
    ∷ record { cmd = LoadCommandType.symtab; body = replicate 16 0 }
    ∷ []

commands-IsCommand : All IsCommand commands
unfolding bytes_le
commands-IsCommand = ((omega arith, omega arith), ((omega arith, omega arith), tt))

commands_small : length (commands_image commands) < 2 ^ 32
unfolding bytes_le
commands_small = omega arith

abbrev file : List ℕ
file = macho_image (replicate 20 0) (replicate 8 0) commands

subcommands-first_of_example :
    (symtab file 0
      ≡ done (first_of file 0 (replicate 20 0) (replicate 8 0) commands LoadCommandType.symtab))
    × (dysymtab file 0
        ≡ done (first_of file 0 (replicate 20 0) (replicate 8 0) commands LoadCommandType.dysymtab))
    × (function_starts_command file 0
        ≡ done (
            first_of file 0
              (replicate 20 0)
              (replicate 8 0)
              commands
              LoadCommandType.function_starts))
    × (unix_thread file 0
        ≡ done
            (first_of file 0 (replicate 20 0) (replicate 8 0) commands LoadCommandType.unixthread))
subcommands-first_of_example =
    subcommands-first_of file 0 (replicate 20 0) (replicate 8 0) commands refl refl commands_small
      commands-IsCommand ([], sym (append-nil file))

-- A map of two names, the second of which is of section 1.
two_names :
    (put_name (1 ∷ []) (replicate names_size [], 0) >>= put_name (2 ∷ []) >>= λ f. get_at f.0 1)
    ≡ done (2 ∷ [])
unfolding put_name set_at get_at
two_names = refl

dylib_kind : variant_of 0x80000018 40 ≡ dylib_variant 40
unfolding variant_of
dylib_kind = refl

-- The sections of a segment with one section.
one_section : sections segment_body 0 ≡ done (record { start = 64; count = 1 })
unfolding sections sect_cend sect_sizeof sect_size load bytes_le
one_section = refl

-- A segment at address 0x5000 and offset 0x1000 of its file, with a range of one number.
abbrev text_of_file : List ℕ
text_of_file =
    replicate 16 0
    ++ (bytes_le 8 0x5000
        ++ (bytes_le 8 0 ++ (bytes_le 8 0x1000 ++ (bytes_le 4 48 ++ (bytes_le 4 1 ++ (8 ∷ []))))))

abbrev one_byte : Decoder
one_byte [] = (0, none)
one_byte (b ∷ bs) = (1, some b)

at_vmaddr : loaded_uint 8 text_of_file (0 + 16) ≡ done 0x5000
unfolding bytes_le load
at_vmaddr = refl

at_fileoff : loaded_uint 8 text_of_file (0 + 32) ≡ done 0x1000
unfolding bytes_le load
at_fileoff = refl

vm_addrs-file_offsets_example :
    vm_addrs text_of_file one_byte 0 40 (some 0)
    ≡ file_offsets text_of_file one_byte 0 40 (some 0) >>= λ offs.
        done (map (λ o. (o + (0x5000 + 2 ^ 64 - 0x1000 + (2 ^ 64 - 0x1000))) % 2 ^ 64) offs)
vm_addrs-file_offsets_example =
    vm_addrs-file_offsets text_of_file one_byte 0 40 0 0x5000 0x1000 at_vmaddr at_fileoff
      (omega arith) (omega arith)

-- The first function is 0x1000 too low.
first_address : vm_addrs text_of_file one_byte 0 40 (some 0) ≡ done (0x4000 ∷ [])
unfolding vm_addrs bytes_le load raw_offsets linkedit_data raw_offsets_cbegin begin values_from
    vmaddr_fileoff_delta psum
first_address = refl

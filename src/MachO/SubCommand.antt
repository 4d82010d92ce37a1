-- ===== src/MachO/SubCommand.antt =====
-- lib/jevmachopp/LoadSubCommand.cpp: what follows the header of a load command, by its type.
use jevmachopp.Base.{ℕ, ◌-◌, List, ◌||◌, ◌==◌, if◌then◌else◌, Outcome, done, ◌>>=◌}
use jevmachopp.LoadCommandType
use jevmachopp.MachO.{lc_cmd}

-- `SubCommandVariant`, with the pointer to the subcommand.
pub data SubCommandVariant : Type 0 where
  function_starts_variant : ℕ → SubCommandVariant
  unix_thread_variant : ℕ → SubCommandVariant
  source_version_variant : ℕ → SubCommandVariant
  build_version_variant : ℕ → SubCommandVariant
  fileset_entry_variant : ℕ → SubCommandVariant
  symtab_variant : ℕ → SubCommandVariant
  dysymtab_variant : ℕ → SubCommandVariant
  dylib_variant : ℕ → SubCommandVariant
  encryption_info_variant : ℕ → SubCommandVariant
  linkedit_data_variant : ℕ → SubCommandVariant
  segment_variant : ℕ → SubCommandVariant
  uuid_variant : ℕ → SubCommandVariant
  unknown_variant : ℕ → SubCommandVariant

-- `LoadSubCommand::loadCommand`
abbrev pub load_command : ℕ → ℕ
load_command p = p - 8

-- The `switch` of `LoadSubCommand::get`.
unfoldable pub variant_of : ℕ → ℕ → SubCommandVariant
variant_of cmd p =
    if cmd == LoadCommandType.function_starts
    then function_starts_variant p
    else if cmd == LoadCommandType.unixthread
    then unix_thread_variant p
    else if cmd == LoadCommandType.source_version
    then source_version_variant p
    else if cmd == LoadCommandType.build_version
    then build_version_variant p
    else if cmd == LoadCommandType.fileset_entry
    then fileset_entry_variant p
    else if cmd == LoadCommandType.symtab
    then symtab_variant p
    else if cmd == LoadCommandType.dysymtab
    then dysymtab_variant p
    else if cmd == LoadCommandType.id_dylib
        || cmd == LoadCommandType.load_dylib
        || cmd == LoadCommandType.load_weak_dylib
        || cmd == LoadCommandType.reexport_dylib
    then dylib_variant p
    else if cmd == LoadCommandType.encryption_info
    then encryption_info_variant p
    else if cmd == LoadCommandType.code_signature
        || cmd == LoadCommandType.segment_split_info
        || cmd == LoadCommandType.data_in_code
        || cmd == LoadCommandType.dylib_code_sign_drs
        || cmd == LoadCommandType.linker_optimization_hint
        || cmd == LoadCommandType.dyld_exports_trie
        || cmd == LoadCommandType.dyld_chained_fixups
    then linkedit_data_variant p
    else if cmd == LoadCommandType.segment_64
    then segment_variant p
    else if cmd == LoadCommandType.uuid
    then uuid_variant p
    else unknown_variant p

-- `LoadSubCommand::get`
unfoldable pub get : List ℕ → ℕ → Outcome SubCommandVariant
unfolding variant_of
get mem p = lc_cmd mem (load_command p) >>= λ cmd. done (variant_of cmd p)

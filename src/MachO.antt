-- ===== src/MachO.antt =====
-- include/jevmachopp/MachO.h, lib/jevmachopp/MachO.cpp and the load commands: a Mach-O file in
-- memory, as the offset of its header.
pub mod Commands
pub mod Symbols
pub mod FunctionStarts
pub mod Names
pub mod Starts
pub mod SubCommand
pub mod Indirect
pub mod Walk
mod Tests
use jevmachopp.Base.{
  ℕ, zero, suc, ◌+◌, ◌-◌, ◌*◌, ◌%◌, ◌/◌, ◌^◌, List, [], ◌∷◌, Option, none, some, Bool, true, false,
  ◌||◌, ◌==◌, if◌then◌else◌, Outcome, done, aborted, overrun, ◌>>=◌,
}
use mathlib.Core.Option
use jevmachopp.LoadCommandType
use jevmachopp.Memory.{loaded_uint}

-- `LoadCommand::subcmd`
abbrev pub subcmd : ℕ → ℕ
subcmd p = p + 8

abbrev pub lc_cbegin : ℕ → ℕ
lc_cbegin macho = macho + 32

module _ (mem : List ℕ) where
  unfoldable pub is_magic_good : ℕ → Outcome Bool
  is_magic_good macho = loaded_uint 4 mem macho >>= λ magic. done (magic == 0xfeedfacf)

  unfoldable pub lc_size : ℕ → Outcome ℕ
  lc_size macho = loaded_uint 4 mem (macho + 16)

  unfoldable pub lc_sizeof : ℕ → Outcome ℕ
  lc_sizeof macho = loaded_uint 4 mem (macho + 20)

  unfoldable pub lc_cend : ℕ → Outcome ℕ
  lc_cend macho = lc_sizeof macho >>= λ n. done (macho + 32 + n)

  -- `cmd` and `cmdsize` of a load command.
  abbrev pub lc_cmd : ℕ → Outcome ℕ
  lc_cmd p = loaded_uint 4 mem p

  abbrev pub lc_cmdsize : ℕ → Outcome ℕ
  lc_cmdsize p = loaded_uint 4 mem (p + 4)

  -- `++` of `LoadCommand::Iterator`.
  unfoldable pub lc_increment : ℕ → Outcome ℕ
  lc_increment p = lc_cmdsize p >>= λ n. done (p + n)

  -- The first command from `p` on that passes a test, with fuel for the steps.
  unfoldable pub lc_find : (ℕ → Outcome Bool) → ℕ → ℕ → ℕ → Outcome (Option ℕ)
  lc_find pred zero last p = aborted
  lc_find pred (suc fuel) last p = elim (p == last) [
    | true ↦ done none
    | false ↦ pred p >>= λ found. elim found [
      | true ↦ done (some p)
      | false ↦ lc_increment p >>= lc_find pred fuel last
    ]
  ]

  -- The commands from `p` on that pass a test, with fuel for the steps.
  unfoldable pub lc_filter : (ℕ → Bool) → ℕ → ℕ → ℕ → Outcome (List ℕ)
  lc_filter test zero last p = aborted
  lc_filter test (suc fuel) last p = elim (p == last) [
    | true ↦ done []
    | false ↦ lc_cmd p >>= λ cmd. lc_increment p >>= λ q.
        lc_filter test fuel last q >>= λ ps. done (if test cmd then p ∷ ps else ps)
  ]

  -- A search among the load commands; a command takes at least a byte, so there is fuel for all.
  abbrev pub lc_search : (ℕ → Outcome Bool) → ℕ → Outcome (Option ℕ)
  lc_search pred macho =
      lc_cend macho >>= λ last. lc_sizeof macho >>= λ n. lc_find pred (suc n) last (lc_cbegin macho)

  abbrev pub lc_select : (ℕ → Bool) → ℕ → Outcome (List ℕ)
  lc_select test macho = lc_cend macho >>= λ last.
      lc_sizeof macho >>= λ n. lc_filter test (suc n) last (lc_cbegin macho)

  -- The first command of a type, as its subcommand.
  abbrev pub subcmd_of_type : ℕ → ℕ → Outcome (Option ℕ)
  subcmd_of_type type macho = lc_search (λ p. lc_cmd p >>= λ cmd. done (cmd == type)) macho >>= λ o.
      done (Option.map subcmd o)

  unfoldable pub symtab : ℕ → Outcome (Option ℕ)
  symtab macho = subcmd_of_type LoadCommandType.symtab macho

  unfoldable pub dysymtab : ℕ → Outcome (Option ℕ)
  dysymtab macho = subcmd_of_type LoadCommandType.dysymtab macho

  unfoldable pub function_starts_command : ℕ → Outcome (Option ℕ)
  function_starts_command macho = subcmd_of_type LoadCommandType.function_starts macho

  unfoldable pub unix_thread : ℕ → Outcome (Option ℕ)
  unix_thread macho = subcmd_of_type LoadCommandType.unixthread macho

  unfoldable pub segment_load_commands : ℕ → Outcome (List ℕ)
  segment_load_commands macho = lc_select (λ cmd. cmd == LoadCommandType.segment_64) macho

  unfoldable pub dylib_load_commands : ℕ → Outcome (List ℕ)
  dylib_load_commands macho =
      lc_select
        (λ cmd.
          cmd == LoadCommandType.id_dylib
          || cmd == LoadCommandType.load_dylib
          || cmd == LoadCommandType.load_weak_dylib
          || cmd == LoadCommandType.reexport_dylib)
        macho

  unfoldable pub imported_dylib_load_commands : ℕ → Outcome (List ℕ)
  imported_dylib_load_commands macho =
      lc_select (λ cmd. cmd == LoadCommandType.load_dylib || cmd == LoadCommandType.load_weak_dylib)
        macho

  unfoldable pub fileset_entry_load_commands : ℕ → Outcome (List ℕ)
  fileset_entry_load_commands macho = lc_select (λ cmd. cmd == LoadCommandType.fileset_entry) macho

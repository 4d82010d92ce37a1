-- ===== src/MachO/Indirect.antt =====
-- include/jevmachopp/MachO.h: `indirect_syms` and `indirect_sym_names`, the range of symbols that the
-- indirect symbol table names, as its searches.
use jevmachopp.Base.{
  ℕ, zero, suc, ◌+◌, ◌*◌, List, Option, none, some, Bool, true, false, ltb, if◌then◌else◌, Outcome,
  done, overrun, ◌>>=◌,
}
use jevmachopp.Memory.{loaded_uint, c_string}
use jevmachopp.MachO.{symtab, dysymtab}
use jevmachopp.MachO.Commands.{Span}
use jevmachopp.MachO.Symbols.{
  empty_span, nlists, strtab_data, indirect_syms_idxes_raw, indirect_idx, nlist_name,
}

-- `nlists[idx]`, undefined behind the end.
unfoldable pub nlist_at : Span → ℕ → Outcome ℕ
nlist_at span idx = if ltb idx span.count then done (span.start + idx * 16) else overrun

module _ (mem : List ℕ) where
  -- The first symbol that passes a test, with its index, among `left` indices from `p` on.
  unfoldable pub indirect_loop : Span → (ℕ → Outcome Bool) → ℕ → ℕ → ℕ → Outcome (Option (ℕ × ℕ))
  unfolding nlist_at
  indirect_loop symbols pred p i zero = done none
  indirect_loop symbols pred p i (suc left) = loaded_uint 4 mem p >>= λ idx_raw.
      nlist_at symbols (indirect_idx idx_raw) >>= λ nlist. pred nlist >>= λ found. elim found [
        | true ↦ done (some (i, nlist))
        | false ↦ indirect_loop symbols pred (p + 4) (suc i) left
      ]

  abbrev symbols_of : ℕ → Option ℕ → Outcome Span
  symbols_of macho none = done empty_span
  symbols_of macho (some p) = nlists mem macho p

  abbrev indices_of : ℕ → Option ℕ → Outcome Span
  indices_of macho none = done empty_span
  indices_of macho (some d) = indirect_syms_idxes_raw mem macho (some d)

  -- A search in `indirect_syms`.
  unfoldable pub indirect_search : ℕ → (ℕ → Outcome Bool) → Outcome (Option (ℕ × ℕ))
  unfolding indirect_loop
  indirect_search macho pred = symtab mem macho >>= symbols_of macho >>= λ symbols.
      dysymtab mem macho >>= indices_of macho >>= λ indices.
      indirect_loop symbols pred indices.start 0 indices.count

  -- A symbol's name as `indirect_sym_names` gives it, without a symbol table a null reference.
  unfoldable pub indirect_sym_name : ℕ → Option ℕ → ℕ → Outcome (List ℕ)
  indirect_sym_name macho none nlist = overrun
  indirect_sym_name macho (some p) nlist =
      strtab_data mem macho p >>= λ strtab. nlist_name mem strtab nlist >>= c_string mem

-- ===== src/MachO/Starts.antt =====
-- include/jevmachopp/FunctionStartsCommand.h: the starts of functions, as offsets in the file and as
-- addresses, and the start of the function around one.
use jevmachopp.Base.{
  ℕ, suc, ◌+◌, ◌-◌, ◌%◌, ◌^◌, ◌<◌, List, [], ◌∷◌, length, map, Option, none, some, Outcome, done,
  aborted, overrun, ◌>>=◌, ◌≡◌, refl, ap, ap₂, sym, arith,
}
use jevmachopp.Memory.{loaded_uint}
use jevmachopp.Leb.{Decoder, values_from}
use jevmachopp.MachO.Commands.{vmaddr_fileoff_delta}
use jevmachopp.MachO.Names.{text_seg}
use jevmachopp.MachO.FunctionStarts.{
  psum, func_start_for_offsets, raw_offsets_cbegin, linkedit_data,
}

-- A pointer that is asserted not to be null.
abbrev pub non_null {ℓ} : {A : Type ℓ} → Option A → Outcome A
non_null none = aborted
non_null (some p) = done p

module _ (mem : List ℕ) where
  -- `setIfNullAsserting` with `textSeg()`
  abbrev pub text_or_default : ℕ → Option ℕ → Outcome ℕ
  text_or_default macho none = text_seg mem macho >>= non_null
  text_or_default macho (some p) = done p

  module _ (decode_uleb128 : Decoder) where
    -- All values of `raw_offsets`; a command without data has none.
    unfoldable pub raw_offsets : ℕ → ℕ → Outcome (List ℕ)
    raw_offsets macho starts = linkedit_data mem macho starts >>= λ (_, bytes).
        raw_offsets_cbegin decode_uleb128 mem macho starts
        >>= values_from decode_uleb128 (suc (length bytes))

    unfoldable pub file_offsets : ℕ → ℕ → Option ℕ → Outcome (List ℕ)
    file_offsets macho starts text_ptr = text_or_default macho text_ptr >>= λ text.
        raw_offsets macho starts >>= λ raws.
        loaded_uint 8 mem (text + 32) >>= λ fileoff. done (psum fileoff raws)

    unfoldable pub vm_addrs : ℕ → ℕ → Option ℕ → Outcome (List ℕ)
    vm_addrs macho starts text_ptr = text_or_default macho text_ptr >>= λ text.
        raw_offsets macho starts >>= λ raws.
        vmaddr_fileoff_delta mem text >>= λ delta. done (psum delta raws)

    -- The range `psum` of `raw_offsets` with a start, for a search with fuel for all its bytes.
    abbrev search_from : ℕ → ℕ → ℕ → ℕ → Outcome ℕ
    search_from macho starts off init = linkedit_data mem macho starts >>= λ (_, bytes).
        raw_offsets_cbegin decode_uleb128 mem macho starts >>= λ b.
        func_start_for_offsets decode_uleb128 (length bytes + 2) off
          (record { base = b; psum = init })

    unfoldable pub func_start_for_file_offset : ℕ → ℕ → ℕ → Option ℕ → Outcome ℕ
    func_start_for_file_offset macho starts fileoff text_ptr =
        text_or_default macho text_ptr >>= λ text.
        loaded_uint 8 mem (text + 32) >>= λ init. search_from macho starts fileoff init

    unfoldable pub func_start_for_vm_addr : ℕ → ℕ → ℕ → Option ℕ → Outcome ℕ
    func_start_for_vm_addr macho starts vm_addr text_ptr =
        text_or_default macho text_ptr >>= λ text.
        vmaddr_fileoff_delta mem text >>= λ init. search_from macho starts vm_addr init

-- Sums from a start that is moved are moved.
psum-map :
    (c a b : ℕ) (raws : List ℕ)
    → a < 2 ^ 64
    → (a + c) % 2 ^ 64 ≡ b
    → psum b raws ≡ map (λ o. (o + c) % 2 ^ 64) (psum a raws)
unfolding psum
psum-map c a b [] small e = refl
psum-map c a b (x ∷ xs) small e =
    ap₂ (λ o os. o ∷ os) (sym e)
      (psum-map c ((a + x) % 2 ^ 64) ((b + x) % 2 ^ 64) xs (omega arith) (omega arith))

module _ (mem : List ℕ) (decode_uleb128 : Decoder) (macho starts text vmaddr fileoff : ℕ) where
  -- For a segment that is given and whose `vmaddr` and `fileoff` are in memory, `vm_addrs` gives,
  -- modulo 2^64, for each file offset of `file_offsets` that offset plus `vmaddr` and less twice
  -- `fileoff`, or fails as `file_offsets` does: the addresses are right where `fileoff` is 0, and
  -- too low by `fileoff` elsewhere.
  pub vm_addrs-file_offsets :
      loaded_uint 8 mem (text + 16) ≡ done vmaddr
      → loaded_uint 8 mem (text + 32) ≡ done fileoff
      → vmaddr < 2 ^ 64
      → fileoff < 2 ^ 64
      → vm_addrs mem decode_uleb128 macho starts (some text)
        ≡ file_offsets mem decode_uleb128 macho starts (some text) >>= λ offs.
            done (map (λ o. (o + (vmaddr + 2 ^ 64 - fileoff + (2 ^ 64 - fileoff))) % 2 ^ 64) offs)
  unfolding vm_addrs file_offsets vmaddr_fileoff_delta
  vm_addrs-file_offsets at_vmaddr at_fileoff small_vmaddr small_fileoff =
      rw (at_vmaddr, at_fileoff) (by_raws (raw_offsets mem decode_uleb128 macho starts))
    where
      by_raws :
          (m : Outcome (List ℕ))
          → m >>= (λ raws. done (psum ((vmaddr + 2 ^ 64 - fileoff) % 2 ^ 64) raws))
            ≡ m >>= (λ raws. done (psum fileoff raws)) >>= λ offs.
                done
                  (map (λ o. (o + (vmaddr + 2 ^ 64 - fileoff + (2 ^ 64 - fileoff))) % 2 ^ 64) offs)
      by_raws (done raws) =
          ap (λ l. done l)
            (psum-map (vmaddr + 2 ^ 64 - fileoff + (2 ^ 64 - fileoff)) fileoff _ raws small_fileoff
              (omega arith))
      by_raws aborted = refl
      by_raws overrun = refl

-- ===== src/MachO/FunctionStarts.antt =====
-- include/jevmachopp/FunctionStartsCommand.h and `psum_view` of include/jevmachopp/Ranges.h: the start
-- of the function that an offset is in.
pub mod Sums
pub mod Search
use jevmachopp.Base.{
  ℕ, zero, suc, true, false, ◌-◌, overrun, ◌+◌, ◌%◌, ◌^◌, ◌<◌, ◌≤◌, List, [], ◌∷◌, ltb, leb,
  if◌then◌else◌, Outcome, done, ◌>>=◌, ◌≡◌, refl, dec_lt, arith, ◌-◌, overrun, suc,
}
use jevmachopp.Memory.{load, loaded_uint}
use jevmachopp.Leb.{Decoder, LebIterator, iterator_eq, end_iterator, begin, next, prev}

-- The values of `view::psum`, for the values of the range below it.
unfoldable pub psum : ℕ → List ℕ → List ℕ
psum init [] = []
psum init (x ∷ xs) = init ∷ psum ((init + x) % 2 ^ 64) xs

-- The iterator of `psum_view`.
pub record PsumIterator : Type 0 where
  pub base : LebIterator
  pub psum : ℕ

module _ (decode_uleb128 : Decoder) where
  -- `++` and `--`
  unfoldable pub psum_next : PsumIterator → Outcome PsumIterator
  psum_next it = next decode_uleb128 it.base >>= λ b.
      done (record { base = b; psum = (it.psum + it.base.val) % 2 ^ 64 })

  unfoldable pub psum_prev : PsumIterator → Outcome PsumIterator
  psum_prev it = prev decode_uleb128 it.base >>= λ b.
      done (record { base = b; psum = (it.psum + 2 ^ 64 - b.val) % 2 ^ 64 })

  -- The search of `func_start_for_offsets`, with the offset that it has seen last and fuel for the
  -- steps; `ranges::prev` goes back from the first offset behind `off`.
  unfoldable pub func_start_loop : ℕ → ℕ → ℕ → PsumIterator → Outcome ℕ
  unfolding psum_next psum_prev
  func_start_loop zero off last it = overrun
  func_start_loop (suc fuel) off last it = elim (iterator_eq it.base end_iterator) [
    | true ↦ done last
    | false ↦ elim (ltb off it.psum) [
      | true ↦ psum_prev it >>= λ our_func. done our_func.psum
      | false ↦ psum_next it >>= func_start_loop fuel off it.psum
    ]
  ]

  unfoldable pub func_start_for_offsets : ℕ → ℕ → PsumIterator → Outcome ℕ
  unfolding func_start_loop
  func_start_for_offsets fuel off it = elim (iterator_eq it.base end_iterator) [
    | true ↦ done 0
    | false ↦ elim (ltb off it.psum) [ true ↦ done 0 | false ↦ func_start_loop fuel off 0 it ]
  ]

-- `LinkeditDataCommand::data`, of the command at `p`.
unfoldable pub linkedit_data : List ℕ → ℕ → ℕ → Outcome (ℕ × List ℕ)
linkedit_data mem macho p = loaded_uint 4 mem p >>= λ dataoff.
    loaded_uint 4 mem (p + 4) >>= λ datasize.
    load mem (macho + dataoff) datasize >>= λ bytes. done (macho + dataoff, bytes)

unfoldable pub raw_offsets_cbegin : Decoder → List ℕ → ℕ → ℕ → Outcome LebIterator
raw_offsets_cbegin decode_uleb128 mem macho p =
    linkedit_data mem macho p >>= λ (a, bytes). begin decode_uleb128 a bytes

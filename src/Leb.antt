-- ===== src/Leb.antt =====
-- include/jevmachopp/LEB128.h and lib/jevmachopp/LEB128.cpp: the iterator over a run of ULEB128
-- numbers, and the decoder that finds the number before a position. The forward decoder
-- `bfs::DecodeUleb128` is third-party code, the argument `decode_uleb128`: what it returns for a
-- span is the number of bytes it read, 0 for a failure, and what it wrote to `*val`.
pub mod Back
pub mod Walk
pub mod Reverse
pub mod Values
mod Tests
use jevmachopp.Base.{
  ℕ, zero, suc, ◌+◌, ◌-◌, ◌*◌, ◌%◌, List, [], ◌∷◌, length, drop, get_or, Option, none, some, Bool,
  true, false, not, ◌&&◌, ◌||◌, ltb, leb, ◌==◌, if◌then◌else◌, bit_and, Outcome, done, aborted,
  ◌>>=◌, ◌>>◌, check, take, overrun,
}

abbrev pub Decoder : Type 0
Decoder = List ℕ → ℕ × Option ℕ

-- `byte & 0x80`
abbrev pub has_more : ℕ → Bool
has_more byte = not (bit_and byte 0x80 == 0)

-- The `for` loop over `enc_val_start`, which stands at index `i` of `buf` and looks at `i - 1`.
unfoldable pub scan_back : List ℕ → ℕ → ℕ
scan_back buf zero = zero
scan_back buf (suc i) =
    let earlier = scan_back buf i in if has_more (get_or buf i 0) then earlier else suc i

-- The index that decoding starts from, for a buffer of two bytes or more.
unfoldable pub enc_val_start : List ℕ → ℕ
unfolding scan_back
enc_val_start buf =
    let i = scan_back buf (length buf - 1) in if i == 1 && has_more (get_or buf 0 0) then 0 else i

module _ (decode_uleb128 : Decoder) where
  -- `DecodeUleb128Backwards`, with a `val` that is not null.
  unfoldable pub decode_uleb128_backwards : List ℕ → Outcome (ℕ × Option ℕ)
  unfolding enc_val_start
  decode_uleb128_backwards [] = done (0, none)
  decode_uleb128_backwards (b ∷ []) = do check (not (has_more b)); done (1, some b)
  decode_uleb128_backwards (a ∷ b ∷ rest) =
      let buf = a ∷ b ∷ rest in done (decode_uleb128 (drop (enc_val_start buf) buf))

-- `LEB128Iterator`; `data_ptr` is the address of its span.
pub record LebIterator : Type 0 where
  pub data_ptr : ℕ
  pub buf : List ℕ
  pub val : ℕ
  pub nbytes : ℕ
  pub idx : ℕ

abbrev pub is_sentinel : LebIterator → Bool
is_sentinel it = it.nbytes == 0

unfoldable pub iterator_eq : LebIterator → LebIterator → Bool
iterator_eq a b =
    if is_sentinel a && is_sentinel b
    then true
    else (if not (is_sentinel a) && is_sentinel b || is_sentinel a && not (is_sentinel b)
        then false
        else a.data_ptr == b.data_ptr && length a.buf == length b.buf && a.idx == b.idx)

-- `m_val` after a call that wrote `w`.
abbrev pub written : ℕ → Option ℕ → ℕ
written old none = old
written old (some v) = v

module _ (decode_uleb128 : Decoder) where
  abbrev update_val : LebIterator → ℕ × Option ℕ → Outcome LebIterator
  update_val it (n, w) = do
    check (not (n == 0))
    done (record it { nbytes = n; val = written it.val w })

  unfoldable pub read_and_update_val : LebIterator → Outcome LebIterator
  read_and_update_val it = update_val it (decode_uleb128 (drop it.idx it.buf))

  unfoldable pub read_and_update_val_backwards : LebIterator → Outcome LebIterator
  unfolding decode_uleb128_backwards
  read_and_update_val_backwards it = do
    r ← decode_uleb128_backwards decode_uleb128 (take it.idx it.buf)
    update_val it r

  -- The constructor from a span; `m_val` and `m_nbytes` hold anything before the read.
  unfoldable pub begin : ℕ → List ℕ → Outcome LebIterator
  unfolding read_and_update_val
  begin data_ptr buf =
      read_and_update_val (record { data_ptr = data_ptr; buf = buf; val = 0; nbytes = 0; idx = 0 })

  -- `operator++`
  unfoldable pub next : LebIterator → Outcome LebIterator
  unfolding read_and_update_val
  next it =
      let idx' = it.idx + it.nbytes in
      do
        check (leb idx' (length it.buf))
        (if idx' == length it.buf
            then done (record it { idx = idx'; nbytes = 0 })
            else read_and_update_val (record it { idx = idx' }))

  -- `operator--`
  unfoldable pub prev : LebIterator → Outcome LebIterator
  unfolding read_and_update_val_backwards
  prev it = do
    check (leb it.nbytes it.idx)
    it' ← read_and_update_val_backwards it
    done (record it' { idx = it'.idx - it'.nbytes })

-- The default-constructed iterator, the end of a range; its `m_val` and `m_idx` are not set.
abbrev pub end_iterator : LebIterator
end_iterator = record { data_ptr = 0; buf = []; val = 0; nbytes = 0; idx = 0 }

module _ (decode_uleb128 : Decoder) where
  -- `for (v : range)`: the values from `it` to the end, with fuel for the rounds.
  unfoldable pub values_from : ℕ → LebIterator → Outcome (List ℕ)
  unfolding iterator_eq next
  values_from zero it = overrun
  values_from (suc fuel) it =
      let rest = next decode_uleb128 it >>= λ it'. values_from fuel it' in
      if iterator_eq it end_iterator then done [] else rest >>= λ vs. done (it.val ∷ vs)

-- ===== src/Ring.antt =====
-- include/jevmachopp/RingBuffer.h: `RingBufferBase` with one producer and one consumer. A method
-- that changes the buffer returns it. The buffer's physical cells are a function; `m_buf` and the
-- mirror behind it are one mapping, `static_size_raw` cells seen twice.
pub mod Cells
pub mod Queue
pub mod Refine
pub mod Runs
pub mod Bulk
pub mod Shared
pub mod Racing
pub mod Mapping
mod Tests
use jevmachopp.Base.{
  Outcome, done, aborted, overrun, ◌>>=◌, ◌>>◌, check, ℕ, ◌+◌, ◌-◌, ◌*◌, ◌%◌, ◌^◌, bit_and, List,
  [], ◌∷◌, length, Option, none, some, Bool, true, false, not, ltb, leb, ◌==◌, if◌then◌else◌,
}

abbrev pub size_mod : ℕ
size_mod = 2 ^ 64

-- `a + b` and `a - b` in `std::size_t`.
abbrev pub add_size : ℕ → ℕ → ℕ
add_size a b = (a + b) % size_mod

abbrev pub sub_size : ℕ → ℕ → ℕ
sub_size a b = (a + size_mod - b) % size_mod

-- `m_buf`, `rd_idx_raw`, `wr_idx_raw` and `done`.
pub record RingBuffer {ℓ} (A : Type ℓ) : Type ℓ where
  pub cells : ℕ → A
  pub rd_idx_raw : ℕ
  pub wr_idx_raw : ℕ
  pub finished : Bool

-- `static_size_raw` is `2 ^ k`, as its `static_assert` wants.
module _ (k : ℕ) where
  abbrev pub static_size_raw : ℕ
  static_size_raw = 2 ^ k

  abbrev pub static_size : ℕ
  static_size = static_size_raw - 1

  abbrev pub idx_mask : ℕ
  idx_mask = static_size_raw * 2 - 1

  -- The index that `m_buf` is subscripted by, for a raw index.
  unfoldable pub masked : ℕ → ℕ
  masked raw = bit_and raw idx_mask

  -- The physical cell behind a raw index: the mirror shows the cells once more.
  unfoldable pub cell_of : ℕ → ℕ
  unfolding masked
  cell_of raw = masked raw % static_size_raw

  -- `wr - static_size_raw + 1`
  unfoldable pub rd_full_val : ℕ → ℕ
  rd_full_val wr = add_size (sub_size wr static_size_raw) 1

abbrev pub update {ℓ} : {A : Type ℓ} (cells : ℕ → A) (cell : ℕ) (x : A) (at : ℕ) → A
update cells cell x at = if cell == at then x else cells at

module _ {ℓ} {A : Type ℓ} (k : ℕ) where
  -- The constructor, once its mappings stand; `cells` is what they hold.
  pub init : (ℕ → A) → RingBuffer A
  init cells = record { cells = cells; rd_idx_raw = 0; wr_idx_raw = 0; finished = false }

  pub size : RingBuffer A → ℕ
  size r = sub_size r.wr_idx_raw r.rd_idx_raw

  pub remaining : RingBuffer A → ℕ
  unfolding size
  remaining r = sub_size (static_size k) (size r)

  pub full : RingBuffer A → Outcome Bool
  unfolding rd_full_val
  full r = do
    check (leb r.rd_idx_raw r.wr_idx_raw)
    done (r.rd_idx_raw == rd_full_val k r.wr_idx_raw)

  pub empty : RingBuffer A → Outcome Bool
  empty r = do check (leb r.rd_idx_raw r.wr_idx_raw); done (r.rd_idx_raw == r.wr_idx_raw)

  -- `push` is `emplace` of one value.
  pub emplace : RingBuffer A → A → Outcome (RingBuffer A)
  unfolding full cell_of
  emplace r x = do
    f ← full r
    check (not f)
    done (record r {
      cells = update r.cells (cell_of k r.wr_idx_raw) x;
      wr_idx_raw = add_size r.wr_idx_raw 1;
    })

  pub peek : RingBuffer A → Outcome (Option A)
  unfolding empty cell_of
  peek r = do e ← empty r; done (if e then none else some (r.cells (cell_of k r.rd_idx_raw)))

  pub pop : RingBuffer A → Outcome (Option A × RingBuffer A)
  unfolding empty cell_of
  pop r = do
    e ← empty r
    done (
        if e then (none, r) else (
          some (r.cells (cell_of k r.rd_idx_raw)),
          record r { rd_idx_raw = add_size r.rd_idx_raw 1 },
        ))

  -- `memcpy` to the cells behind the virtual indices from `i` on. The mapping has
  -- `2 * static_size_raw` of them, and an index past them is an overrun.
  pub copy_in : (ℕ → A) → ℕ → List A → Outcome (ℕ → A)
  copy_in cells i [] = done cells
  copy_in cells i (x ∷ xs) =
      let rest = copy_in (update cells (i % static_size_raw k) x) (i + 1) xs in
      if ltb i (static_size_raw k * 2) then rest else overrun

  pub emplace_multiple : RingBuffer A → List A → Outcome (RingBuffer A)
  unfolding remaining copy_in masked
  emplace_multiple r xs = do
    check (leb (length xs) (remaining r))
    cells ← copy_in r.cells (masked k r.wr_idx_raw) xs
    done (record r { cells = cells; wr_idx_raw = add_size r.wr_idx_raw (length xs) })

  pub finish : RingBuffer A → Outcome (RingBuffer A)
  finish r = do check (not r.finished); done (record r { finished = true })

  -- `memset` leaves the value whose bytes are 0 in each cell.
  pub clear : A → RingBuffer A → RingBuffer A
  clear zeroed r = record { cells = λ i. zeroed; rd_idx_raw = 0; wr_idx_raw = 0; finished = false }

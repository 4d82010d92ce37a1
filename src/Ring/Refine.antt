-- ===== src/Ring/Refine.antt =====
-- include/jevmachopp/RingBuffer.h: one producer and one consumer, on the queued values.
use jevmachopp.Base.{
  done, aborted, ℕ, suc, ◌+◌, ◌-◌, ◌^◌, ◌≤◌, ◌<◌, ◌≡◌, ◌≢◌, refl, ap, arith, List, [], ◌∷◌, ◌++◌,
  length, true, false, pow2_pos, le→leb, ==_iff, ==-false, ◌==◌, ℕ_discrete,
}
use jevmachopp.Ring.{
  update, add_size, RingBuffer, rd_full_val, cell_of, full, empty, emplace, pop, size, remaining,
  init,
}
use jevmachopp.Ring.Queue.{dequeue}
use jevmachopp.Ring.Cells.{window, length-window, window-write}

module _ {ℓ} {A : Type ℓ} (k : ℕ) where
  -- The invariant between calls, while fewer than 2^64 values have been pushed.
  pub record IsValid (r : RingBuffer A) : Type 0 where
    pub ordered : r.rd_idx_raw ≤ r.wr_idx_raw
    pub fits : r.wr_idx_raw < r.rd_idx_raw + 2 ^ k
    pub counted : r.wr_idx_raw < 2 ^ 64
    pub small : 2 ^ k ≤ 2 ^ 63

  -- The queued values, oldest first.
  unfoldable pub contents : RingBuffer A → List A
  contents r = window k r.cells r.rd_idx_raw (r.wr_idx_raw - r.rd_idx_raw)

  pub length-contents : (r : RingBuffer A) → length (contents r) ≡ r.wr_idx_raw - r.rd_idx_raw
  unfolding contents
  length-contents r = length-window k r.cells r.rd_idx_raw (r.wr_idx_raw - r.rd_idx_raw)

  -- The constructed buffer is valid and empty.
  pub init-IsValid :
      (cells : ℕ → A) → 2 ^ k ≤ 2 ^ 63 → IsValid (init k cells) × (contents (init k cells) ≡ [])
  unfolding init contents window
  init-IsValid cells small = (omega (arith, small, pow2_pos k), refl)

  -- `size` and `remaining` count the queued values and the free places.
  pub size-contents :
      (r : RingBuffer A)
      → IsValid r
      → (size k r ≡ length (contents r)) × (remaining k r + length (contents r) ≡ 2 ^ k - 1)
  unfolding size remaining
  size-contents r v = omega (arith, length-contents r)

  full-true :
      (r : RingBuffer A) → IsValid r → length (contents r) ≡ 2 ^ k - 1 → full k r ≡ done true
  unfolding full rd_full_val
  full-true r v h = rw (le→leb _ _ v.ordered, (==_iff r.rd_idx_raw _).1 at_full)
    where
      at_full : r.rd_idx_raw ≡ rd_full_val k r.wr_idx_raw
      at_full = omega (arith, length-contents r, pow2_pos k)

  full-false :
      (r : RingBuffer A) → IsValid r → length (contents r) < 2 ^ k - 1 → full k r ≡ done false
  unfolding full rd_full_val
  full-false r v h = rw (le→leb _ _ v.ordered, ==-false r.rd_idx_raw _ below_full)
    where
      below_full : r.rd_idx_raw ≢ rd_full_val k r.wr_idx_raw
      below_full = omega (arith, length-contents r, pow2_pos k)

  empty_lem : (r : RingBuffer A) → IsValid r → empty k r ≡ done (r.rd_idx_raw == r.wr_idx_raw)
  unfolding empty
  empty_lem r v = rw (le→leb _ _ v.ordered)

  pub emplace-full :
      (r : RingBuffer A) (x : A)
      → IsValid r
      → length (contents r) ≡ 2 ^ k - 1
      → emplace k r x ≡ aborted
  unfolding emplace
  emplace-full r x v h = rw (full-true r v h)

  -- The buffer after a successful `emplace`.
  pushed : RingBuffer A → A → RingBuffer A
  pushed r x = record r {
    cells = update r.cells (cell_of k r.wr_idx_raw) x;
    wr_idx_raw = add_size r.wr_idx_raw 1;
  }

  contents-pushed :
      (r : RingBuffer A) (x : A)
      → IsValid r
      → length (contents r) < 2 ^ k - 1
      → r.wr_idx_raw + 1 < 2 ^ 64
      → contents (pushed r x) ≡ contents r ++ (x ∷ [])
  unfolding contents pushed
  contents-pushed r x v h bound =
      rw one_more (window-write k r.cells r.rd_idx_raw r.wr_idx_raw x v.ordered v.fits)
    where
      one_more : add_size r.wr_idx_raw 1 - r.rd_idx_raw ≡ suc (r.wr_idx_raw - r.rd_idx_raw)
      one_more = omega (arith, v.ordered)

  pub emplace-room :
      (r : RingBuffer A) (x : A)
      → IsValid r
      → length (contents r) < 2 ^ k - 1
      → r.wr_idx_raw + 1 < 2 ^ 64
      → (r' : RingBuffer A) × (emplace k r x ≡ done r')
        × IsValid r'
        × (contents r' ≡ contents r ++ (x ∷ []))
        × (r'.wr_idx_raw ≡ r.wr_idx_raw + 1)
  unfolding emplace pushed
  emplace-room r x v h bound =
      (pushed r x, rw (full-false r v h), valid, contents-pushed r x v h bound, omega arith)
    where
      valid : IsValid (pushed r x)
      valid = omega (arith, length-contents r)

  contents-nil : (r : RingBuffer A) → r.rd_idx_raw ≡ r.wr_idx_raw → contents r ≡ []
  unfolding contents window
  contents-nil r e =
      ap (λ (n : ℕ). window k r.cells r.rd_idx_raw n) {x = r.wr_idx_raw - r.rd_idx_raw} {y = 0}
        (omega arith)

  -- The buffer after a `pop` that finds a value.
  popped : RingBuffer A → RingBuffer A
  popped r = record r { rd_idx_raw = add_size r.rd_idx_raw 1 }

  contents-popped :
      (r : RingBuffer A)
      → IsValid r
      → r.rd_idx_raw ≢ r.wr_idx_raw
      → contents r ≡ r.cells (cell_of k r.rd_idx_raw) ∷ contents (popped r)
  unfolding contents window popped
  contents-popped r v differ = rw (some_left, next) refl
    where
      next : add_size r.rd_idx_raw 1 ≡ r.rd_idx_raw + 1
      next = omega (arith, v.ordered, v.counted)

      some_left : r.wr_idx_raw - r.rd_idx_raw ≡ suc (r.wr_idx_raw - (r.rd_idx_raw + 1))
      some_left = omega (arith, v.ordered)

  -- `pop` gives the oldest value and leaves the others; on an empty buffer it changes nothing.
  pub pop-contents :
      (r : RingBuffer A)
      → IsValid r
      → (r' : RingBuffer A) × (pop k r ≡ done ((dequeue (contents r)).0, r'))
        × IsValid r'
        × (contents r' ≡ (dequeue (contents r)).1)
        × (r'.wr_idx_raw ≡ r.wr_idx_raw)
  unfolding pop dequeue popped
  pop-contents r v = elim (ℕ_discrete r.rd_idx_raw r.wr_idx_raw) [
    | yes same ↦ (
      r,
      rw (contents-nil r same, le→leb _ _ v.ordered, (==_iff r.rd_idx_raw _).1 same),
      v,
      rw (contents-nil r same),
      refl,
    )
    | no differ ↦ (
      popped r,
      rw (contents-popped r v differ, le→leb _ _ v.ordered, ==-false r.rd_idx_raw _ differ),
      omega arith,
      rw (contents-popped r v differ),
      refl,
    )
  ]

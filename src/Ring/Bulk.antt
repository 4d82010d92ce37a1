-- ===== src/Ring/Bulk.antt =====
-- include/jevmachopp/RingBuffer.h: `emplace_multiple`, one copy of a span behind the write index.
use native.Mathlib.Nat.{mod-add-mod, mod-mod_of_dvd, dvd-mul_right, mod-lt}
use jevmachopp.Base.{
  done, overrun, ℕ, suc, ◌+◌, ◌-◌, ◌*◌, ◌%◌, ◌^◌, ◌≤◌, ◌<◌, ◌≡◌, ◌∙◌, refl, ap, sym, arith, List,
  [], ◌∷◌, ◌++◌, length, append_assoc, append-nil, lt→ltb, ltb-false, le→leb, dec_lt, leb, true,
  pow2_pos,
}
use jevmachopp.Ring.{RingBuffer, update, add_size, cell_of, remaining, copy_in, emplace_multiple}
use jevmachopp.Ring.Cells.{masked_lem, cell_of_lem, window, window-write}
use jevmachopp.Ring.Refine.{IsValid, contents, length-contents, size-contents}

-- The virtual index `i` and the raw index `w` name the same cell.
cell_step : (k i w : ℕ) → i % 2 ^ k ≡ w % 2 ^ k → (i + 1) % 2 ^ k ≡ (w + 1) % 2 ^ k
cell_step k i w e = sym (mod-add-mod i (2 ^ k) 1) ∙ rw e (mod-add-mod w (2 ^ k) 1)

module _ {ℓ} {A : Type ℓ} (k : ℕ) where
  -- Inside of the mapping the copy appends the span to the window that ends at `w`.
  copy_in-window :
      (xs : List A) (f : ℕ → A) (i rd w : ℕ)
      → i % 2 ^ k ≡ w % 2 ^ k
      → i + length xs ≤ 2 ^ k * 2
      → rd ≤ w
      → w + length xs < rd + 2 ^ k
      → (f' : ℕ → A) × (copy_in k f i xs ≡ done f')
        × (window k f' rd (w + length xs - rd) ≡ window k f rd (w - rd) ++ xs)
  unfolding copy_in
  copy_in-window [] f i rd w same inside lo hi = (
    f,
    refl,
    ap (λ (n : ℕ). window k f rd n) {x = w + 0 - rd} {y = w - rd} (omega arith)
        ∙ sym (append-nil (window k f rd (w - rd))),
  )
  copy_in-window (x ∷ xs) f i rd w same inside lo hi =
      let cell : i % 2 ^ k ≡ cell_of k w = same ∙ sym (cell_of_lem k w) in
      let f1 : ℕ → A = update f (i % 2 ^ k) x in
      let (f', e, c) =
        copy_in-window xs f1 (i + 1) rd (w + 1) (cell_step k i w same) (omega arith) (omega arith)
          (omega arith) in
      (
        f',
        rw (lt→ltb _ _ (before i (omega arith))) e,
        ap (λ (n : ℕ). window k f' rd n) {x = w + suc (length xs) - rd} (omega arith)
            ∙ c
            ∙ ap (λ (l : List A). l ++ xs) (first cell)
            ∙ append_assoc (window k f rd (w - rd)) (x ∷ []) xs,
      )
    where
      before : (i : ℕ) → i + suc (length xs) ≤ 2 ^ k * 2 → i < 2 ^ k * 2
      before i h = omega arith

      first :
          i % 2 ^ k ≡ cell_of k w
          → window k (update f (i % 2 ^ k) x) rd (w + 1 - rd) ≡ window k f rd (w - rd) ++ (x ∷ [])
      first cell = rw cell (
          ap (λ (n : ℕ). window k (update f (cell_of k w) x) rd n) {x = w + 1 - rd}
            {y = suc (w - rd)} (omega arith)
          ∙ window-write k f rd w x lo (omega arith))

  fits_remaining :
      (r : RingBuffer A) (xs : List A)
      → IsValid k r
      → length (contents k r) + length xs ≤ 2 ^ k - 1
      → leb (length xs) (remaining k r) ≡ true
  fits_remaining r xs v room = le→leb _ _ (omega (arith, size-contents k r v))

  copy_in-overrun :
      (xs : List A) (f : ℕ → A) (i : ℕ)
      → i ≤ 2 ^ k * 2
      → 2 ^ k * 2 < i + length xs
      → copy_in k f i xs ≡ overrun
  unfolding copy_in
  copy_in-overrun [] f i lo hi = absurd (omega arith)
  copy_in-overrun (x ∷ xs) f i lo hi = elim (dec_lt i (2 ^ k * 2)) [
    | yes inside ↦ rw (lt→ltb _ _ inside) (copy_in-overrun xs _ (i + 1) (omega arith) (omega arith))
    | no outside ↦ rw (ltb-false i (2 ^ k * 2) (omega arith))
  ]

  -- On a valid buffer, a span that fits into the free places and from the masked write index ends
  -- inside of the two mappings is appended whole, and the buffer stays valid, while fewer than 2^64
  -- values are written.
  pub emplace_multiple-inside :
      (r : RingBuffer A) (xs : List A)
      → IsValid k r
      → length (contents k r) + length xs ≤ 2 ^ k - 1
      → r.wr_idx_raw % (2 ^ k * 2) + length xs ≤ 2 ^ k * 2
      → r.wr_idx_raw + length xs < 2 ^ 64
      → (r' : RingBuffer A) × (emplace_multiple k r xs ≡ done r')
        × IsValid k r'
        × (contents k r' ≡ contents k r ++ xs)
  unfolding emplace_multiple contents
  emplace_multiple-inside r xs v room inside bound =
      let (f', e, c) =
        copy_in-window xs r.cells (r.wr_idx_raw % (2 ^ k * 2)) r.rd_idx_raw r.wr_idx_raw
          (mod-mod_of_dvd (2 ^ k) r.wr_idx_raw (dvd-mul_right (2 ^ k) 2)) inside v.ordered
          below_full in
      (
        record r { cells = f'; wr_idx_raw = add_size r.wr_idx_raw (length xs) },
        rw (fits_remaining r xs v room, masked_lem k r.wr_idx_raw, e),
        omega (arith, below_full),
        ap (λ (n : ℕ). window k f' r.rd_idx_raw n)
              {x = add_size r.wr_idx_raw (length xs) - r.rd_idx_raw} (omega arith)
            ∙ c,
      )
    where
      below_full : r.wr_idx_raw + length xs < r.rd_idx_raw + 2 ^ k
      below_full = omega (arith, length-contents k r, v.ordered, v.fits)

  -- On a valid buffer, a span that fits into the free places and from the masked write index does
  -- not end inside of the two mappings is written past their end.
  pub emplace_multiple-overrun :
      (r : RingBuffer A) (xs : List A)
      → IsValid k r
      → length (contents k r) + length xs ≤ 2 ^ k - 1
      → 2 ^ k * 2 < r.wr_idx_raw % (2 ^ k * 2) + length xs
      → emplace_multiple k r xs ≡ overrun
  unfolding emplace_multiple
  emplace_multiple-overrun r xs v room outside =
      rw (fits_remaining r xs v room, masked_lem k r.wr_idx_raw)
        (rw (copy_in-overrun xs r.cells (r.wr_idx_raw % (2 ^ k * 2)) start outside))
    where
      start : r.wr_idx_raw % (2 ^ k * 2) ≤ 2 ^ k * 2
      start = omega (arith, mod-lt r.wr_idx_raw {m = 2 ^ k * 2} (omega (arith, pow2_pos k)))

-- ===== src/XnuBoot/Flush.antt =====
-- The lines that `flush_i_and_d_cache` of lib/jevmachopp/m1n1.cpp flushes.
use jevmachopp.Base.{
  ℕ, zero, suc, ◌+◌, ◌-◌, ◌*◌, ◌/◌, ◌%◌, ◌^◌, ◌<◌, ◌≤◌, ◌∷◌, get_elem?, some, ◌≡◌, ◌≢◌, ap, ◌∙◌,
  arith, bit_and_high,
}
use jevmachopp.XnuBoot.{flush_loop, flush_i_and_d_cache}

flush_loop-cons :
    (fuel aligned_addr size : ℕ)
    → size ≢ 0
    → flush_loop (suc fuel) aligned_addr size
      ≡ aligned_addr ∷ flush_loop fuel (aligned_addr + 64) (size - 64)
unfolding flush_loop
flush_loop-cons fuel aligned_addr size h = ground arith

flush_loop-line :
    (fuel aligned_addr size i : ℕ)
    → size ≤ fuel
    → i * 64 < size
    → get_elem? (flush_loop fuel aligned_addr size) i ≡ some (aligned_addr + i * 64)
flush_loop-line zero aligned_addr size i fits lt = absurd (omega arith)
flush_loop-line (suc fuel) aligned_addr size zero fits lt =
    rw (flush_loop-cons fuel aligned_addr size (λ e. absurd (omega arith))) (ap some (omega arith))
flush_loop-line (suc fuel) aligned_addr size (suc i) fits lt =
    rw (flush_loop-cons fuel aligned_addr size (λ e. absurd (omega arith))) (
      flush_loop-line fuel (aligned_addr + 64) (size - 64) i (omega arith) (omega arith)
      ∙ ap some (omega arith))

-- The lines of 64 bytes that are flushed have every byte of the range, in order: the line of the byte
-- at an index stands as many places behind the first as its number says.
pub flush_i_and_d_cache-line :
    (addr size i : ℕ)
    → addr + size < 2 ^ 64
    → i < size
    → get_elem? (flush_i_and_d_cache addr size) ((addr + i) / 64 - addr / 64)
      ≡ some ((addr + i) / 64 * 64)
unfolding flush_i_and_d_cache
flush_i_and_d_cache-line addr size i small lt =
    rw (bit_and_high 6 64 addr (omega arith) (omega arith)) (
      flush_loop-line (size + (addr - (addr - addr % 2 ^ 6))) (addr - addr % 2 ^ 6)
        (size + (addr - (addr - addr % 2 ^ 6))) ((addr + i) / 64 - addr / 64) (omega arith)
        (omega arith)
      ∙ ap some (omega arith))

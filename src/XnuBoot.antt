-- ===== src/XnuBoot.antt =====
-- lib/jevmachopp/m1n1.cpp and lib/jevmachopp/XNUBoot.cpp: the boot of a kernel. This file has the
-- flush of the caches and the stub that moves the kernel to where it runs.
pub mod Flush
pub mod Stub
pub mod StubEnd
pub mod Copies
pub mod Regions
pub mod Prepare
pub mod Copied
pub mod Moved
mod Tests
use jevmachopp.Base.{
  ℕ, zero, suc, ◌+◌, ◌-◌, ◌%◌, ◌^◌, List, [], ◌∷◌, length, Bool, true, false, ◌==◌, bit_and,
  Outcome, done, aborted, ◌>>=◌,
}
use jevmachopp.Memory.{load, store}

-- The loop of `flush_i_and_d_cache`, with the lines that it flushes and fuel for the rounds.
unfoldable pub flush_loop : ℕ → ℕ → ℕ → List ℕ
flush_loop zero aligned_addr size = []
flush_loop (suc fuel) aligned_addr size = elim (size == 0) [
  | true ↦ []
  | false ↦ aligned_addr ∷ flush_loop fuel (aligned_addr + 64) (size - 64)
]

-- `flush_i_and_d_cache`, of a size that is not negative: the lines of 64 bytes that are flushed.
unfoldable pub flush_i_and_d_cache : ℕ → ℕ → List ℕ
flush_i_and_d_cache addr size =
    let aligned_addr = bit_and addr (2 ^ 64 - 2 ^ 6) in
    let size' = size + (addr - aligned_addr) in flush_loop size' aligned_addr size'

-- The loop of `xnu_jump_stub` over its registers x1, x2 and x3, with fuel for the rounds.
unfoldable pub stub_loop : ℕ → List ℕ → ℕ → ℕ → ℕ → Outcome (List ℕ)
stub_loop zero mem x1 x2 x3 = aborted
stub_loop (suc fuel) mem x1 x2 x3 = load mem x1 16 >>= λ x5_x6. store mem x2 x5_x6 >>= λ mem'.
    let x3' = (x3 + 2 ^ 64 - 16) % 2 ^ 64 in
    elim (x3' == 0) [ true ↦ done mem' | false ↦ stub_loop fuel mem' (x1 + 16) (x2 + 16) x3' ]

-- Where `xnu_jump_stub` goes, with its argument and the memory that it leaves.
pub record Jump : Type 0 where
  pub memory : List ℕ
  pub target : ℕ
  pub x0 : ℕ

-- `xnu_jump_stub` of a build with `JEV_BAREMETAL`, which enters the image; another build returns. A
-- round takes 16 bytes of memory, so there is fuel for all.
unfoldable pub xnu_jump_stub : List ℕ → ℕ → ℕ → ℕ → ℕ → ℕ → Outcome Jump
xnu_jump_stub mem new_bootargs_addr image_addr new_base image_size image_entry =
    stub_loop (suc (length mem)) mem image_addr new_base image_size >>= λ mem'.
    done (record { memory = mem'; target = image_entry; x0 = new_bootargs_addr })

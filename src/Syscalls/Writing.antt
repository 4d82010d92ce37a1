-- ===== src/Syscalls/Writing.antt =====
-- What `SYS_IMP_writev` of lib/jevmachopp/MuslSyscalls.cpp returns.
use jevmachopp.Base.{
  ℕ, suc, ◌+◌, ◌%◌, ◌^◌, ◌<◌, List, [], ◌∷◌, ◌++◌, length, All, ltb, ◌&&◌, if◌then◌else◌, ◌≡◌,
  arith, length-append,
}
use jevmachopp.Syscalls.{writev_loop, sys_imp_writev}

-- The bytes of all buffers.
abbrev pub bytes_of : List (List ℕ) → List ℕ
bytes_of [] = []
bytes_of (iov ∷ iovs) = iov ++ bytes_of iovs

-- The buffers up to the first of which a number of bytes, but not all of them, are written.
abbrev pub up_to_short : (ℕ → List ℕ → ℕ) → ℕ → List (List ℕ) → List (List ℕ)
up_to_short write i [] = []
up_to_short write i (iov ∷ iovs) =
    let rest = up_to_short write (suc i) iovs in
    if ltb (write i iov) (2 ^ 31) && ltb (write i iov) (length iov) then iov ∷ [] else iov ∷ rest

module _ (write : ℕ → List ℕ → ℕ) where
  writev_loop-up_to_short :
      (i res : ℕ) (iovs : List (List ℕ))
      → ((j : ℕ) (iov : List ℕ) → write j iov < 2 ^ 32)
      → All (λ iov. length iov < 2 ^ 63) iovs
      → res < 2 ^ 64
      → writev_loop write i res iovs ≡ (res + length (bytes_of (up_to_short write i iovs))) % 2 ^ 64
  unfolding writev_loop
  writev_loop-up_to_short i res [] ints small fits = omega arith
  writev_loop-up_to_short i res (iov ∷ iovs) ints (small, smalls) fits = ground (
    arith,
    ints i iov,
    length-append iov (bytes_of (up_to_short write (suc i) iovs)),
    length-append iov [],
    writev_loop-up_to_short (suc i) ((res + length iov) % 2 ^ 64) iovs ints smalls (omega arith),
  )

  -- For buffers below 2^63 bytes, `SYS_IMP_writev` returns, modulo 2^64, the length of all buffers
  -- up to the first of which a number of bytes, but not all, was written: that buffer counts whole,
  -- and a failure to write any of them is not returned.
  pub sys_imp_writev-up_to_short :
      (iovs : List (List ℕ))
      → ((j : ℕ) (iov : List ℕ) → write j iov < 2 ^ 32)
      → All (λ iov. length iov < 2 ^ 63) iovs
      → sys_imp_writev write iovs ≡ length (bytes_of (up_to_short write 0 iovs)) % 2 ^ 64
  unfolding sys_imp_writev
  sys_imp_writev-up_to_short iovs ints small =
      omega (arith, writev_loop-up_to_short 0 0 iovs ints small (omega arith))

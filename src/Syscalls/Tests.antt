-- ===== src/Syscalls/Tests.antt =====
-- Tests of lib/jevmachopp/MuslSyscalls.cpp.
use jevmachopp.Base.{
  ℕ, ◌-◌, ◌%◌, ◌^◌, ◌<◌, ◌≤◌, List, [], ◌∷◌, length, none, some, ◌≡◌, ◌≢◌, ◌⊎◌, ◌*◌, refl, arith,
  if◌then◌else◌, ◌==◌, ◌*◌,
}
use jevmachopp.Numerics.{is_pow2}
use jevmachopp.Syscalls.{sys_imp_writev, posix_memalign, einval}
use jevmachopp.Syscalls.Writing.{up_to_short, bytes_of, sys_imp_writev-up_to_short}
use jevmachopp.Syscalls.Aligned.{answer_of, posix_memalign-pow}

-- The first call writes nothing and fails, and the second one writes one byte.
abbrev write : ℕ → List ℕ → ℕ
write i bytes = if i == 0 then 2 ^ 32 - 1 else 1

abbrev buffers : List (List ℕ)
buffers = (1 ∷ 2 ∷ []) ∷ (3 ∷ 4 ∷ 5 ∷ []) ∷ (6 ∷ []) ∷ []

write-small : (j : ℕ) (iov : List ℕ) → write j iov < 2 ^ 32
write-small j iov = ground arith

sys_imp_writev-up_to_short_example :
    sys_imp_writev write buffers ≡ length (bytes_of (up_to_short write 0 buffers)) % 2 ^ 64
sys_imp_writev-up_to_short_example =
    sys_imp_writev-up_to_short write buffers write-small (omega arith)

-- The failure is not returned, and a byte that is written counts for three.
five_bytes : sys_imp_writev write buffers ≡ 5
unfolding sys_imp_writev
five_bytes = refl

posix_memalign-pow_example :
    ((k : ℕ) × (3 ≤ k)
      × (16 ≡ 2 ^ k)
      × (posix_memalign (λ a n. some (a * 4)) 16 100 ≡ answer_of (some (16 * 4))))
    ⊎ (((k : ℕ) → 3 ≤ k → 16 ≢ 2 ^ k)
        × (posix_memalign (λ a n. some (a * 4)) 16 100 ≡ (einval, none)))
posix_memalign-pow_example = posix_memalign-pow (λ a n. some (a * 4)) 16 100 (omega arith)

-- A third of a page.
not_a_power : posix_memalign (λ a n. some 0) 1365 100 ≡ (einval, none)
unfolding posix_memalign is_pow2
not_a_power = refl

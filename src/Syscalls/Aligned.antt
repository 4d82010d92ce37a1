-- ===== src/Syscalls/Aligned.antt =====
-- What `posix_memalign` of lib/jevmachopp/MuslSyscalls.cpp accepts.
use native.Mathlib.Nat.{pow-suc, pow-le-pow_right}
use jevmachopp.Base.{
  ℕ, zero, suc, ◌%◌, ◌^◌, ◌<◌, ◌≤◌, Option, none, some, false, ltb, ◌≡◌, ◌≢◌, refl, ◌⊎◌, arith,
  Bool-cases, inl, inr, pow2_pos, ltb→lt,
}
use jevmachopp.Numerics.{is_pow2}
use jevmachopp.Numerics.Pow2.{is_pow2-pow}
use jevmachopp.Syscalls.{posix_memalign, einval, enomem}

-- What it returns for memory that is aligned as asked.
abbrev pub answer_of : Option ℕ → ℕ × Option ℕ
answer_of none = (enomem, none)
answer_of (some res) = (0, some res)

module _ (memalign : ℕ → ℕ → Option ℕ) (alignment size : ℕ) (fits : alignment < 2 ^ 64) where
  aligned : (k : ℕ) → 3 ≤ k → alignment ≡ 2 ^ k → (alignment % 8 ≡ 0) × (8 ≤ alignment)
  aligned zero le e = absurd (omega arith)
  aligned (suc zero) le e = absurd (omega arith)
  aligned (suc (suc zero)) le e = absurd (omega arith)
  aligned (suc (suc (suc k))) le e = (
    omega (arith, pow-suc 2 k, pow-suc 2 (suc k), pow-suc 2 (suc (suc k))),
    omega (arith, pow-suc 2 k, pow-suc 2 (suc k), pow-suc 2 (suc (suc k)), pow2_pos k),
  )

  at_least_8 : (k : ℕ) → alignment ≡ 2 ^ k → ltb alignment 8 ≡ false → 3 ≤ k
  at_least_8 zero e large = ground arith
  at_least_8 (suc zero) e large = ground arith
  at_least_8 (suc (suc zero)) e large = ground arith
  at_least_8 (suc (suc (suc k))) e large = omega arith

  below_64 : (k : ℕ) → alignment ≡ 2 ^ k → k < 64
  below_64 k e = elim (Bool-cases (ltb k 64)) [
    | inl lt ↦ ltb→lt k 64 lt
    | inr ge ↦
        absurd
          (omega (arith, pow-le-pow_right {n = 2} (omega arith) {i = 64} {j = k} (ground arith)))
  ]

  -- For an alignment of 64 bits: if it is a power of two from 8 on, `posix_memalign` returns what
  -- `memalign` gives, or `ENOMEM` where that is null; if it is not, it returns `EINVAL` and writes
  -- no pointer.
  pub posix_memalign-pow :
      ((k : ℕ) × (3 ≤ k)
        × (alignment ≡ 2 ^ k)
        × (posix_memalign memalign alignment size ≡ answer_of (memalign alignment size)))
      ⊎ (((k : ℕ) → 3 ≤ k → alignment ≢ 2 ^ k)
          × (posix_memalign memalign alignment size ≡ (einval, none)))
  unfolding posix_memalign
  posix_memalign-pow = elim (Bool-cases (is_pow2 64 alignment)) [
    | inl passes ↦
        let (k, lt, e) = (is_pow2-pow 64 alignment fits).0 passes in
        elim (Bool-cases (ltb alignment 8)) [
          | inl small ↦ inr (λ j le e'. absurd (ground (arith, aligned j le e')), rw small refl)
          | inr large ↦
              let le = at_least_8 k e large in
              let (whole, _) = aligned k le e in
              inl (k, le, e, rw (passes, large, whole) (ground arith))
        ]
    | inr fails ↦ inr (
      λ k le e. let passes = (is_pow2-pow 64 alignment fits).1 (k, below_64 k e, e) in cc,
      rw fails (ground arith),
    )
  ]

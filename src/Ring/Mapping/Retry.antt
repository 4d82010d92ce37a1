-- ===== src/Ring/Mapping/Retry.antt =====
-- Which try of the constructor of include/jevmachopp/RingBuffer.h decides.
use jevmachopp.Base.{
  ℕ, zero, suc, ◌+◌, ◌<◌, ◌≤◌, [], ◌∷◌, Option, none, some, true, false, done, overrun, ◌≡◌, ◌≢◌,
  ◌⊎◌, refl, ap, ◌∙◌, ℕ_discrete, arith,
}
use jevmachopp.Ring.{add_size}
use jevmachopp.Ring.Mapping.{
  Kernel, Mapping, map_failed, unmapped, try_mirror, try_map, try_round, try_loop, construct,
}

-- A try fails early: `memfd_create` or `ftruncate` fails.
abbrev pub FailsEarly : Kernel → ℕ → Type 0
FailsEarly kernel t = (kernel.memfd_create t ≡ none) ⊎ (kernel.ftruncate t ≡ false)

-- The mapping of a try, once its file is there.
abbrev pub mapping_at : ℕ → ℕ → ℕ → Mapping
mapping_at buf_sz_phys fd p = record {
  m_buf = p;
  m_buf_mirror = add_size p buf_sz_phys;
  m_memfd = some fd;
  held_fds = fd ∷ [];
  held_maps = add_size p buf_sz_phys ∷ p ∷ [];
}

module _ (buf_sz_phys : ℕ) (kernel : Kernel) where
  try_round-early :
      (t : ℕ)
      → kernel.memfd_create t ≢ some 0
      → FailsEarly kernel t
      → try_round buf_sz_phys kernel t unmapped ≡ done (false, unmapped)
  unfolding try_round
  try_round-early t no_zero fails = by_memfd (kernel.memfd_create t) no_zero refl
    where
      by_memfd :
          (o : Option ℕ)
          → o ≢ some 0
          → kernel.memfd_create t ≡ o
          → try_round buf_sz_phys kernel t unmapped ≡ done (false, unmapped)
      by_memfd none ne e = ground arith
      by_memfd (some fd) ne e = ground arith

  try_loop-next :
      (left t : ℕ) (m m' : Mapping)
      → try_round buf_sz_phys kernel t m ≡ done (false, m')
      → try_loop buf_sz_phys kernel (suc left) t m ≡ try_loop buf_sz_phys kernel left (suc t) m'
  unfolding try_loop
  try_loop-next left t m m' e = rw e refl

  -- The loop comes to the first try that does not fail early.
  try_loop-early :
      (left t n : ℕ)
      → t ≤ n
      → n < t + left
      → ((s : ℕ) → kernel.memfd_create s ≢ some 0)
      → ((s : ℕ) → s < n → FailsEarly kernel s)
      → (rest : ℕ) × (try_loop buf_sz_phys kernel left t unmapped
          ≡ try_loop buf_sz_phys kernel (suc rest) n unmapped)
  try_loop-early zero t n le lt no_zero fails = absurd (omega arith)
  try_loop-early (suc left) t n le lt no_zero fails = elim (ℕ_discrete t n) [
    | yes e ↦ (left, ap (λ s. try_loop buf_sz_phys kernel (suc left) s unmapped) e)
    | no ne ↦
        let later = try_loop-early left (suc t) n (omega arith) (omega arith) no_zero fails in
        (
          later.0,
          try_loop-next left t unmapped unmapped
                (try_round-early t (no_zero t) (fails t (omega arith)))
              ∙ later.1,
        )
  ]

  try_loop-ends :
      (left t : ℕ) (m m' : Mapping)
      → try_round buf_sz_phys kernel t m ≡ done (true, m')
      → try_loop buf_sz_phys kernel (suc left) t m ≡ done m'
  unfolding try_loop
  try_loop-ends left t m m' e = rw e refl

  try_loop-overrun :
      (left t : ℕ) (m : Mapping)
      → try_round buf_sz_phys kernel t m ≡ overrun
      → try_loop buf_sz_phys kernel (suc left) t m ≡ overrun
  unfolding try_loop
  try_loop-overrun left t m e = rw e refl

  try_mirror-ends :
      (n fd p : ℕ)
      → kernel.mmap_mirror n ≡ add_size p buf_sz_phys
      → try_mirror buf_sz_phys kernel n fd (record {
        m_buf = p;
        m_buf_mirror = 0;
        m_memfd = some fd;
        held_fds = fd ∷ [];
        held_maps = p ∷ [];
      })
        ≡ done (true, mapping_at buf_sz_phys fd p)
  unfolding try_mirror
  try_mirror-ends n fd p mirrored = ground arith

  try_round-ends :
      (n fd p : ℕ)
      → kernel.memfd_create n ≡ some fd
      → fd ≢ 0
      → kernel.ftruncate n ≡ true
      → kernel.mmap n ≡ p
      → p ≢ 0
      → p ≢ map_failed
      → kernel.mmap_mirror n ≡ add_size p buf_sz_phys
      → try_round buf_sz_phys kernel n unmapped ≡ done (true, mapping_at buf_sz_phys fd p)
  unfolding try_round
  try_round-ends n fd p memfd fd_pos sized mapped p_pos p_good mirrored =
      ground (arith, try_mirror-ends n fd p mirrored)

  try_round-overrun :
      (n fd : ℕ)
      → kernel.memfd_create n ≡ some fd
      → fd ≢ 0
      → kernel.ftruncate n ≡ true
      → kernel.mmap n ≡ map_failed
      → try_round buf_sz_phys kernel n unmapped ≡ overrun
  unfolding try_round try_map
  try_round-overrun n fd memfd fd_pos sized failed = ground arith

  -- Where `memfd_create` never gives descriptor 0, and in each try before one of the 16
  -- `memfd_create` or `ftruncate` fails: if in that try both succeed, `mmap` gives an address that
  -- is neither null nor `MAP_FAILED`, and the mirror, which is not null, is mapped behind it, the
  -- constructor returns with this try's descriptor and mappings.
  pub construct-retry :
      (n fd p : ℕ)
      → n < 16
      → ((s : ℕ) → kernel.memfd_create s ≢ some 0)
      → ((s : ℕ) → s < n → FailsEarly kernel s)
      → kernel.memfd_create n ≡ some fd
      → kernel.ftruncate n ≡ true
      → kernel.mmap n ≡ p
      → p ≢ 0
      → p ≢ map_failed
      → add_size p buf_sz_phys ≢ 0
      → kernel.mmap_mirror n ≡ add_size p buf_sz_phys
      → construct buf_sz_phys kernel ≡ done (mapping_at buf_sz_phys fd p)
  unfolding construct
  construct-retry n fd p lt no_zero fails memfd sized mapped p_pos p_good m_pos mirrored =
      let (rest, e) = try_loop-early 16 0 n (omega arith) (omega arith) no_zero fails in
      let fd_pos : fd ≢ 0 = λ z. no_zero n (memfd ∙ ap some z) in
      rw
        (
          e,
          try_loop-ends rest n unmapped (mapping_at buf_sz_phys fd p)
              (try_round-ends n fd p memfd fd_pos sized mapped p_pos p_good mirrored),
        )
        (ground arith)

  -- Where `memfd_create` never gives descriptor 0, and in each try before one of the 16
  -- `memfd_create` or `ftruncate` fails: if in that try both succeed and `mmap` gives `MAP_FAILED`,
  -- the constructor does not try again but writes through that pointer.
  pub construct-overrun :
      (n fd : ℕ)
      → n < 16
      → ((s : ℕ) → kernel.memfd_create s ≢ some 0)
      → ((s : ℕ) → s < n → FailsEarly kernel s)
      → kernel.memfd_create n ≡ some fd
      → kernel.ftruncate n ≡ true
      → kernel.mmap n ≡ map_failed
      → construct buf_sz_phys kernel ≡ overrun
  unfolding construct
  construct-overrun n fd lt no_zero fails memfd sized failed =
      let (rest, e) = try_loop-early 16 0 n (omega arith) (omega arith) no_zero fails in
      let fd_pos : fd ≢ 0 = λ z. no_zero n (memfd ∙ ap some z) in
      rw (e, try_loop-overrun rest n unmapped (try_round-overrun n fd memfd fd_pos sized failed))
        refl

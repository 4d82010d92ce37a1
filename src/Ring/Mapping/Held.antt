-- ===== src/Ring/Mapping/Held.antt =====
-- What the constructor of include/jevmachopp/RingBuffer.h holds when it returns, and after the
-- destructor.
use jevmachopp.Base.{
  ℕ, zero, suc, [], ◌∷◌, Option, none, some, Bool, true, false, Outcome, done, ◌>>=◌, ◌>>◌, check,
  ◌==◌, ◌&&◌, not, ◌⊎◌, inl, inr, ◌≡◌, ◌≢◌, refl, Ensures, Ensures-bind, arith, ◌⊎◌, inl, inr,
  check, not,
}
use jevmachopp.Ring.{add_size}
use jevmachopp.Ring.Mapping.{
  Kernel, Mapping, unmapped, try_mirror, try_map, try_round, try_loop, construct, destroy,
}

-- Nothing is held.
pub record IsFree (m : Mapping) : Type 0 where
  pub no_fds : m.held_fds ≡ []
  pub no_maps : m.held_maps ≡ []
  pub no_buf : m.m_buf ≡ 0
  pub no_mirror : m.m_buf_mirror ≡ 0

-- One descriptor is held, and two mappings, one behind the other.
pub record IsMirrored (buf_sz_phys : ℕ) (m : Mapping) : Type 0 where
  pub fd : ℕ
  pub has_fd : m.m_memfd ≡ some fd
  pub one_fd : m.held_fds ≡ fd ∷ []
  pub behind : m.m_buf_mirror ≡ add_size m.m_buf buf_sz_phys
  pub two_maps : m.held_maps ≡ m.m_buf_mirror ∷ m.m_buf ∷ []

-- What a round leaves.
abbrev RoundLeaves : ℕ → Bool × Mapping → Type 0
RoundLeaves size (true, m) = IsMirrored size m
RoundLeaves size (false, m) = IsFree m

-- A descriptor is held, and no mapping.
record HasFd (fd : ℕ) (m : Mapping) : Type 0 where
  has_fd : m.m_memfd ≡ some fd
  one_fd : m.held_fds ≡ fd ∷ []
  no_maps : m.held_maps ≡ []
  no_mirror : m.m_buf_mirror ≡ 0

destroy-IsMirrored :
    (buf_sz_phys : ℕ) (m : Mapping) → IsMirrored buf_sz_phys m → destroy true true m ≡ done unmapped
unfolding destroy
destroy-IsMirrored buf_sz_phys m h = ground arith

module _ (buf_sz_phys : ℕ) (kernel : Kernel) where
  try_mirror-Leaves :
      (try_num fd p : ℕ) (m : Mapping)
      → HasFd fd m
      → Ensures (RoundLeaves buf_sz_phys) (
          try_mirror buf_sz_phys kernel try_num fd
            (record m { m_buf = p; held_maps = p ∷ m.held_maps }))
  unfolding try_mirror
  try_mirror-Leaves try_num fd p m h = ground arith

  try_map-Leaves :
      (try_num fd : ℕ) (m : Mapping)
      → HasFd fd m
      → Ensures (RoundLeaves buf_sz_phys) (try_map buf_sz_phys kernel try_num fd m)
  unfolding try_map
  try_map-Leaves try_num fd m h =
      ground (arith, try_mirror-Leaves try_num fd (kernel.mmap try_num) m)

  try_round-Leaves :
      (try_num : ℕ) (m : Mapping)
      → kernel.memfd_create try_num ≢ some 0
      → IsFree m
      → Ensures (RoundLeaves buf_sz_phys) (try_round buf_sz_phys kernel try_num m)
  unfolding try_round
  try_round-Leaves try_num m no_zero free = by_memfd (kernel.memfd_create try_num) no_zero refl
    where
      by_memfd :
          (o : Option ℕ)
          → o ≢ some 0
          → kernel.memfd_create try_num ≡ o
          → Ensures (RoundLeaves buf_sz_phys) (try_round buf_sz_phys kernel try_num m)
      by_memfd none ne e = ground arith
      by_memfd (some fd) ne e =
          let held = record m { m_memfd = some fd; held_fds = fd ∷ m.held_fds } in
          ground (arith, try_map-Leaves try_num fd held)

  try_loop-Leaves :
      (left try_num : ℕ) (m : Mapping)
      → ((t : ℕ) → kernel.memfd_create t ≢ some 0)
      → IsFree m
      → Ensures
          (λ m'. IsFree m' ⊎ IsMirrored buf_sz_phys m')
          (try_loop buf_sz_phys kernel left try_num m)
  unfolding try_loop
  try_loop-Leaves zero try_num m no_zero free = inl free
  try_loop-Leaves (suc left) try_num m no_zero free =
      Ensures-bind (RoundLeaves buf_sz_phys) (λ m'. IsFree m' ⊎ IsMirrored buf_sz_phys m') _ _
        (try_round-Leaves try_num m (no_zero try_num) free)
        (continue (λ m' free'. try_loop-Leaves left (suc try_num) m' no_zero free'))
    where
      continue :
          ((m' : Mapping)
            → IsFree m'
            → Ensures
                (λ m''. IsFree m'' ⊎ IsMirrored buf_sz_phys m'')
                (try_loop buf_sz_phys kernel left (suc try_num) m'))
          → (r : Bool × Mapping) → RoundLeaves buf_sz_phys r
          → Ensures
              (λ m'. IsFree m' ⊎ IsMirrored buf_sz_phys m')
              (elim r.0 as (λ b. Outcome Mapping) [
                | true ↦ done r.1
                | false ↦ try_loop buf_sz_phys kernel left (suc try_num) r.1
              ])
      continue ih (true, m') h = inr h
      continue ih (false, m') h = ih m' h

  construct-IsMirrored :
      ((t : ℕ) → kernel.memfd_create t ≢ some 0)
      → Ensures (IsMirrored buf_sz_phys) (construct buf_sz_phys kernel)
  unfolding construct
  construct-IsMirrored no_zero =
      Ensures-bind (λ m. IsFree m ⊎ IsMirrored buf_sz_phys m) (IsMirrored buf_sz_phys) _ _
        (try_loop-Leaves 16 0 unmapped no_zero
          (record { no_fds = refl; no_maps = refl; no_buf = refl; no_mirror = refl }))
        ended
    where
      ended :
          (m : Mapping)
          → IsFree m ⊎ IsMirrored buf_sz_phys m
          → Ensures
              (IsMirrored buf_sz_phys)
              (check (not (m.m_buf == 0) && not (m.m_buf_mirror == 0)) >> done m)
      ended m (inl free) = ground arith
      ended m (inr h) = ground arith

  -- Where `memfd_create` never gives descriptor 0: if the constructor on Linux returns, the mirror
  -- stands behind the first mapping, and one descriptor and these two mappings are all that is
  -- held, whatever the tries before did; if after that the destructor, whose two calls of `munmap`
  -- succeed, returns, nothing is held.
  pub destroy-construct :
      ((t : ℕ) → kernel.memfd_create t ≢ some 0)
      → Ensures (IsMirrored buf_sz_phys) (construct buf_sz_phys kernel)
        × Ensures (λ m. m ≡ unmapped) (construct buf_sz_phys kernel >>= destroy true true)
  destroy-construct no_zero = (
    construct-IsMirrored no_zero,
    Ensures-bind (IsMirrored buf_sz_phys) (λ m. m ≡ unmapped) _ _ (construct-IsMirrored no_zero)
        (λ m h. rw (destroy-IsMirrored buf_sz_phys m h) refl),
  )

-- ===== src/Ring/Mapping.antt =====
-- include/jevmachopp/RingBuffer.h: the constructor and the destructor of `RingBufferBase` on Linux,
-- which map one file twice, one mapping behind the other. The system calls are parameters: what each
-- gives in a try. Descriptors and mappings that are held are recorded beside the object.
pub mod Held
pub mod Retry
use jevmachopp.Base.{
  ℕ, zero, suc, ◌+◌, ◌-◌, ◌^◌, List, [], ◌∷◌, Option, none, some, Bool, true, false, not, ◌&&◌,
  ◌==◌, if◌then◌else◌, Outcome, done, aborted, overrun, ◌>>=◌, ◌>>◌, check,
}
use jevmachopp.Ring.{add_size}

-- What the calls give in each try; none is -1. `mmap` gives an address, or `map_failed`.
pub record Kernel : Type 0 where
  pub memfd_create : ℕ → Option ℕ
  pub ftruncate : ℕ → Bool
  pub mmap : ℕ → ℕ
  pub mmap_mirror : ℕ → ℕ
  pub munmap : ℕ → Bool

abbrev pub map_failed : ℕ
map_failed = 2 ^ 64 - 1

abbrev pub mmap_max_tries : ℕ
mmap_max_tries = 16

-- `m_buf`, `m_buf_mirror` and `m_memfd`, and what the process holds.
pub record Mapping : Type 0 where
  pub m_buf : ℕ
  pub m_buf_mirror : ℕ
  pub m_memfd : Option ℕ
  pub held_fds : List ℕ
  pub held_maps : List ℕ

abbrev pub unmapped : Mapping
unmapped = record { m_buf = 0; m_buf_mirror = 0; m_memfd = none; held_fds = []; held_maps = [] }

-- A list without the first of a number.
abbrev pub without : ℕ → List ℕ → List ℕ
without x [] = []
without x (y ∷ ys) = let rest = without x ys in if x == y then ys else y ∷ rest

-- `close(m_memfd)`, whose result is only printed, and `m_memfd = -1`.
abbrev pub close_memfd : ℕ → Mapping → Mapping
close_memfd fd m = record m { m_memfd = none; held_fds = without fd m.held_fds }

-- `assert(!munmap(p, buf_sz_phys))`
abbrev pub unmap : Bool → ℕ → Mapping → Outcome Mapping
unmap ok p m = do check ok; done (record m { held_maps = without p m.held_maps })

module _ (buf_sz_phys : ℕ) (kernel : Kernel) where
  -- The mapping of the mirror; the result tells whether the loop ends.
  unfoldable pub try_mirror : ℕ → ℕ → Mapping → Outcome (Bool × Mapping)
  try_mirror try_num fd m =
      let mirror = add_size m.m_buf buf_sz_phys in
      let res = kernel.mmap_mirror try_num in
      elim (res == mirror) [
        | true ↦ done (true, record m { m_buf_mirror = mirror; held_maps = mirror ∷ m.held_maps })
        | false ↦ do
          check (res == 0)
          m' ← unmap (kernel.munmap try_num) m.m_buf m
          done (false, close_memfd fd (record m' { m_buf = 0; m_buf_mirror = 0 }))
      ]

  -- The first mapping, in which the constructor writes.
  unfoldable pub try_map : ℕ → ℕ → Mapping → Outcome (Bool × Mapping)
  unfolding try_mirror
  try_map try_num fd m =
      let p = kernel.mmap try_num in
      elim (p == 0) [
        | true ↦ done (false, close_memfd fd (record m { m_buf = p }))
        | false ↦ elim (p == map_failed) [
          | true ↦ overrun
          | false ↦ try_mirror try_num fd (record m { m_buf = p; held_maps = p ∷ m.held_maps })
        ]
      ]

  -- One round of the constructor's loop; `memfd_create` fails with -1, and 0 counts as a failure.
  unfoldable pub try_round : ℕ → Mapping → Outcome (Bool × Mapping)
  unfolding try_map
  try_round try_num m = elim (kernel.memfd_create try_num) [
    | none ↦ done (false, record m { m_memfd = none })
    | some fd ↦
        let m' = record m { m_memfd = some fd; held_fds = fd ∷ m.held_fds } in
        elim (fd == 0) [
          | true ↦ done (false, m')
          | false ↦ elim (kernel.ftruncate try_num) [
            | false ↦ done (false, close_memfd fd m')
            | true ↦ try_map try_num fd m'
          ]
        ]
  ]

  -- The loop, with `left` tries to go.
  unfoldable pub try_loop : ℕ → ℕ → Mapping → Outcome Mapping
  try_loop zero try_num m = done m
  try_loop (suc left) try_num m = try_round try_num m >>= λ (ended, m'). elim ended [
    | true ↦ done m'
    | false ↦ try_loop left (suc try_num) m'
  ]

  -- The constructor, for a process that holds nothing else.
  unfoldable pub construct : Outcome Mapping
  construct = do
    m ← try_loop mmap_max_tries 0 unmapped
    check (not (m.m_buf == 0) && not (m.m_buf_mirror == 0))
    done m

-- The destructor, with the results of its two calls of `munmap`.
unfoldable pub destroy : Bool → Bool → Mapping → Outcome Mapping
destroy first second m = do
  m' ← unmap first m.m_buf m
  m'' ← unmap second m.m_buf_mirror (record m' { m_buf = 0 })
  elim m.m_memfd [
    | none ↦ done (record m'' { m_buf_mirror = 0 })
    | some fd ↦ done (close_memfd fd (record m'' { m_buf_mirror = 0 }))
  ]

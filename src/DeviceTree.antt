-- ===== src/DeviceTree.antt =====
-- include/jevmachopp/DeviceTree.h and lib/jevmachopp/DeviceTree.cpp: properties of a device tree and
-- the iterators. The memory that holds the tree is the list of its bytes, a pointer is an offset
-- into it, and the null pointer is none; an access outside of the memory overruns.
pub mod Node
pub mod Patch
pub mod Paths
pub mod Image
mod Tests
use jevmachopp.Base.{
  ℕ, zero, suc, ◌+◌, ◌-◌, ◌/◌, ◌%◌, ◌^◌, List, [], ◌∷◌, ◌++◌, length, take, drop, replicate, Option,
  none, some, Bool, true, false, not, ◌==◌, leb, ltb, if◌then◌else◌, bit_and, Outcome, done,
  aborted, overrun, ◌>>=◌, ◌>>◌, check,
}
use jevmachopp.Memory.{load, store, loaded_uint, c_string, bytes_le}
use jevmachopp.Text.{before_nul}
use jevmachopp.Hex.{little_endian}

-- A pointer that is asserted not to be null.
abbrev pub asserted : Option (List ℕ) → Outcome (List ℕ)
asserted none = aborted
asserted (some s) = done s

-- `PROP_SIZE_REPLACEMENT_TAG`
abbrev pub prop_size_replacement_tag : ℕ
prop_size_replacement_tag = 2 ^ 31

-- `DTRegister`
pub record DtRegister : Type 0 where
  pub base : ℕ
  pub size : ℕ

-- An iterator, of properties and of nodes.
pub record DtIterator : Type 0 where
  pub m_ptr : Option ℕ
  pub m_sz : ℕ

abbrev pub end_iterator : DtIterator
end_iterator = record { m_ptr = none; m_sz = 0 }

abbrev pub make_iterator : ℕ → ℕ → DtIterator
make_iterator ptr sz = if sz == 0 then end_iterator else record { m_ptr = some ptr; m_sz = sz }

abbrev same_pointer : Option ℕ → Option ℕ → Bool
same_pointer none none = true
same_pointer none (some q) = false
same_pointer (some p) none = false
same_pointer (some p) (some q) = p == q

-- `a != b`
abbrev pub iterators_differ : DtIterator → DtIterator → Outcome Bool
iterators_differ a b =
    let diff_ptr = not (same_pointer a.m_ptr b.m_ptr) in
    if diff_ptr then done diff_ptr else do check (a.m_sz == b.m_sz); done diff_ptr

abbrev pub pointer_of : Option ℕ → Outcome ℕ
pointer_of none = overrun
pointer_of (some p) = done p

-- `DTProp::data`
abbrev pub data_at : ℕ → ℕ
data_at p = p + 36

module _ (mem : List ℕ) where
  -- `DTProp::name`
  unfoldable pub prop_name : ℕ → Outcome (List ℕ)
  prop_name p = load mem p 32 >>= λ name_bytes. asserted (before_nul name_bytes)

  -- `setName`, of a string without its terminator.
  unfoldable pub set_name : ℕ → List ℕ → Outcome (List ℕ)
  set_name p new_name = do
    check (ltb (length new_name) 32)
    zeroed ← store mem p (replicate 32 0)
    store zeroed p (new_name ++ (0 ∷ []))

  abbrev pub sz : ℕ → Outcome ℕ
  sz p = loaded_uint 4 mem (p + 32)

  unfoldable pub size_raw : ℕ → Outcome ℕ
  size_raw p = sz p >>= λ s. done (bit_and s (2 ^ 32 - 1 - prop_size_replacement_tag))

  unfoldable pub size_padded : ℕ → Outcome ℕ
  unfolding size_raw
  size_padded p = size_raw p >>= λ s. done (bit_and ((s + 3) % 2 ^ 32) (2 ^ 32 - 1 - 3))

  unfoldable pub is_replacement : ℕ → Outcome Bool
  is_replacement p = sz p >>= λ s. done (not (bit_and s prop_size_replacement_tag == 0))

  unfoldable pub as_u32 : ℕ → Outcome ℕ
  unfolding size_raw
  as_u32 p = do s ← size_raw p; check (s == 4); loaded_uint 4 mem (data_at p)

  unfoldable pub as_u64 : ℕ → Outcome ℕ
  unfolding size_raw
  as_u64 p = do s ← size_raw p; check (s == 8); loaded_uint 8 mem (data_at p)

  unfoldable pub as_reg : ℕ → Outcome DtRegister
  unfolding size_raw
  as_reg p = do
    s ← size_raw p
    check (s == 16)
    b ← loaded_uint 8 mem (data_at p)
    n ← loaded_uint 8 mem (data_at p + 8)
    done (record { base = b; size = n })

  -- The position after a property.
  unfoldable pub next_prop : ℕ → Outcome ℕ
  unfolding size_padded
  next_prop p = size_padded p >>= λ s. done (p + 36 + s)

-- `++`, with the position after an element.
unfoldable pub increment : (ℕ → Outcome ℕ) → DtIterator → Outcome DtIterator
increment next it = do
  p ← pointer_of it.m_ptr
  q ← next p
  done (make_iterator q ((it.m_sz + 2 ^ 32 - 1) % 2 ^ 32))

-- The first element that passes a test, with fuel for the steps.
unfoldable pub iterator_find :
    (ℕ → Outcome ℕ) → (ℕ → Outcome Bool) → ℕ → DtIterator → Outcome (Option ℕ)
unfolding increment
iterator_find next pred zero it = aborted
iterator_find next pred (suc fuel) it = iterators_differ it end_iterator >>= λ more. elim more [
  | false ↦ done none
  | true ↦ pointer_of it.m_ptr >>= λ p. pred p >>= λ found. elim found [
    | true ↦ done (some p)
    | false ↦ increment next it >>= iterator_find next pred fuel
  ]
]

-- `std::accumulate` in 32 bits of the sizes of the elements, with fuel for the steps.
unfoldable pub iterator_sum : (ℕ → Outcome ℕ) → (ℕ → Outcome ℕ) → ℕ → DtIterator → ℕ → Outcome ℕ
unfolding increment
iterator_sum next size zero it accum = aborted
iterator_sum next size (suc fuel) it accum = iterators_differ it end_iterator >>= λ more.
    elim more [
      | false ↦ done accum
      | true ↦ pointer_of it.m_ptr >>= λ p. size p >>= λ s.
          increment next it >>= λ it'. iterator_sum next size fuel it' ((accum + s) % 2 ^ 32)
    ]

-- A loop over the elements, with fuel for the steps.
unfoldable pub iterator_fold {ℓ} :
    {A : Type ℓ} → (ℕ → Outcome ℕ) → (ℕ → A → Outcome A) → ℕ → DtIterator → A → Outcome A
unfolding increment
iterator_fold next body zero it a = aborted
iterator_fold next body (suc fuel) it a = iterators_differ it end_iterator >>= λ more. elim more [
  | false ↦ done a
  | true ↦ pointer_of it.m_ptr >>= λ p.
      body p a >>= λ a'. increment next it >>= λ it'. iterator_fold next body fuel it' a'
]

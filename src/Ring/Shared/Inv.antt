-- ===== src/Ring/Shared/Inv.antt =====
-- include/jevmachopp/RingBuffer.h: the invariant of the shared buffer, and what threads know.
use jevmachopp.Base.{
  ℕ, ◌+◌, ◌^◌, ◌≤◌, ◌<◌, ◌≡◌, ◌≢◌, refl, arith, length, some, get_elem?, take, pow2_pos, ◌==◌,
  Bool-cases, inl, inr,
}
use jevmachopp.Ring.{update, cell_of, rd_full_val}
use jevmachopp.Ring.Shared.{Producer, Consumer, System, start_state, with_consumer}

-- What holds of the new value and of every old one holds after an update.
pub update-rule {ℓ κ} :
    {A : Type ℓ} (P : A → Type κ) (f : ℕ → A) (i : ℕ) (a : A)
    → P a
    → ((j : ℕ) → P (f j))
    → (j : ℕ) → P (update f i a j)
update-rule P f i a pa pf j = elim (Bool-cases (i == j)) [ inl e ↦ rw e pa | inr e ↦ rw e (pf j) ]

-- `load_room` sees a free place: the test of the source is the test for a full buffer.
pub room_test :
    (k rd wr : ℕ)
    → 2 ^ k ≤ 2 ^ 63
    → rd ≤ wr
    → wr < rd + 2 ^ k
    → wr < 2 ^ 64
    → rd ≢ rd_full_val k wr
    → wr + 1 < rd + 2 ^ k
unfolding rd_full_val
room_test k rd wr small ordered fits bounded differ = omega (arith, pow2_pos k)

module _ {A : Type 0} (k : ℕ) where
  -- What the producer's locals say about shared memory.
  abbrev pub ProducerKnows : System A → Producer A → Type 0
  ProducerKnows s Producer.resting = Unit
  ProducerKnows s (Producer.trying x) = Unit
  ProducerKnows s (Producer.loaded x w) =
      (w ≡ s.wr_idx_raw) × (s.wr_idx_raw + 1 < s.rd_idx_raw + 2 ^ k)
  ProducerKnows s (Producer.placed x w) =
      (w ≡ s.wr_idx_raw) × (s.wr_idx_raw + 1 < s.rd_idx_raw + 2 ^ k) × (s.cells (cell_of k w) ≡ x)

  -- What a consumer's locals say: while the read index has not moved, the copy is good.
  abbrev pub ConsumerKnows : System A → Consumer A → Type 0
  ConsumerKnows s Consumer.resting = Unit
  ConsumerKnows s Consumer.trying = Unit
  ConsumerKnows s (Consumer.loaded r) = (r < s.wr_idx_raw) × (r ≤ s.rd_idx_raw)
  ConsumerKnows s (Consumer.copied r v) =
      (r < s.wr_idx_raw) × (r ≤ s.rd_idx_raw) × (s.rd_idx_raw ≡ r → get_elem? s.sent r ≡ some v)
  ConsumerKnows s Consumer.aborted = ⊥

  pub record Inv (s : System A) : Type 0 where
    pub small : 2 ^ k ≤ 2 ^ 63
    pub ordered : s.rd_idx_raw ≤ s.wr_idx_raw
    pub fits : s.wr_idx_raw < s.rd_idx_raw + 2 ^ k
    pub counted : length s.sent ≡ s.wr_idx_raw
    pub bounded : s.wr_idx_raw < 2 ^ 64
    -- The queued values stand in their cells.
    pub queued :
        (j : ℕ)
        → s.rd_idx_raw ≤ j
        → j < s.wr_idx_raw
        → get_elem? s.sent j ≡ some (s.cells (cell_of k j))
    pub taken : s.received ≡ take s.rd_idx_raw s.sent
    pub producer : ProducerKnows s s.producer
    pub consumers : (i : ℕ) → ConsumerKnows s (s.consumers i)

  pub Inv-start : (cells : ℕ → A) → 2 ^ k ≤ 2 ^ 63 → Inv (start_state k cells)
  Inv-start cells small = record {
    small = small;
    ordered = omega arith;
    fits = omega (arith, pow2_pos k);
    counted = refl;
    bounded = omega arith;
    queued = λ j lo hi. absurd (omega arith);
    taken = refl;
    producer = tt;
    consumers = λ i. tt;
  }

  -- A step that changes one consumer alone.
  pub Inv-with_consumer :
      (s : System A) (i : ℕ) (c : Consumer A)
      → Inv s
      → ConsumerKnows s c
      → Inv (with_consumer k s i c)
  Inv-with_consumer s i c inv knows = record {
    small = inv.small;
    ordered = inv.ordered;
    fits = inv.fits;
    counted = inv.counted;
    bounded = inv.bounded;
    queued = inv.queued;
    taken = inv.taken;
    producer = inv.producer;
    consumers = λ j. update-rule (ConsumerKnows s) s.consumers i c knows inv.consumers j;
  }

  -- A step that changes the producer alone.
  pub Inv-with_producer :
      (s : System A) (p : Producer A) → Inv s → ProducerKnows s p → Inv (record s { producer = p })
  Inv-with_producer s p inv knows = record {
    small = inv.small;
    ordered = inv.ordered;
    fits = inv.fits;
    counted = inv.counted;
    bounded = inv.bounded;
    queued = inv.queued;
    taken = inv.taken;
    producer = knows;
    consumers = inv.consumers;
  }

-- ===== src/Ring/Shared.antt =====
-- include/jevmachopp/RingBuffer.h: `MultiConsRingBuffer`, one producer and any number of consumers,
-- as interleavings of their accesses to shared memory. Each access is one step, in the order of the
-- source; the load of the index pair is one access, as `std::atomic` makes it. Memory is
-- sequentially consistent.
pub mod Inv
pub mod Publish
pub mod Take
pub mod Fifo
use jevmachopp.Base.{ℕ, ◌+◌, ◌<◌, ◌≡◌, ◌≢◌, List, [], ◌∷◌, ◌++◌}
use jevmachopp.Ring.{add_size, update, cell_of, rd_full_val}

-- The producer in `emplace(is_atomic_pair && !MultiProd)`.
pub data Producer (A : Type 0) : Type 0 where
  resting : Producer A
  -- the head of the loop, with the value to emplace
  trying : (x : A) → Producer A
  -- after the load of the pair, past the test for a full buffer
  loaded : (x : A) (wr_raw : ℕ) → Producer A
  -- after the placement `new`
  placed : (x : A) (wr_raw : ℕ) → Producer A

-- A consumer in `pop` of the `MultiCons` buffer.
pub data Consumer (A : Type 0) : Type 0 where
  resting : Consumer A
  -- the head of the loop
  trying : Consumer A
  -- after the load of the pair, past the `assert` and the test for an empty buffer
  loaded : (rd_raw : ℕ) → Consumer A
  -- after `res = m_buf[idx]`
  copied : (rd_raw : ℕ) (res : A) → Consumer A
  -- `assert(rd_raw <= wr_raw)` failed
  aborted : Consumer A

-- Shared memory and each thread; `sent` lists the values published, and `received` those that
-- a successful compare-exchange returned, both in order.
pub record System (A : Type 0) : Type 0 where
  pub cells : ℕ → A
  pub rd_idx_raw : ℕ
  pub wr_idx_raw : ℕ
  pub producer : Producer A
  pub consumers : ℕ → Consumer A
  pub sent : List A
  pub received : List A

module _ {A : Type 0} (k : ℕ) where
  abbrev pub with_consumer : System A → ℕ → Consumer A → System A
  with_consumer s i c = record s { consumers = update s.consumers i c }

  -- `wr_idx_raw = wr_raw + 1`, and the return
  abbrev pub published : System A → A → ℕ → System A
  published s x wr_raw = record s {
    wr_idx_raw = add_size wr_raw 1;
    producer = Producer.resting;
    sent = s.sent ++ (x ∷ []);
  }

  -- the store of a compare-exchange that finds `rd_raw`, and the return
  abbrev pub taken_by : System A → ℕ → ℕ → A → System A
  taken_by s i rd_raw res = record s {
    rd_idx_raw = add_size rd_raw 1;
    consumers = update s.consumers i Consumer.resting;
    received = s.received ++ (res ∷ []);
  }

  pub data Step (s : System A) : System A → Type 0 where
    -- the producer's accesses
    call_emplace :
        (x : A) → s.producer ≡ Producer.resting → Step s (record s { producer = Producer.trying x })
    load_full :
        (x : A)
        → s.producer ≡ Producer.trying x
        → s.rd_idx_raw ≡ rd_full_val k s.wr_idx_raw
        → Step s s
    load_room :
        (x : A)
        → s.producer ≡ Producer.trying x
        → s.rd_idx_raw ≢ rd_full_val k s.wr_idx_raw
        → Step s (record s { producer = Producer.loaded x s.wr_idx_raw })
    place :
        (x : A) (wr_raw : ℕ)
        → s.producer ≡ Producer.loaded x wr_raw
        → Step s (record s {
          cells = update s.cells (cell_of k wr_raw) x;
          producer = Producer.placed x wr_raw;
        })
    publish :
        (x : A) (wr_raw : ℕ)
        → s.producer ≡ Producer.placed x wr_raw
        → Step s (record s {
          wr_idx_raw = add_size wr_raw 1;
          producer = Producer.resting;
          sent = s.sent ++ (x ∷ []);
        })
    -- the accesses of consumer `i`
    call_pop :
        (i : ℕ) → s.consumers i ≡ Consumer.resting → Step s (with_consumer s i Consumer.trying)
    load_abort :
        (i : ℕ)
        → s.consumers i ≡ Consumer.trying
        → s.wr_idx_raw < s.rd_idx_raw
        → Step s (with_consumer s i Consumer.aborted)
    load_empty :
        (i : ℕ)
        → s.consumers i ≡ Consumer.trying
        → s.rd_idx_raw ≡ s.wr_idx_raw
        → Step s (with_consumer s i Consumer.resting)
    load_some :
        (i : ℕ)
        → s.consumers i ≡ Consumer.trying
        → s.rd_idx_raw < s.wr_idx_raw
        → Step s (with_consumer s i (Consumer.loaded s.rd_idx_raw))
    copy :
        (i rd_raw : ℕ)
        → s.consumers i ≡ Consumer.loaded rd_raw
        → Step s (with_consumer s i (Consumer.copied rd_raw (s.cells (cell_of k rd_raw))))
    exchange_won :
        (i rd_raw : ℕ) (res : A)
        → s.consumers i ≡ Consumer.copied rd_raw res
        → s.rd_idx_raw ≡ rd_raw
        → Step s (record s {
          rd_idx_raw = add_size rd_raw 1;
          consumers = update s.consumers i Consumer.resting;
          received = s.received ++ (res ∷ []);
        })
    exchange_lost :
        (i rd_raw : ℕ) (res : A)
        → s.consumers i ≡ Consumer.copied rd_raw res
        → s.rd_idx_raw ≢ rd_raw
        → Step s (with_consumer s i Consumer.trying)

  -- The constructed buffer, with every thread outside of a call.
  abbrev pub start_state : (ℕ → A) → System A
  start_state cells = record {
    cells = cells;
    rd_idx_raw = 0;
    wr_idx_raw = 0;
    producer = Producer.resting;
    consumers = λ i. Consumer.resting;
    sent = [];
    received = [];
  }

  pub data Reach (cells : ℕ → A) : System A → Type 0 where
    start : Reach cells (start_state cells)
    later : {s t : System A} → Reach cells s → Step s t → Reach cells t

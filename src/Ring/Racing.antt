-- ===== src/Ring/Racing.antt =====
-- include/jevmachopp/RingBuffer.h: `emplace` with `MultiProd`, any number of producers that claim the
-- write index by a compare-exchange after each has placed its value. Steps are as in `Shared`.
use jevmachopp.Base.{ℕ, ◌^◌, ◌≤◌, ◌<◌, ◌≡◌, ◌≢◌, refl, arith, List, [], ◌∷◌, ◌++◌}
use jevmachopp.Ring.{add_size, update, cell_of, rd_full_val}
use jevmachopp.Ring.Cells.{update_self}

-- A producer in `emplace(is_atomic_pair && MultiProd)`.
pub data Producer (A : Type 0) : Type 0 where
  resting : Producer A
  -- the label `get_pair`
  trying : (x : A) → Producer A
  -- after the load of the pair, past the `assert` and the test for a full buffer
  loaded : (x : A) (wr_raw : ℕ) → Producer A
  -- after the placement `new`
  placed : (x : A) (wr_raw : ℕ) → Producer A
  -- `assert(rd_raw <= wr_raw)` failed
  aborted : Producer A

-- `sent` lists the values whose `emplace` has returned, in the order of their exchanges.
pub record System (A : Type 0) : Type 0 where
  pub cells : ℕ → A
  pub rd_idx_raw : ℕ
  pub wr_idx_raw : ℕ
  pub producers : ℕ → Producer A
  pub sent : List A

module _ {A : Type 0} (k : ℕ) where
  abbrev pub with_producer : System A → ℕ → Producer A → System A
  with_producer s i p = record s { producers = update s.producers i p }

  -- the store of a compare-exchange that finds `wr_raw`, and the return
  abbrev pub claimed_by : System A → ℕ → A → ℕ → System A
  claimed_by s i x wr_raw = record s {
    wr_idx_raw = add_size wr_raw 1;
    producers = update s.producers i Producer.resting;
    sent = s.sent ++ (x ∷ []);
  }

  pub data Step (s : System A) : System A → Type 0 where
    call_emplace :
        (i : ℕ) (x : A)
        → s.producers i ≡ Producer.resting
        → Step s (with_producer s i (Producer.trying x))
    load_abort :
        (i : ℕ) (x : A)
        → s.producers i ≡ Producer.trying x
        → s.wr_idx_raw < s.rd_idx_raw
        → Step s (with_producer s i Producer.aborted)
    load_full :
        (i : ℕ) (x : A)
        → s.producers i ≡ Producer.trying x
        → s.rd_idx_raw ≤ s.wr_idx_raw
        → s.rd_idx_raw ≡ rd_full_val k s.wr_idx_raw
        → Step s s
    load_room :
        (i : ℕ) (x : A)
        → s.producers i ≡ Producer.trying x
        → s.rd_idx_raw ≤ s.wr_idx_raw
        → s.rd_idx_raw ≢ rd_full_val k s.wr_idx_raw
        → Step s (with_producer s i (Producer.loaded x s.wr_idx_raw))
    place :
        (i : ℕ) (x : A) (wr_raw : ℕ)
        → s.producers i ≡ Producer.loaded x wr_raw
        → Step s (record s {
          cells = update s.cells (cell_of k wr_raw) x;
          producers = update s.producers i (Producer.placed x wr_raw);
        })
    exchange_won :
        (i : ℕ) (x : A) (wr_raw : ℕ)
        → s.producers i ≡ Producer.placed x wr_raw
        → s.wr_idx_raw ≡ wr_raw
        → Step s (claimed_by s i x wr_raw)
    exchange_lost :
        (i : ℕ) (x : A) (wr_raw : ℕ)
        → s.producers i ≡ Producer.placed x wr_raw
        → s.wr_idx_raw ≢ wr_raw
        → Step s (with_producer s i (Producer.trying x))

  abbrev pub start_state : (ℕ → A) → System A
  start_state cells = record {
    cells = cells;
    rd_idx_raw = 0;
    wr_idx_raw = 0;
    producers = λ i. Producer.resting;
    sent = [];
  }

  pub data Reach (cells : ℕ → A) : System A → Type 0 where
    start : Reach cells (start_state cells)
    later : {s t : System A} → Reach cells s → Step s t → Reach cells t

not_full : (k : ℕ) → 2 ≤ 2 ^ k → 2 ^ k ≤ 2 ^ 63 → ◌≢◌ {A = ℕ} 0 (rd_full_val k 0)
unfolding rd_full_val
not_full k lo hi = omega arith

module _ {A : Type 0} (k : ℕ) where
  -- With several producers, in any buffer of two to 2^63 cells and for any two values, a state is
  -- reachable in which the first value has been published and is still queued, while its cell holds
  -- the second value, whose own `emplace` has not returned.
  pub published_overwritten :
      (cells : ℕ → A) (a b : A)
      → 2 ≤ 2 ^ k
      → 2 ^ k ≤ 2 ^ 63
      → (s : System A) × Reach k cells s
        × (s.sent ≡ a ∷ [])
        × (s.rd_idx_raw ≡ 0)
        × (s.wr_idx_raw ≡ 1)
        × (s.producers 0 ≡ Producer.resting)
        × (s.producers 1 ≡ Producer.placed b 0)
        × (s.cells (cell_of k 0) ≡ b)
  published_overwritten cells a b lo hi = (
    _,
    later
        (later
          (later
            (later
              (later (later (later start (Step.call_emplace 0 a refl)) (Step.call_emplace 1 b refl))
                (Step.load_room 0 a refl (omega arith) (not_full k lo hi)))
              (Step.load_room 1 b refl (omega arith) (not_full k lo hi)))
            (Step.place 0 a 0 refl))
          (Step.exchange_won 0 a 0 refl refl))
        (Step.place 1 b 0 refl),
    refl,
    refl,
    refl,
    refl,
    refl,
    update_self (update cells (cell_of k 0) a) (cell_of k 0) b,
  )

-- ===== src/Ring/Shared/Publish.antt =====
-- include/jevmachopp/RingBuffer.h: the placement and the publication of the only producer.
use jevmachopp.Base.{
  ℕ, ◌+◌, ◌^◌, ◌≤◌, ◌<◌, ◌≡◌, ◌∙◌, ap, sym, arith, [], ◌∷◌, ◌++◌, length, some, get_elem?,
  length-append, ℕ_discrete, ==-false, get_elem?-append_left, get_elem?-append_last,
  take-append_left, subst,
}
use jevmachopp.Ring.{update, cell_of, add_size}
use jevmachopp.Ring.Cells.{cell_of_ne, update_self}
use jevmachopp.Ring.Shared.{Producer, Consumer, System, published}
use jevmachopp.Ring.Shared.Inv.{ProducerKnows, ConsumerKnows, Inv}

module _ {A : Type 0} (k : ℕ) where
  -- Placing a value touches no queued cell.
  pub Inv-place :
      (s : System A) (x : A) (w : ℕ)
      → Inv k s
      → s.producer ≡ Producer.loaded x w
      → Inv k (record s { cells = update s.cells (cell_of k w) x; producer = Producer.placed x w })
  Inv-place s x w inv e = record {
    small = inv.small;
    ordered = inv.ordered;
    fits = inv.fits;
    counted = inv.counted;
    bounded = inv.bounded;
    queued = λ j lo hi. untouched j lo hi;
    taken = inv.taken;
    producer = (knows.0, knows.1, update_self s.cells (cell_of k w) x);
    consumers = inv.consumers;
  }
    where
      knows : ProducerKnows k s (Producer.loaded x w)
      knows = subst (ProducerKnows k s) e inv.producer

      untouched :
          (j : ℕ)
          → s.rd_idx_raw ≤ j
          → j < s.wr_idx_raw
          → get_elem? s.sent j ≡ some (update s.cells (cell_of k w) x (cell_of k j))
      untouched j lo hi =
          rw
            (==-false (cell_of k w) (cell_of k j)
              (cell_of_ne k j w (omega (arith, knows.0)) (omega (arith, knows.0, knows.1))))
            (inv.queued j lo hi)

  -- A consumer that has copied, or is about to, still stands right after a value is appended.
  ConsumerKnows-publish :
      (s : System A) (x : A) (w : ℕ) (c : Consumer A)
      → length s.sent ≡ s.wr_idx_raw
      → w ≡ s.wr_idx_raw
      → w + 1 < 2 ^ 64
      → ConsumerKnows k s c
      → ConsumerKnows k (published k s x w) c
  ConsumerKnows-publish s x w Consumer.resting n e b h = tt
  ConsumerKnows-publish s x w Consumer.trying n e b h = tt
  ConsumerKnows-publish s x w (Consumer.loaded r) n e b (lo, hi) = (omega arith, hi)
  ConsumerKnows-publish s x w (Consumer.copied r v) n e b (lo, hi, good) =
      (omega arith, hi, λ same. get_elem?-append_left s.sent (x ∷ []) r (omega arith) ∙ good same)
  ConsumerKnows-publish s x w Consumer.aborted n e b h = h

  pub Inv-publish :
      (s : System A) (x : A) (w : ℕ)
      → Inv k s
      → s.producer ≡ Producer.placed x w
      → length (s.sent ++ (x ∷ [])) < 2 ^ 64
      → Inv k (published k s x w)
  Inv-publish s x w inv e bound = record {
    small = inv.small;
    ordered = omega (arith, room, knows.0, inv.ordered);
    fits = omega (arith, room, knows.0, knows.1);
    counted = omega (arith, room, knows.0, inv.counted, length-append s.sent (x ∷ []));
    bounded = omega (arith, room);
    queued = queued';
    taken =
        inv.taken
        ∙ sym (
            take-append_left s.rd_idx_raw s.sent (x ∷ [])
              (omega (arith, inv.ordered, inv.counted)));
    producer = tt;
    consumers =
        λ i. ConsumerKnows-publish s x w (s.consumers i) inv.counted knows.0 room (inv.consumers i);
  }
    where
      knows : ProducerKnows k s (Producer.placed x w)
      knows = subst (ProducerKnows k s) e inv.producer

      room : w + 1 < 2 ^ 64
      room = omega (arith, bound, knows.0, inv.counted, length-append s.sent (x ∷ []))

      last : get_elem? (s.sent ++ (x ∷ [])) s.wr_idx_raw ≡ some (s.cells (cell_of k s.wr_idx_raw))
      last =
          rw (← inv.counted) (get_elem?-append_last s.sent x)
          ∙ ap some (sym (subst (λ (i : ℕ). s.cells (cell_of k i) ≡ x) knows.0 knows.2))

      queued' :
          (j : ℕ)
          → s.rd_idx_raw ≤ j
          → j < add_size w 1
          → get_elem? (s.sent ++ (x ∷ [])) j ≡ some (s.cells (cell_of k j))
      queued' j lo hi = elim (ℕ_discrete j s.wr_idx_raw) [
        | yes at ↦ rw at last
        | no before ↦
            get_elem?-append_left s.sent (x ∷ []) j (omega (arith, inv.counted, knows.0, room))
            ∙ inv.queued j lo (omega (arith, knows.0, room))
      ]

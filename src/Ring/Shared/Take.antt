-- ===== src/Ring/Shared/Take.antt =====
-- include/jevmachopp/RingBuffer.h: the copy and the exchange of a consumer.
use jevmachopp.Base.{
  ℕ, suc, ◌+◌, ◌^◌, ◌<◌, ◌≡◌, ◌∙◌, ap, sym, arith, List, [], ◌∷◌, ◌++◌, take, take-suc, subst,
}
use jevmachopp.Ring.{cell_of}
use jevmachopp.Ring.Shared.{Producer, Consumer, System, with_consumer, taken_by}
use jevmachopp.Ring.Shared.Inv.{update-rule, ProducerKnows, ConsumerKnows, Inv, Inv-with_consumer}

module _ {A : Type 0} (k : ℕ) where
  pub Inv-copy :
      (s : System A) (i r : ℕ)
      → Inv k s
      → s.consumers i ≡ Consumer.loaded r
      → Inv k (with_consumer k s i (Consumer.copied r (s.cells (cell_of k r))))
  Inv-copy s i r inv e =
      Inv-with_consumer k s i (Consumer.copied r (s.cells (cell_of k r))) inv
        (knows.0, knows.1, λ same. inv.queued r (omega arith) knows.0)
    where
      knows : ConsumerKnows k s (Consumer.loaded r)
      knows = subst (ConsumerKnows k s) e (inv.consumers i)

  ConsumerKnows-take :
      (s : System A) (r : ℕ) (v : A) (i : ℕ) (c : Consumer A)
      → s.rd_idx_raw ≡ r
      → r + 1 < 2 ^ 64
      → ConsumerKnows k s c
      → ConsumerKnows k (taken_by k s i r v) c
  ConsumerKnows-take s r v i Consumer.resting e b h = tt
  ConsumerKnows-take s r v i Consumer.trying e b h = tt
  ConsumerKnows-take s r v i (Consumer.loaded q) e b (lo, hi) = (lo, omega arith)
  ConsumerKnows-take s r v i (Consumer.copied q u) e b (lo, hi, good) =
      (lo, omega arith, λ same. absurd (omega arith))
  ConsumerKnows-take s r v i Consumer.aborted e b h = h

  ProducerKnows-take :
      (s : System A) (r : ℕ) (v : A) (i : ℕ) (p : Producer A)
      → s.rd_idx_raw ≡ r
      → r + 1 < 2 ^ 64
      → ProducerKnows k s p
      → ProducerKnows k (taken_by k s i r v) p
  ProducerKnows-take s r v i Producer.resting e b h = tt
  ProducerKnows-take s r v i (Producer.trying x) e b h = tt
  ProducerKnows-take s r v i (Producer.loaded x w) e b (lo, hi) = (lo, omega arith)
  ProducerKnows-take s r v i (Producer.placed x w) e b (lo, hi, at) = (lo, omega arith, at)

  -- The winner of the exchange takes the oldest value.
  pub Inv-take :
      (s : System A) (i r : ℕ) (v : A)
      → Inv k s
      → s.consumers i ≡ Consumer.copied r v
      → s.rd_idx_raw ≡ r
      → Inv k (taken_by k s i r v)
  Inv-take s i r v inv e same = record {
    small = inv.small;
    ordered = omega (arith, small_r, knows.0);
    fits = omega (arith, small_r, inv.fits);
    counted = inv.counted;
    bounded = inv.bounded;
    queued = λ j lo hi. inv.queued j (omega (arith, small_r)) hi;
    taken =
        ap (λ (l : List A). l ++ (v ∷ [])) (inv.taken ∙ ap (λ (n : ℕ). take n s.sent) same)
        ∙ sym (take-suc r s.sent (knows.2 same))
        ∙ ap (λ (n : ℕ). take n s.sent) {x = suc r} (omega (arith, small_r));
    producer = ProducerKnows-take s r v i s.producer same small_r inv.producer;
    consumers =
        update-rule (ConsumerKnows k (taken_by k s i r v)) s.consumers i Consumer.resting tt
          (λ j. ConsumerKnows-take s r v i (s.consumers j) same small_r (inv.consumers j));
  }
    where
      knows : ConsumerKnows k s (Consumer.copied r v)
      knows = subst (ConsumerKnows k s) e (inv.consumers i)

      small_r : r + 1 < 2 ^ 64
      small_r = omega (arith, inv.bounded, knows.0)

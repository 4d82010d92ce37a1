-- ===== src/Ring/Shared/Fifo.antt =====
-- include/jevmachopp/RingBuffer.h: the values sent and received in every reachable state.
use jevmachopp.Base.{
  ℕ, ◌+◌, ◌^◌, ◌≤◌, ◌<◌, ◌≡◌, ◌≢◌, ◌∙◌, refl, ap, arith, [], ◌∷◌, length, take, length-append,
  subst, length-take,
}
use jevmachopp.Ring.Shared.{Producer, Consumer, System, Step, Reach, start, later}
use jevmachopp.Ring.Shared.Inv.{
  ConsumerKnows, Inv, Inv-with_consumer, Inv-with_producer, Inv-start, room_test,
}
use jevmachopp.Ring.Shared.Publish.{Inv-place, Inv-publish}
use jevmachopp.Ring.Shared.Take.{Inv-copy, Inv-take}

module _ {A : Type 0} (k : ℕ) where
  pub Step-Inv : {s t : System A} → Step k s t → Inv k s → length t.sent < 2 ^ 64 → Inv k t
  Step-Inv {s} (Step.call_emplace x e) inv b = Inv-with_producer k s (Producer.trying x) inv tt
  Step-Inv (Step.load_full x e full) inv b = inv
  Step-Inv {s} (Step.load_room x e differ) inv b =
      Inv-with_producer k s (Producer.loaded x s.wr_idx_raw) inv (
        refl,
        room_test k s.rd_idx_raw s.wr_idx_raw inv.small inv.ordered inv.fits inv.bounded differ,
      )
  Step-Inv {s} (Step.place x w e) inv b = Inv-place k s x w inv e
  Step-Inv {s} (Step.publish x w e) inv b = Inv-publish k s x w inv e b
  Step-Inv {s} (Step.call_pop i e) inv b = Inv-with_consumer k s i Consumer.trying inv tt
  Step-Inv {s} (Step.load_abort i e above) inv b = absurd (omega (arith, inv.ordered))
  Step-Inv {s} (Step.load_empty i e same) inv b = Inv-with_consumer k s i Consumer.resting inv tt
  Step-Inv {s} (Step.load_some i e below) inv b =
      Inv-with_consumer k s i (Consumer.loaded s.rd_idx_raw) inv (below, omega arith)
  Step-Inv {s} (Step.copy i r e) inv b = Inv-copy k s i r inv e
  Step-Inv {s} (Step.exchange_won i r v e same) inv b = Inv-take k s i r v inv e same
  Step-Inv {s} (Step.exchange_lost i r v e differ) inv b =
      Inv-with_consumer k s i Consumer.trying inv tt

  Step-sent : {s t : System A} → Step k s t → length s.sent ≤ length t.sent
  Step-sent {s} (Step.publish x w e) = omega (arith, length-append s.sent (x ∷ []))
  Step-sent (Step.call_emplace x e) = omega arith
  Step-sent (Step.load_full x e full) = omega arith
  Step-sent (Step.load_room x e differ) = omega arith
  Step-sent (Step.place x w e) = omega arith
  Step-sent _ = omega arith

  pub Reach-Inv :
      {cells : ℕ → A} {s : System A}
      → 2 ^ k ≤ 2 ^ 63
      → Reach k cells s
      → length s.sent < 2 ^ 64
      → Inv k s
  Reach-Inv {cells} small start b = Inv-start k cells small
  Reach-Inv small (later r st) b = Step-Inv st (Reach-Inv small r (omega (arith, Step-sent st))) b

  -- For at most 2^63 cells, in every interleaving of one producer with any number of consumers, in
  -- sequentially consistent memory and while fewer than 2^64 values are sent, what the consumers
  -- have received is a prefix of what the producer has sent: the values come out in order and each
  -- once, and at most `2 ^ k - 1` are on their way.
  pub received-prefix :
      {cells : ℕ → A} {s : System A}
      → 2 ^ k ≤ 2 ^ 63
      → Reach k cells s
      → length s.sent < 2 ^ 64
      → (s.received ≡ take (length s.received) s.sent)
        × (length s.received ≤ length s.sent)
        × (length s.sent < length s.received + 2 ^ k)
  received-prefix {s} small r b = (
    inv.taken ∙ ap (λ (n : ℕ). take n s.sent) {y = length s.received} (omega (arith, count)),
    omega (arith, count, inv.ordered, inv.counted),
    omega (arith, count, inv.fits, inv.counted),
  )
    where
      inv : Inv k s
      inv = Reach-Inv small r b

      count : length s.received ≡ s.rd_idx_raw
      count =
          rw inv.taken (length-take s.rd_idx_raw s.sent ∙ omega (arith, inv.ordered, inv.counted))

  -- For at most 2^63 cells, in every interleaving of one producer with any number of consumers, in
  -- sequentially consistent memory and while fewer than 2^64 values are sent, no consumer's
  -- `assert` fails.
  pub no_abort :
      {cells : ℕ → A} {s : System A}
      → 2 ^ k ≤ 2 ^ 63
      → Reach k cells s
      → length s.sent < 2 ^ 64
      → (i : ℕ) → s.consumers i ≢ Consumer.aborted
  no_abort {s} small r b i e = subst (ConsumerKnows k s) e ((Reach-Inv small r b).consumers i)

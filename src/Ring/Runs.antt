-- ===== src/Ring/Runs.antt =====
-- include/jevmachopp/RingBuffer.h: whole runs of a client, `push` and `pop` in any order.
use jevmachopp.Base.{
  Outcome, done, aborted, ◌>>=◌, ℕ, ◌+◌, ◌-◌, ◌^◌, ◌≤◌, ◌<◌, ◌≡◌, refl, arith, List, [], ◌∷◌,
  length, Option, none, some, lt→ltb, ltb-false, dec_lt,
}
use jevmachopp.Ring.{RingBuffer, emplace}
use jevmachopp.Ring
use jevmachopp.Ring.Queue.{Op, push, pop, pushes, dequeue, Answers, answer, serve}
use jevmachopp.Ring.Refine.{
  IsValid, contents, length-contents, emplace-full, emplace-room, pop-contents,
}

module _ {ℓ} {A : Type ℓ} (k : ℕ) where
  abbrev record_answer :
      Option A → List (Option A) × RingBuffer A → Outcome (List (Option A) × RingBuffer A)
  record_answer a (outs, r) = done (a ∷ outs, r)

  -- The calls in order, each on the buffer that the one before it left.
  pub run : RingBuffer A → List (Op A) → Outcome (List (Option A) × RingBuffer A)
  run r [] = done ([], r)
  run r (push x ∷ ops) = emplace k r x >>= λ r'. run r' ops >>= record_answer none
  run r (pop ∷ ops) = Ring.pop k r >>= λ p. run p.1 ops >>= record_answer p.0

  -- The buffer's run against the queue's: the same answers, and a failed `assert` where the queue
  -- refuses.
  abbrev pub Agrees : Option (Answers A) → Outcome (List (Option A) × RingBuffer A) → Type ℓ
  Agrees none o = o ≡ aborted
  Agrees (some (outs, q)) o =
      (r : RingBuffer A) × (o ≡ done (outs, r)) × IsValid k r × (contents k r ≡ q)

  Agrees-answer :
      (a : Option A) (spec : Option (Answers A)) (o : Outcome (List (Option A) × RingBuffer A))
      → Agrees spec o
      → Agrees (answer a spec) (o >>= record_answer a)
  Agrees-answer a none o h = rw h
  Agrees-answer a (some (outs, q)) o (r, e, v, c) = (r, rw e, v, c)

  -- From a valid buffer of one producer and one consumer with `2 ^ k` cells, any sequence of pushes
  -- and pops, as long as fewer than 2^64 values are pushed in all, gives what a first-in first-out
  -- queue of at most `2 ^ k - 1` values gives: the same answers, and a valid buffer with the
  -- queue's contents. It ends in a failed `assert` exactly where the queue refuses a push.
  pub run-Agrees :
      (r : RingBuffer A) (ops : List (Op A))
      → IsValid k r
      → r.wr_idx_raw + pushes ops < 2 ^ 64
      → Agrees (serve (2 ^ k - 1) (contents k r) ops) (run r ops)
  unfolding run serve
  run-Agrees r [] v bound = (r, refl, v, refl)
  run-Agrees r (push x ∷ ops) v bound = elim (dec_lt (length (contents k r)) (2 ^ k - 1)) [
    | yes room ↦
        let (r', e, v', c, w) = emplace-room k r x v room (omega arith) in
        rw (lt→ltb _ _ room, e, ← c)
          (Agrees-answer none (serve (2 ^ k - 1) (contents k r') ops) (run r' ops)
            (run-Agrees r' ops v' (omega arith)))
    | no full ↦ rw (ltb-false _ _ (at_least full), emplace-full k r x v (full_length full))
  ]
    where
      at_least : ¬ (length (contents k r) < 2 ^ k - 1) → 2 ^ k - 1 ≤ length (contents k r)
      at_least h = omega arith

      full_length : ¬ (length (contents k r) < 2 ^ k - 1) → length (contents k r) ≡ 2 ^ k - 1
      full_length h = omega (arith, v.fits, v.ordered, length-contents k r)
  run-Agrees r (pop ∷ ops) v bound =
      let (r', e, v', c, w) = pop-contents k r v in
      rw (e, ← c)
        (Agrees-answer (dequeue (contents k r)).0 (serve (2 ^ k - 1) (contents k r') ops)
          (run r' ops) (run-Agrees r' ops v' (omega arith)))

-- ===== src/Ring/Tests.antt =====
-- Runs of the ring buffer on small inputs.
use jevmachopp.Base.{
  ℕ, ◌+◌, ◌-◌, ◌^◌, ◌≤◌, ◌<◌, ◌≡◌, refl, arith, List, [], ◌∷◌, length, take, none, some, done,
  overrun, false, true, ◌≢◌, if◌then◌else◌, ◌>>=◌, ◌==◌, zero, suc, Ensures, inl, ℕ, Ensures, inl,
  suc,
}
use jevmachopp.Ring.{RingBuffer, emplace_multiple, cell_of, rd_full_val}
use jevmachopp.Ring.Queue.{Op, serve, dequeue}
use jevmachopp.Ring.Cells.{window}
use jevmachopp.Ring.Refine.{IsValid, contents}
use jevmachopp.Ring.Runs.{run, Agrees, run-Agrees}
use jevmachopp.Ring.Bulk.{emplace_multiple-overrun}
use jevmachopp.Ring.Shared
use jevmachopp.Ring.Shared.Fifo.{received-prefix, no_abort}
use jevmachopp.Ring.Mapping.{Kernel, construct, destroy, unmapped, map_failed}
use jevmachopp.Ring.Mapping.Held.{IsMirrored, destroy-construct}
use jevmachopp.Ring.Mapping.Retry.{FailsEarly, mapping_at, construct-retry, construct-overrun}
use jevmachopp.Ring.Racing
use jevmachopp.Ring.Racing.{published_overwritten}

-- Four cells, which hold three values, with the indices at 7: one more is the end of the mapping.
abbrev near_end : RingBuffer ℕ
near_end = record { cells = λ i. 0; rd_idx_raw = 7; wr_idx_raw = 7; finished = false }

near_end-IsValid : IsValid 2 near_end
near_end-IsValid = record {
  ordered = omega arith;
  fits = omega arith;
  counted = omega arith;
  small = omega arith;
}

near_end-empty : length (contents 2 near_end) ≡ 0
unfolding contents window
near_end-empty = refl

abbrev calls : List (Op ℕ)
calls = Op.push 3 ∷ Op.push 4 ∷ Op.pop ∷ Op.pop ∷ Op.pop ∷ []

queue_of_calls : serve 3 [] calls ≡ some (none ∷ none ∷ some 3 ∷ some 4 ∷ none ∷ [], [])
unfolding serve dequeue
queue_of_calls = refl

queue_refuses : serve 1 [] calls ≡ none
unfolding serve
queue_refuses = refl

run-Agrees_example : Agrees 2 (serve (2 ^ 2 - 1) (contents 2 near_end) calls) (run 2 near_end calls)
run-Agrees_example = run-Agrees 2 near_end calls near_end-IsValid (omega arith)

emplace_multiple-overrun_example : emplace_multiple 2 near_end (5 ∷ 6 ∷ []) ≡ overrun
emplace_multiple-overrun_example =
    emplace_multiple-overrun 2 near_end (5 ∷ 6 ∷ []) near_end-IsValid
      (omega (arith, near_end-empty)) (omega arith)

room : ◌≢◌ {A = ℕ} 0 (rd_full_val 2 0)
unfolding rd_full_val
room = omega arith

-- A value that went through a shared buffer.
abbrev one_taken : (s : Shared.System ℕ) × Shared.Reach 2 (λ i. 0) s
one_taken = (
  _,
  Shared.Reach.later
      (Shared.Reach.later
        (Shared.Reach.later
          (Shared.Reach.later
            (Shared.Reach.later
              (Shared.Reach.later
                (Shared.Reach.later
                  (Shared.Reach.later Shared.Reach.start (Shared.Step.call_emplace 7 refl))
                  (Shared.Step.load_room 7 refl room))
                (Shared.Step.place 7 0 refl))
              (Shared.Step.publish 7 0 refl))
            (Shared.Step.call_pop 4 refl))
          (Shared.Step.load_some 4 refl (omega arith)))
        (Shared.Step.copy 4 0 refl))
      (Shared.Step.exchange_won 4 0 _ refl refl),
)

received-prefix_example :
    (one_taken.0.received ≡ take (length one_taken.0.received) one_taken.0.sent)
    × (length one_taken.0.received ≤ length one_taken.0.sent)
    × (length one_taken.0.sent < length one_taken.0.received + 2 ^ 2)
received-prefix_example = received-prefix 2 (omega arith) one_taken.1 (omega arith)

no_abort_example : one_taken.0.consumers 4 ≢ Shared.Consumer.aborted
no_abort_example = no_abort 2 (omega arith) one_taken.1 (omega arith) 4

published_overwritten_example :
    (s : Racing.System ℕ) × Racing.Reach 1 (λ i. 0) s
    × (s.sent ≡ 5 ∷ [])
    × (s.rd_idx_raw ≡ 0)
    × (s.wr_idx_raw ≡ 1)
    × (s.producers 0 ≡ Racing.Producer.resting)
    × (s.producers 1 ≡ Racing.Producer.placed 6 0)
    × (s.cells (cell_of 1 0) ≡ 6)
published_overwritten_example = published_overwritten 1 (λ i. 0) 5 6 (omega arith) (omega arith)

-- The first try gets no file; the second one gets all.
abbrev kernel : Kernel
kernel = record {
  memfd_create = λ t. if t == 0 then none else some 5;
  ftruncate = λ t. true;
  mmap = λ t. 0x1000;
  mmap_mirror = λ t. 0x2000;
  munmap = λ t. true;
}

kernel-no_zero : (t : ℕ) → kernel.memfd_create t ≢ some 0
kernel-no_zero t = grind arith

kernel-FailsEarly : (s : ℕ) → s < 1 → FailsEarly kernel s
kernel-FailsEarly zero lt = inl refl
kernel-FailsEarly (suc s) lt = absurd (omega arith)

destroy-construct_example :
    Ensures (IsMirrored 4096) (construct 4096 kernel)
    × Ensures (λ m. m ≡ unmapped) (construct 4096 kernel >>= destroy true true)
destroy-construct_example = destroy-construct 4096 kernel kernel-no_zero

construct-retry_example : construct 4096 kernel ≡ done (mapping_at 4096 5 0x1000)
construct-retry_example =
    construct-retry 4096 kernel 1 5 0x1000 (omega arith) kernel-no_zero kernel-FailsEarly refl refl
      refl (λ e. absurd (omega arith)) (λ e. absurd (omega arith)) (λ e. absurd (omega arith)) refl

-- The same, but that the first mapping fails.
abbrev full_kernel : Kernel
full_kernel = record kernel { mmap = λ t. map_failed }

construct-overrun_example : construct 4096 full_kernel ≡ overrun
construct-overrun_example =
    construct-overrun 4096 full_kernel 1 5 (omega arith) kernel-no_zero kernel-FailsEarly refl refl
      refl

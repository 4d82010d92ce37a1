-- ===== src/XnuBoot/StubEnd.antt =====
-- The search of lib/jevmachopp/XNUBoot.cpp for the end of the stub, `_xnu_jump_stub_end`.
use jevmachopp.Base.{
  ℕ, zero, suc, ◌+◌, ◌<◌, ◌≤◌, List, length, Outcome, done, aborted, ◌≡◌, ◌≢◌, sym, ◌∙◌, arith,
  Ensures, Ensures-weaken, Bool-cases, inl, inr, ==_iff, ◌==◌, ap, ◌⊎◌, Bool, ◌>>=◌, true, false,
}
use jevmachopp.Memory.{loaded_uint}
use jevmachopp.Hex.{little_endian}
use jevmachopp.XnuBoot.Stub.{load-cases}
use jevmachopp.XnuBoot.Prepare.{stub_end}
use jevmachopp.XnuBoot.Moved.{Ensures-knowing}

-- What is found is the mark, at the stub or behind it.
pub stub_end-found :
    (mem : List ℕ) (fuel p : ℕ)
    → Ensures (λ q. (p ≤ q) × (loaded_uint 4 mem q ≡ done 0xdeadbeef)) (stub_end mem fuel p)
unfolding stub_end
stub_end-found mem zero p = tt
stub_end-found mem (suc fuel) p =
    Ensures-knowing {A = ℕ} (λ q. (p ≤ q) × (loaded_uint 4 mem q ≡ done 0xdeadbeef))
      (loaded_uint 4 mem p) _
      λ word read. elim (Bool-cases (word == 0xdeadbeef)) [
        | inl mark ↦
            rw mark (omega arith, read ∙ ap (λ w. done w) ((==_iff word 0xdeadbeef).0 mark))
        | inr other ↦ rw other (
            Ensures-weaken (λ q. (p + 4 ≤ q) × (loaded_uint 4 mem q ≡ done 0xdeadbeef))
              (λ q. (p ≤ q) × (loaded_uint 4 mem q ≡ done 0xdeadbeef)) (stub_end mem fuel (p + 4))
              (stub_end-found mem fuel (p + 4)) λ q (le, e). (omega arith, e))
      ]

-- A word that is read is the mark, or the search goes on behind it.
stub_end-read :
    (mem : List ℕ) (fuel p word : ℕ)
    → loaded_uint 4 mem p ≡ done word
    → (stub_end mem (suc fuel) p ≡ done p) ⊎ (stub_end mem (suc fuel) p ≡ stub_end mem fuel (p + 4))
unfolding stub_end
stub_end-read mem fuel p word read = elim (Bool-cases (word == 0xdeadbeef)) [
  | inl mark ↦ inl (ap (λ m. m >>= λ w. choose (w == 0xdeadbeef)) read ∙ ap choose mark)
  | inr other ↦ inr (ap (λ m. m >>= λ w. choose (w == 0xdeadbeef)) read ∙ ap choose other)
]
  where
    choose : Bool → Outcome ℕ
    choose b = elim b [ true ↦ done p | false ↦ stub_end mem fuel (p + 4) ]

-- With a step of fuel more than memory has bytes behind the stub, the search does not run out of it.
pub stub_end-ends :
    (mem : List ℕ) (fuel p : ℕ) → length mem < p + fuel → stub_end mem (suc fuel) p ≢ aborted
unfolding stub_end
stub_end-ends mem zero p lt = elim (load-cases mem p 4) [
  | inl (bytes, read, four, le) ↦ absurd (omega arith)
  | inr misses ↦ rw misses λ e. cc
]
stub_end-ends mem (suc fuel) p lt = elim (load-cases mem p 4) [
  | inl (bytes, read, four, le) ↦
      elim (stub_end-read mem (suc fuel) p (little_endian bytes)
        (ap (λ m. m >>= λ bs. done (little_endian bs)) read)) [
          | inl found ↦ λ e. cc
          | inr further ↦ λ e. stub_end-ends mem fuel (p + 4) (omega arith) (sym further ∙ e)
        ]
  | inr misses ↦ rw misses λ e. cc
]

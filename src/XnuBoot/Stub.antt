-- ===== src/XnuBoot/Stub.antt =====
-- What `xnu_jump_stub` of lib/jevmachopp/m1n1.cpp does to memory.
use jevmachopp.Base.{
  ℕ, zero, suc, ◌+◌, ◌-◌, ◌*◌, ◌%◌, ◌^◌, ◌<◌, ◌≤◌, List, [], ◌++◌, length, take, drop, ◌≡◌, ◌≢◌,
  refl, ◌∙◌, arith, done, overrun, ◌⊎◌, inl, inr, Bool-cases, ==_iff, leb→le, length-take,
  length-drop, length-append, leb, ◌==◌, inl, inr, Bool-cases, leb, length-append, length-take,
  length-drop, leb→le,
}
use jevmachopp.Memory.{load, store}
use jevmachopp.XnuBoot.{stub_loop, xnu_jump_stub}

-- A load or a store is in memory, or it overruns.
pub load-cases :
    (mem : List ℕ) (p n : ℕ)
    → ((bytes : List ℕ) × (load mem p n ≡ done bytes) × (length bytes ≡ n) × (n ≤ length mem - p))
      ⊎ (load mem p n ≡ overrun)
unfolding load
load-cases mem p n = elim (Bool-cases (length (take n (drop p mem)) == n)) [
  | inl fits ↦
      let e = (==_iff (length (take n (drop p mem))) n).0 fits in
      inl (
        take n (drop p mem),
        rw fits refl,
        e,
        omega (arith, length-take n (drop p mem), length-drop p mem),
      )
  | inr misses ↦ inr (rw misses refl)
]

store-cases :
    (mem : List ℕ) (p : ℕ) (bytes : List ℕ)
    → ((mem' : List ℕ) × (store mem p bytes ≡ done mem') × (length mem' ≡ length mem))
      ⊎ (store mem p bytes ≡ overrun)
unfolding store
store-cases mem p bytes = elim (Bool-cases (leb (p + length bytes) (length mem))) [
  | inl fits ↦ inl (
    take p mem ++ (bytes ++ drop (p + length bytes) mem),
    rw fits refl,
    omega (
      arith,
      length-append (take p mem) (bytes ++ drop (p + length bytes) mem),
      length-append bytes (drop (p + length bytes) mem),
      length-take p mem,
      length-drop (p + length bytes) mem,
      leb→le _ _ fits,
    ),
  )
  | inr misses ↦ inr (rw misses refl)
]

-- A round that does not use the size up.
pub stub_loop-next :
    (fuel : ℕ) (mem mem' bytes : List ℕ) (x1 x2 x3 : ℕ)
    → load mem x1 16 ≡ done bytes
    → store mem x2 bytes ≡ done mem'
    → (x3 + 2 ^ 64 - 16) % 2 ^ 64 ≢ 0
    → stub_loop (suc fuel) mem x1 x2 x3
      ≡ stub_loop fuel mem' (x1 + 16) (x2 + 16) ((x3 + 2 ^ 64 - 16) % 2 ^ 64)
unfolding stub_loop
stub_loop-next fuel mem mem' bytes x1 x2 x3 loaded stored more =
    rw loaded (rw stored (ground arith))

-- The round that uses the size up.
pub stub_loop-last :
    (fuel : ℕ) (mem mem' bytes : List ℕ) (x1 x2 : ℕ)
    → load mem x1 16 ≡ done bytes
    → store mem x2 bytes ≡ done mem'
    → stub_loop (suc fuel) mem x1 x2 16 ≡ done mem'
unfolding stub_loop
stub_loop-last fuel mem mem' bytes x1 x2 loaded stored = rw loaded (rw stored refl)

-- A round that cannot read or write.
stub_loop-outside :
    (fuel : ℕ) (mem bytes : List ℕ) (x1 x2 x3 : ℕ)
    → (load mem x1 16 ≡ overrun) ⊎ ((load mem x1 16 ≡ done bytes) × (store mem x2 bytes ≡ overrun))
    → stub_loop (suc fuel) mem x1 x2 x3 ≡ overrun
unfolding stub_loop
stub_loop-outside fuel mem bytes x1 x2 x3 (inl unread) = rw unread refl
stub_loop-outside fuel mem bytes x1 x2 x3 (inr (loaded, unwritten)) = rw loaded (rw unwritten refl)

-- A size that the rounds do not use up.
stub_loop-overrun :
    (fuel : ℕ) (mem : List ℕ) (x1 x2 x3 : ℕ)
    → x3 % 16 ≢ 0
    → length mem < x1 + 16 + 16 * fuel
    → stub_loop (suc fuel) mem x1 x2 x3 ≡ overrun
stub_loop-overrun zero mem x1 x2 x3 odd enough = elim (load-cases mem x1 16) [
  | inr unread ↦ stub_loop-outside zero mem [] x1 x2 x3 (inl unread)
  | inl (bytes, loaded, len, room) ↦ absurd (omega arith)
]
stub_loop-overrun (suc fuel) mem x1 x2 x3 odd enough = elim (load-cases mem x1 16) [
  | inr unread ↦ stub_loop-outside (suc fuel) mem [] x1 x2 x3 (inl unread)
  | inl (bytes, loaded, len, room) ↦ elim (store-cases mem x2 bytes) [
    | inr unwritten ↦ stub_loop-outside (suc fuel) mem bytes x1 x2 x3 (inr (loaded, unwritten))
    | inl (mem', stored, same) ↦
        stub_loop-next (suc fuel) mem mem' bytes x1 x2 x3 loaded stored (λ e. odd (omega arith))
        ∙ stub_loop-overrun fuel mem' (x1 + 16) (x2 + 16) ((x3 + 2 ^ 64 - 16) % 2 ^ 64)
            (λ e. odd (omega arith)) (omega arith)
  ]
]

-- For an image whose size is not a multiple of 16, in any memory, `xnu_jump_stub` does not end
-- before it loads or stores outside of memory.
pub xnu_jump_stub-overrun :
    (mem : List ℕ) (new_bootargs_addr image_addr new_base image_size image_entry : ℕ)
    → image_size % 16 ≢ 0
    → xnu_jump_stub mem new_bootargs_addr image_addr new_base image_size image_entry ≡ overrun
unfolding xnu_jump_stub
xnu_jump_stub-overrun mem b image_addr new_base size e odd =
    rw (stub_loop-overrun (length mem) mem image_addr new_base size odd (omega arith)) refl

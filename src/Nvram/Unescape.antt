-- ===== src/Nvram/Unescape.antt =====
-- lib/jevmachopp/NVRAM.cpp: `unescapeBytesToData` into a larger destination.
use jevmachopp.Base.{
  Ensures, Ensures-bind, Ensures-weaken, check, bit_and, ℕ, zero, suc, ◌+◌, ◌^◌, ◌≤◌, ◌<◌, ◌≡◌, ◌≢◌,
  refl, ap, ◌∙◌, arith, List, [], ◌∷◌, length, done, Bool, true, false, ltb, lt→ltb, leb, le→leb,
  ◌==◌, ==-false, set, Bool-cases, inl, inr,
}
use jevmachopp.Nvram.{
  add_u32, put, read, fill, unescape_loop, decoded_data_len, unescape_bytes_to_data,
}

length-set : (xs : List ℕ) (i x : ℕ) → length (set xs i x) ≡ length xs
length-set [] i x = refl
length-set (y ∷ xs) zero x = refl
length-set (y ∷ xs) (suc i) x = ap suc (length-set xs i x)

read-Ensures : (xs : List ℕ) (i : ℕ) → Ensures (λ x. i < length xs) (read xs i)
unfolding read
read-Ensures [] i = tt
read-Ensures (y ∷ xs) zero = omega arith
read-Ensures (y ∷ xs) (suc i) =
    Ensures-weaken (λ x. i < length xs) (λ x. suc i < length (y ∷ xs)) (read xs i)
      (read-Ensures xs i) (λ x h. omega arith)

put-Ensures : (xs : List ℕ) (i x : ℕ) → Ensures (λ ys. length ys ≡ length xs) (put xs i x)
unfolding put
put-Ensures xs i x = elim (Bool-cases (ltb i (length xs))) [
  | inl inside ↦ rw inside (length-set xs i x)
  | inr outside ↦ rw outside tt
]

fill-Ensures :
    (n : ℕ) (decoded : List ℕ) (out_off byte count : ℕ)
    → length decoded ≡ n
    → Ensures (λ r. length r.1 ≡ n) (fill decoded out_off byte count)
unfolding fill
fill-Ensures n decoded out_off byte zero h = h
fill-Ensures n decoded out_off byte (suc left) h =
    Ensures-bind (λ ys. length ys ≡ length decoded) (λ r. length r.1 ≡ n) _ _
      (put-Ensures decoded out_off byte)
      (λ ys same. fill-Ensures n ys (add_u32 out_off 1) byte left (same ∙ h))

-- Inside of the source the loop goes on, so it does not return.
unescape_loop-Ensures :
    (fuel : ℕ) (escaped : List ℕ) (offset out_off : ℕ) (decoded : List ℕ)
    → offset ≤ length escaped
    → length escaped < length decoded
    → length decoded < 2 ^ 32
    → length decoded ≤ fuel + offset
    → Ensures (λ buf. ⊥) (unescape_loop fuel escaped offset out_off decoded)
unfolding unescape_loop
unescape_loop-Ensures zero escaped offset out_off decoded inside larger bound enough =
    absurd (omega arith)
unescape_loop-Ensures (suc fuel) escaped offset out_off decoded inside larger bound enough =
    rw (lt→ltb offset (length decoded) (omega arith)) (
      Ensures-bind (λ x. offset < length escaped) (λ buf. ⊥) _ _ (read-Ensures escaped offset)
        (λ byte here. elim (Bool-cases (byte == 0xff)) [
          | inl run ↦ rw run (
              Ensures-bind (λ x. add_u32 offset 1 < length escaped) (λ buf. ⊥) _ _
                (read-Ensures escaped (add_u32 offset 1))
                (λ b there.
                  Ensures-bind (λ r. length r.1 ≡ length decoded) (λ buf. ⊥) _ _
                    (fill-Ensures (length decoded) decoded out_off _ (bit_and b 0x7f) refl)
                    (λ r same.
                      unescape_loop-Ensures fuel escaped (add_u32 (add_u32 offset 1) 1) r.0 r.1
                        (omega arith) (omega arith) (omega arith) (omega arith))))
          | inr one ↦ rw one (
              Ensures-bind (λ r. length r.1 ≡ length decoded) (λ buf. ⊥) _ _
                (fill-Ensures (length decoded) decoded out_off byte 1 refl)
                (λ r same.
                  unescape_loop-Ensures fuel escaped (add_u32 offset 1) r.0 r.1 (omega arith)
                    (omega arith) (omega arith) (omega arith)))
        ]))

-- With a destination that is larger than the escaped bytes and below 2^32 bytes, where
-- `decodedDataLen` gives a length: if it is 0, `unescapeBytesToData` returns 0 and leaves the
-- destination alone; otherwise it does not return, as it fails an `assert` or accesses memory
-- outside of its spans.
pub unescape_bytes_to_data-Ensures :
    (escaped decoded : List ℕ) (total : ℕ)
    → length escaped < length decoded
    → length decoded < 2 ^ 32
    → decoded_data_len escaped ≡ done total
    → (total ≡ 0 → unescape_bytes_to_data escaped decoded ≡ done (0, decoded))
      × (total ≢ 0 → Ensures (λ r. ⊥) (unescape_bytes_to_data escaped decoded))
unfolding unescape_bytes_to_data
unescape_bytes_to_data-Ensures escaped decoded total larger bound counted = (
  λ nothing. rw (le→leb (length escaped) (length decoded) (omega arith), counted, nothing),
  λ some_data.
      rw
        (
          le→leb (length escaped) (length decoded) (omega arith),
          counted,
          ==-false total 0 some_data,
        )
        (Ensures-bind (λ t. Unit) (λ r. ⊥) (check (leb total (length decoded))) _
          (checked (leb total (length decoded)))
          (λ t u.
            Ensures-bind (λ buf. ⊥) (λ r. ⊥) _ _
              (unescape_loop-Ensures (length decoded) escaped 0 0 decoded (omega arith) larger bound
                (omega arith))
              (λ buf no. no))),
)
  where
    checked : (b : Bool) → Ensures (λ t. Unit) (check b)
    checked true = tt
    checked false = tt

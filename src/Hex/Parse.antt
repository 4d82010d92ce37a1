-- ===== src/Hex/Parse.antt =====
-- lib/jevmachopp/Hex.cpp: the loop of `sv2int_hex_helper` over the digits from the last on.
use jevmachopp.Base.{
  ℕ, zero, suc, ◌+◌, ◌-◌, ◌*◌, ◌/◌, ◌%◌, ◌^◌, ◌≤◌, ◌<◌, ◌≡◌, ◌∙◌, refl, ap, arith, List, [], ◌∷◌,
  ◌++◌, length, replicate, some, true, leb, if◌then◌else◌, same_table, agree_below, All,
  length-append, bit_or, bit_and, bit_and_mask, get-middle, set-middle, append_assoc,
}
use jevmachopp.Hex.{ascii_hex_to_nibble, is_hex_digit, hex_loop, little_endian}

-- The nibble of a digit, and the number that digits with the lowest first stand for.
abbrev pub nibble : ℕ → ℕ
nibble chr = if leb chr b'9' then chr - b'0' else chr - b'a' + 0xa

abbrev pub reversed_value : List ℕ → ℕ
reversed_value [] = 0
reversed_value (d ∷ ds) = nibble d + 16 * reversed_value ds

nibble_lem :
    (chr : ℕ)
    → is_hex_digit chr ≡ true
    → (ascii_hex_to_nibble chr ≡ some (nibble chr)) × (nibble chr < 16)
unfolding is_hex_digit ascii_hex_to_nibble
nibble_lem chr h = ground arith

abbrev pub IsHex : ℕ → Type 0
IsHex chr = is_hex_digit chr ≡ true

or_table : (x : ℕ) → x < 256 → bit_or (x % 16) (x / 16 * 16) ≡ x
unfolding same_table
or_table = agree_below 256 (λ x. bit_or (x % 16) (x / 16 * 16)) (λ x. x) refl

or_high : (lo hi : ℕ) → lo < 16 → hi < 16 → bit_or lo (hi * 2 ^ 4) % 2 ^ 8 ≡ lo + 16 * hi
or_high lo hi hl hh = ground (arith, or_table (lo + 16 * hi))

odd_bit : (i : ℕ) → bit_and i 1 ≡ i % 2
odd_bit = bit_and_mask 1

-- The bytes that the digits fill, the lowest digit first, in a buffer of `n` bytes.
abbrev pub filled : List ℕ → ℕ → List ℕ
filled [] n = replicate n 0
filled (lo ∷ []) zero = []
filled (lo ∷ hi ∷ ds) zero = []
filled (lo ∷ []) (suc n) = nibble lo ∷ replicate n 0
filled (lo ∷ hi ∷ ds) (suc n) = (nibble lo + 16 * nibble hi) ∷ filled ds n

even_step :
    (lo : ℕ) (ds : List ℕ) (i : ℕ) (front zeros : List ℕ)
    → i % 2 ≡ 0
    → is_hex_digit lo ≡ true
    → hex_loop (lo ∷ ds) i (length front) (front ++ (0 ∷ zeros))
      ≡ hex_loop ds (i + 1) (length front) (front ++ (nibble lo ∷ zeros))
unfolding hex_loop
even_step lo ds i front zeros even h =
    rw (odd_bit i, even, (nibble_lem lo h).0, get-middle front 0 zeros)
      (rw (stay, stored, set-middle front 0 (nibble lo) zeros))
  where
    stay : length front + 0 ≡ length front
    stay = omega arith

    stored : bit_or 0 (nibble lo * 2 ^ 4) % 2 ^ 8 / 2 ^ 4 ≡ nibble lo
    stored = omega (arith, or_high 0 (nibble lo) (omega arith) (nibble_lem lo h).1)

odd_step :
    (lo hi : ℕ) (ds : List ℕ) (i : ℕ) (front zeros : List ℕ)
    → i % 2 ≡ 1
    → is_hex_digit lo ≡ true
    → is_hex_digit hi ≡ true
    → hex_loop (hi ∷ ds) i (length front) (front ++ (nibble lo ∷ zeros))
      ≡ hex_loop ds (i + 1) (length front + 1) (front ++ ((nibble lo + 16 * nibble hi) ∷ zeros))
unfolding hex_loop
odd_step lo hi ds i front zeros odd hl h =
    rw (odd_bit i, odd, (nibble_lem hi h).0, get-middle front (nibble lo) zeros)
      (rw (stored, set-middle front (nibble lo) (nibble lo + 16 * nibble hi) zeros))
  where
    stored : bit_or (nibble lo) (nibble hi * 2 ^ 4) % 2 ^ 8 / 1 ≡ nibble lo + 16 * nibble hi
    stored = omega (arith, or_high (nibble lo) (nibble hi) (nibble_lem lo hl).1 (nibble_lem hi h).1)

-- From an even digit on, the loop fills the zero bytes that are left.
pub hex_loop-filled :
    (ds : List ℕ) (i : ℕ) (front : List ℕ) (n : ℕ)
    → i % 2 ≡ 0
    → All IsHex ds
    → length ds ≤ n * 2
    → hex_loop ds i (length front) (front ++ replicate n 0) ≡ some (front ++ filled ds n)
hex_loop-filled [] i front n even h fits = unfold hex_loop in refl
hex_loop-filled (lo ∷ []) i front zero even h fits = absurd (omega arith)
hex_loop-filled (lo ∷ hi ∷ ds) i front zero even h fits = absurd (omega arith)
hex_loop-filled (lo ∷ []) i front (suc n) even h fits =
    even_step lo [] i front (replicate n 0) even h.0 ∙ (unfold hex_loop in refl)
hex_loop-filled (lo ∷ hi ∷ ds) i front (suc n) even h fits =
    let byte = nibble lo + 16 * nibble hi in
    even_step lo (hi ∷ ds) i front (replicate n 0) even h.0
    ∙ odd_step lo hi ds (i + 1) front (replicate n 0) (omega arith) h.0 h.1.0
    ∙ rw (← shifted byte, grown byte)
        (hex_loop-filled ds (i + 1 + 1) (front ++ (byte ∷ [])) n (omega arith) h.1.1 (omega arith)
          ∙ ap some (append_assoc front (byte ∷ []) (filled ds n)))
  where
    shifted : (byte : ℕ) → (front ++ (byte ∷ [])) ++ replicate n 0 ≡ front ++ (byte ∷ replicate n 0)
    shifted byte = append_assoc front (byte ∷ []) (replicate n 0)

    grown : (byte : ℕ) → length front + 1 ≡ length (front ++ (byte ∷ []))
    grown byte = omega (arith, length-append front (byte ∷ []))

little_endian-replicate : (n : ℕ) → little_endian (replicate n 0) ≡ 0
little_endian-replicate zero = refl
little_endian-replicate (suc n) = omega (arith, little_endian-replicate n)

pub little_endian-filled :
    (ds : List ℕ) (n : ℕ) → length ds ≤ n * 2 → little_endian (filled ds n) ≡ reversed_value ds
little_endian-filled [] n fits = little_endian-replicate n
little_endian-filled (lo ∷ []) zero fits = absurd (omega arith)
little_endian-filled (lo ∷ hi ∷ ds) zero fits = absurd (omega arith)
little_endian-filled (lo ∷ []) (suc n) fits = omega (arith, little_endian-replicate n)
little_endian-filled (lo ∷ hi ∷ ds) (suc n) fits =
    omega (arith, little_endian-filled ds n (omega arith))

-- ===== src/Hex/Digits.antt =====
-- lib/jevmachopp/Hex.cpp: digits, bytes and `buf2hexstr`.
use jevmachopp.Base.{
  ℕ, ◌+◌, ◌-◌, ◌*◌, ◌≤◌, ◌<◌, ◌≡◌, ◌∙◌, refl, ap, sym, arith, min, List, [], ◌∷◌, ◌++◌, length,
  take, Option, none, some, true, false, leb, if◌then◌else◌, same_table, agree_below, All,
  length-append, length-take, append_assoc, append-nil, le→leb,
}
use jevmachopp.Hex.{
  ascii_hex_to_nibble, ascii_hex_to_byte, byte_to_ascii_hex, is_hex_digit, append_hex, buf2hexstr,
}

-- A character that `is_hex_digit` accepts has a nibble below 16; for any other character
-- `ascii_hex_to_nibble` is undefined.
pub is_hex_digit-nibble :
    (chr : ℕ)
    → (is_hex_digit chr ≡ true → (n : ℕ) × (ascii_hex_to_nibble chr ≡ some n) × (n < 16))
      × (is_hex_digit chr ≡ false → ascii_hex_to_nibble chr ≡ none)
unfolding is_hex_digit ascii_hex_to_nibble
is_hex_digit-nibble chr = (
  λ h. (if leb chr b'9' then chr - b'0' else chr - b'a' + 0xa, ground arith, ground arith),
  λ h. ground arith,
)

-- The byte that the two characters of `o` stand for.
abbrev back : Option (ℕ × ℕ) → Option ℕ
back none = none
back (some (hi, lo)) = ascii_hex_to_byte hi lo

abbrev shown : Option ℕ → ℕ
shown none = 256
shown (some m) = m

byte_table : (n : ℕ) → n < 256 → shown (back (byte_to_ascii_hex n)) ≡ n
unfolding same_table ascii_hex_to_byte byte_to_ascii_hex
byte_table = agree_below 256 (λ n. shown (back (byte_to_ascii_hex n))) (λ n. n) refl

shown-some : (n : ℕ) (o : Option ℕ) → n < 256 → shown o ≡ n → o ≡ some n
shown-some n none h e = absurd (omega arith)
shown-some n (some m) h e = ap some e

back-some :
    (n : ℕ) (o : Option (ℕ × ℕ))
    → back o ≡ some n
    → (hi : ℕ) × (lo : ℕ) × (o ≡ some (hi, lo)) × (ascii_hex_to_byte hi lo ≡ some n)
back-some n none h = cc
back-some n (some (hi, lo)) h = (hi, lo, refl, h)

-- Every byte is written as two characters that are read back as the byte.
pub ascii_hex_to_byte-byte_to_ascii_hex :
    (n : ℕ)
    → n < 256
    → (hi : ℕ) × (lo : ℕ) × (byte_to_ascii_hex n ≡ some (hi, lo))
      × (ascii_hex_to_byte hi lo ≡ some n)
ascii_hex_to_byte-byte_to_ascii_hex n h =
    back-some n (byte_to_ascii_hex n) (shown-some n (back (byte_to_ascii_hex n)) h (byte_table n h))

-- A string reads as the bytes, two characters for each.
abbrev pub Reads : List ℕ → List ℕ → Type 0
Reads [] [] = Unit
Reads [] (b ∷ bytes) = ⊥
Reads (x ∷ []) bytes = ⊥
Reads (x ∷ y ∷ str) [] = ⊥
Reads (x ∷ y ∷ str) (b ∷ bytes) = (ascii_hex_to_byte x y ≡ some b) × Reads str bytes

append_hex-Reads :
    (capacity : ℕ) (done bytes : List ℕ)
    → All (λ b. b < 256) bytes
    → length done + length bytes * 2 ≤ capacity
    → (str : List ℕ) × (append_hex capacity done bytes ≡ some (done ++ str)) × Reads str bytes
unfolding append_hex
append_hex-Reads capacity done [] h fits = ([], ap some (sym (append-nil done)), tt)
append_hex-Reads capacity done (b ∷ bytes) h fits =
    let (hi, lo, e, r) = ascii_hex_to_byte-byte_to_ascii_hex b h.0 in
    let (str, e', rs) =
      append_hex-Reads capacity (done ++ (hi ∷ lo ∷ [])) bytes h.1
        (omega (arith, length-append done (hi ∷ lo ∷ []))) in
    (
      hi ∷ lo ∷ str,
      rw (e, le→leb (length done + 2) capacity (omega arith))
          (e' ∙ ap some (append_assoc done (hi ∷ lo ∷ []) str)),
      (r, rs),
    )

-- `buf2hexstr` does not pass the capacity of its string, and writes two characters for each byte of
-- the buffer, up to both sizes, that `ascii_hex_to_byte` reads back as that byte.
pub buf2hexstr-Reads :
    (max_sz : ℕ) (buf : List ℕ) (buf_sz : ℕ)
    → All (λ b. b < 256) (take (min buf_sz max_sz) buf)
    → (str : List ℕ) × (buf2hexstr max_sz buf buf_sz ≡ some str)
      × Reads str (take (min buf_sz max_sz) buf)
unfolding buf2hexstr
buf2hexstr-Reads max_sz buf buf_sz h =
    append_hex-Reads (max_sz * 2) [] (take (min buf_sz max_sz) buf) h
      (omega (arith, length-take (min buf_sz max_sz) buf))

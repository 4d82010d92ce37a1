-- ===== src/Leb/Back.antt =====
-- lib/jevmachopp/LEB128.cpp: `DecodeUleb128Backwards`, with the bytes of whole numbers.
use jevmachopp.Base.{
  ℕ, zero, suc, ◌+◌, ◌-◌, ◌*◌, ◌%◌, ◌≤◌, ◌<◌, ◌≡◌, ◌∙◌, refl, ap, arith, List, [], ◌∷◌, ◌++◌,
  length, drop, get_or, some, true, false, bit_and, done, same_table, agree_below,
  drop-append_length, length-append, append-nil, ◌/◌, sym,
}
use jevmachopp.Leb.{Decoder, has_more, scan_back, enc_val_start, decode_uleb128_backwards}

-- The bytes of one number: the top bit is set on all but the last.
abbrev pub IsUleb : List ℕ → Type 0
IsUleb [] = ⊥
IsUleb (b ∷ []) = b < 128
IsUleb (b ∷ c ∷ bs) = (128 ≤ b) × (b < 256) × IsUleb (c ∷ bs)

-- Seven bits from each byte, the lowest first.
abbrev pub value : List ℕ → ℕ
value [] = 0
value (b ∷ bs) = b % 128 + 128 * value bs

-- What the source relies on: a number of at most 9 bytes is read whole, whatever follows it.
abbrev pub Decodes : Decoder → Type 0
Decodes decode =
    (enc rest : List ℕ)
    → IsUleb enc
    → length enc ≤ 9
    → decode (enc ++ rest) ≡ (length enc, some (value enc))

-- A position behind these bytes is the end of a number.
abbrev pub EndsNumber : List ℕ → Type 0
EndsNumber [] = Unit
EndsNumber (b ∷ []) = b < 128
EndsNumber (b ∷ c ∷ bs) = EndsNumber (c ∷ bs)

top_bit : (b : ℕ) → b < 256 → bit_and b 0x80 ≡ b / 128 * 128
unfolding same_table
top_bit = agree_below 256 (λ b. bit_and b 0x80) (λ b. b / 128 * 128) refl

pub has_more-inner : (b : ℕ) → 128 ≤ b → b < 256 → has_more b ≡ true
has_more-inner b lo hi = ground (arith, top_bit b)

pub has_more-last : (b : ℕ) → b < 128 → has_more b ≡ false
has_more-last b h = ground (arith, top_bit b)

get_or-append : (xs ys : List ℕ) (j : ℕ) → get_or (xs ++ ys) (length xs + j) 0 ≡ get_or ys j 0
get_or-append [] ys j = ap (λ (i : ℕ). get_or ys i 0) {x = 0 + j} (omega arith)
get_or-append (x ∷ xs) ys j =
    ap (λ (i : ℕ). get_or (x ∷ (xs ++ ys)) i 0) {x = suc (length xs) + j} {y = suc (length xs + j)}
      (omega arith)
    ∙ get_or-append xs ys j

has_more-get_or :
    (enc : List ℕ) (j : ℕ) → IsUleb enc → j + 1 < length enc → has_more (get_or enc j 0) ≡ true
has_more-get_or [] j h lt = absurd h
has_more-get_or (b ∷ []) j h lt = absurd (omega arith)
has_more-get_or (b ∷ c ∷ bs) zero h lt = has_more-inner b h.0 h.1
has_more-get_or (b ∷ c ∷ bs) (suc j) h lt = has_more-get_or (c ∷ bs) j h.2 (omega arith)

has_more-before :
    (b : ℕ) (front enc : List ℕ)
    → EndsNumber (b ∷ front)
    → has_more (get_or (b ∷ front ++ enc) (length front) 0) ≡ false
has_more-before b [] enc h = has_more-last b h
has_more-before b (c ∷ front) enc h = has_more-before c front enc h

scan_back-append :
    (front enc : List ℕ) (j : ℕ)
    → EndsNumber front
    → IsUleb enc
    → j < length enc
    → scan_back (front ++ enc) (length front + j) ≡ length front
unfolding scan_back
scan_back-append [] enc zero ends h lt = refl
scan_back-append (b ∷ front) enc zero ends h lt =
    rw (one_back (length front)) (rw (has_more-before b front enc ends))
  where
    one_back : (n : ℕ) → suc n + 0 ≡ suc n
    one_back n = omega arith
scan_back-append front enc (suc j) ends h lt = rw (one_back (length front)) (
    rw (get_or-append front enc j, has_more-get_or enc j h (omega arith))
      (scan_back-append front enc j ends h (omega arith)))
  where
    one_back : (n : ℕ) → n + suc j ≡ suc (n + j)
    one_back n = omega arith

scan_back-stop :
    (front enc : List ℕ)
    → EndsNumber front
    → IsUleb enc
    → scan_back (front ++ enc) (length (front ++ enc) - 1) ≡ length front
scan_back-stop front [] ends h = absurd h
scan_back-stop front (b ∷ bs) ends h =
    rw (index (length-append front (b ∷ bs)))
      (scan_back-append front (b ∷ bs) (length bs) ends h (omega arith))
  where
    index :
        length (front ++ (b ∷ bs)) ≡ length front + suc (length bs)
        → length (front ++ (b ∷ bs)) - 1 ≡ length front + length bs
    index e = omega arith

-- The loop and the test behind it stop at the first byte of the last number.
enc_val_start-append :
    (front enc : List ℕ)
    → EndsNumber front
    → IsUleb enc
    → enc_val_start (front ++ enc) ≡ length front
unfolding enc_val_start
enc_val_start-append [] enc ends h = rw (scan_back-stop [] enc ends h)
enc_val_start-append (a ∷ []) enc ends h =
    rw (scan_back-stop (a ∷ []) enc ends h, has_more-last a ends)
enc_val_start-append (a ∷ b ∷ front) enc ends h =
    rw (scan_back-stop (a ∷ b ∷ front) enc ends h) (ground arith)

decode-last :
    (decode : Decoder)
    → Decodes decode
    → (front enc : List ℕ) → EndsNumber front
    → IsUleb enc
    → length enc ≤ 9
    → decode (drop (enc_val_start (front ++ enc)) (front ++ enc)) ≡ (length enc, some (value enc))
decode-last decode ok front enc ends h small =
    rw (enc_val_start-append front enc ends h, drop-append_length front enc)
      (ap decode (sym (append-nil enc)) ∙ ok enc [] h small)

-- With a forward decoder that reads numbers of at most 9 bytes, in a buffer that ends with a number
-- of at most 9 bytes behind whole numbers or behind nothing, decoding backwards returns that number
-- and its length, and no `assert` fails.
pub decode_uleb128_backwards-append :
    (decode : Decoder)
    → Decodes decode
    → (front enc : List ℕ) → EndsNumber front
    → IsUleb enc
    → length enc ≤ 9
    → decode_uleb128_backwards decode (front ++ enc) ≡ done (length enc, some (value enc))
unfolding decode_uleb128_backwards
decode_uleb128_backwards-append decode ok [] [] ends h small = absurd h
decode_uleb128_backwards-append decode ok [] (b ∷ []) ends h small =
    rw (has_more-last b h) (ap (λ (v : ℕ). done (1, some v)) {x = b} (omega arith))
decode_uleb128_backwards-append decode ok [] (a ∷ b ∷ bs) ends h small =
    ap done (decode-last decode ok [] (a ∷ b ∷ bs) ends h small)
decode_uleb128_backwards-append decode ok (a ∷ []) [] ends h small = absurd h
decode_uleb128_backwards-append decode ok (a ∷ []) (b ∷ bs) ends h small =
    ap done (decode-last decode ok (a ∷ []) (b ∷ bs) ends h small)
decode_uleb128_backwards-append decode ok (a ∷ b ∷ front) enc ends h small =
    ap done (decode-last decode ok (a ∷ b ∷ front) enc ends h small)

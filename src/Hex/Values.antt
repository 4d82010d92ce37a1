-- ===== src/Hex/Values.antt =====
-- include/jevmachopp/Hex.h: `sv2int`, with the numbers that digits stand for.
use mathlib.Core.List.{reverse, reverse-append, reverse-reverse}
use mathlib.Core.Bool.{and-false}
use native.Mathlib.Nat.{zero-mod, mod-add-mod, mod-add-div', add-mul-mod_self_right}
use jevmachopp.Base.{
  ℕ, suc, ◌+◌, ◌-◌, ◌*◌, ◌/◌, ◌%◌, ◌^◌, ◌≤◌, ◌<◌, ◌≡◌, ◌∙◌, refl, ap, sym, arith, List, [], ◌∷◌,
  ◌++◌, length, replicate, none, some, Bool, true, false, ltb, All, length-append, subst, lt→ltb,
  All-append, length-replicate, ltb-false,
}
use jevmachopp.Hex.{
  is_hex_digit, is_decimal_digit, all_of, hex_loop, sv2int_hex_helper, little_endian, decimal_loop,
  sv2int, ascii_digit_to_int, starts_with_0x,
}
use jevmachopp.Hex.Parse.{nibble, reversed_value, filled, hex_loop-filled, little_endian-filled}

-- The numbers that hexadecimal and decimal digits stand for, read from the left.
abbrev pub hex_value : ℕ → List ℕ → ℕ
hex_value acc [] = acc
hex_value acc (d ∷ ds) = hex_value (acc * 16 + nibble d) ds

abbrev pub decimal_value : ℕ → List ℕ → ℕ
decimal_value acc [] = acc
decimal_value acc (d ∷ ds) = decimal_value (acc * 10 + (d - b'0')) ds

hex_value-snoc :
    (acc : ℕ) (ds : List ℕ) (d : ℕ)
    → hex_value acc (ds ++ (d ∷ [])) ≡ hex_value acc ds * 16 + nibble d
hex_value-snoc acc [] d = refl
hex_value-snoc acc (x ∷ ds) d = hex_value-snoc (acc * 16 + nibble x) ds d

hex_value-reverse : (ds : List ℕ) → hex_value 0 (reverse ds) ≡ reversed_value ds
hex_value-reverse [] = refl
hex_value-reverse (d ∷ ds) =
    ap (hex_value 0) (reverse-append (d ∷ []) ds)
    ∙ (hex_value-snoc 0 (reverse ds) d ∙ omega (arith, hex_value-reverse ds))

reversed_value-reverse : (ds : List ℕ) → reversed_value (reverse ds) ≡ hex_value 0 ds
reversed_value-reverse ds =
    sym (hex_value-reverse (reverse ds)) ∙ ap (hex_value 0) (reverse-reverse ds)

length-reverse : (ds : List ℕ) → length (reverse ds) ≡ length ds
length-reverse [] = refl
length-reverse (d ∷ ds) =
    ap (λ (l : List ℕ). length l) (reverse-append (d ∷ []) ds)
    ∙ omega (arith, length-append (reverse ds) (d ∷ []), length-reverse ds)

All-reverse : (P : ℕ → Type 0) (ds : List ℕ) → All P ds → All P (reverse ds)
All-reverse P [] h = tt
All-reverse P (d ∷ ds) h =
    subst (All P) (sym (reverse-append (d ∷ []) ds))
      (All-append P (reverse ds) (d ∷ []) (All-reverse P ds h.1) (h.0, tt))

all_of-All : (p : ℕ → Bool) (ds : List ℕ) → all_of p ds ≡ true → All (λ d. p d ≡ true) ds
unfolding all_of
all_of-All p [] h = tt
all_of-All p (d ∷ ds) h = (ground arith, all_of-All p ds (ground arith))

hex_loop-value :
    (sz : ℕ) (digits : List ℕ)
    → all_of is_hex_digit digits ≡ true
    → length digits ≤ sz * 2
    → hex_loop (reverse digits) 0 0 (replicate sz 0) ≡ some (filled (reverse digits) sz)
hex_loop-value sz digits good fits =
    hex_loop-filled (reverse digits) 0 [] sz refl
      (All-reverse (λ d. is_hex_digit d ≡ true) digits (all_of-All is_hex_digit digits good))
      (omega (arith, length-reverse digits))

filled-value :
    (sz : ℕ) (digits : List ℕ)
    → length digits ≤ sz * 2
    → little_endian (filled (reverse digits) sz) ≡ hex_value 0 digits
filled-value sz digits fits =
    little_endian-filled (reverse digits) sz (omega (arith, length-reverse digits))
    ∙ reversed_value-reverse digits

long_enough : (digits : List ℕ) → 0 < length digits → ltb 2 (suc (suc (length digits))) ≡ true
long_enough digits pos = lt→ltb 2 (suc (suc (length digits))) (omega arith)

-- Text that is `0x` and one or more characters: hexadecimal digits that fit into the `sz` bytes of
-- the type give the number they stand for; more characters than that, or any other character, are
-- rejected. Nothing is undefined behaviour.
pub sv2int-hex :
    (sz : ℕ) (digits : List ℕ)
    → 0 < length digits
    → (all_of is_hex_digit digits ≡ true
        → length digits ≤ sz * 2
        → sv2int sz (b'0' ∷ b'x' ∷ digits) ≡ some (some (hex_value 0 digits)))
      × (sz * 2 < length digits → sv2int sz (b'0' ∷ b'x' ∷ digits) ≡ some none)
      × (all_of is_hex_digit digits ≡ false → sv2int sz (b'0' ∷ b'x' ∷ digits) ≡ some none)
unfolding sv2int sv2int_hex_helper
sv2int-hex sz digits pos = (
  λ good fits. rw (
    long_enough digits pos,
    size,
    ltb-false (sz * 2) (length digits) fits,
    good,
    hex_loop-value sz digits good fits,
    filled-value sz digits fits,
  ),
  λ long. rw (long_enough digits pos, size, lt→ltb (sz * 2) (length digits) long),
  λ bad. rw (long_enough digits pos, size, bad) (ground arith),
)
  where
    size : length {A = ℕ} (replicate sz 0) ≡ sz
    size = length-replicate {A = ℕ} sz 0

ascii_digit_to_int_lem : (d : ℕ) → is_decimal_digit d ≡ true → ascii_digit_to_int d ≡ d - b'0'
unfolding is_decimal_digit ascii_digit_to_int
ascii_digit_to_int_lem d h = ground arith

times_ten-mod : (n m : ℕ) → n % m * 10 % m ≡ n * 10 % m
times_ten-mod n m =
    sym (ap (λ (t : ℕ). t % m) split ∙ add-mul-mod_self_right (n % m * 10) (n / m * 10) m)
  where
    split : n * 10 ≡ n % m * 10 + n / m * 10 * m
    split = omega (arith, mod-add-div' n m)

decimal_loop_lem :
    (sz acc : ℕ) (ds : List ℕ)
    → all_of is_decimal_digit ds ≡ true
    → decimal_loop sz (acc % 2 ^ (8 * sz)) ds ≡ decimal_value acc ds % 2 ^ (8 * sz)
unfolding decimal_loop all_of
decimal_loop_lem sz acc [] good = refl
decimal_loop_lem sz acc (d ∷ ds) good =
    rw
      (
        ascii_digit_to_int_lem d (ground arith),
        times_ten-mod acc (2 ^ (8 * sz)),
        mod-add-mod (acc * 10) (2 ^ (8 * sz)) (d - b'0'),
      )
      (decimal_loop_lem sz (acc * 10 + (d - b'0')) ds (ground arith))

decimal_loop-value :
    (sz : ℕ) (text : List ℕ)
    → all_of is_decimal_digit text ≡ true
    → decimal_loop sz 0 text ≡ decimal_value 0 text % 2 ^ (8 * sz)
decimal_loop-value sz text good =
    ap (λ (r : ℕ). decimal_loop sz r text) (sym (zero-mod (2 ^ (8 * sz))))
    ∙ decimal_loop_lem sz 0 text good

decimal_is_no_prefix :
    (text : List ℕ) → all_of is_decimal_digit text ≡ true → starts_with_0x text ≡ false
unfolding all_of is_decimal_digit
decimal_is_no_prefix [] good = refl
decimal_is_no_prefix (a ∷ []) good = refl
decimal_is_no_prefix (a ∷ b ∷ cs) good = ground arith

-- Decimal digits give their value modulo the range of a type of `sz` bytes, however many they are;
-- text that has another character and does not begin with `0x` is rejected.
pub sv2int-decimal :
    (sz : ℕ) (text : List ℕ)
    → (all_of is_decimal_digit text ≡ true
        → sv2int sz text ≡ some (some (decimal_value 0 text % 2 ^ (8 * sz))))
      × (all_of is_decimal_digit text ≡ false
          → starts_with_0x text ≡ false
          → sv2int sz text ≡ some none)
unfolding sv2int
sv2int-decimal sz text = (
  λ good.
      rw (decimal_is_no_prefix text good, good, and-false (ltb 2 (length text)))
        (ap (λ (n : ℕ). some (some n)) (decimal_loop-value sz text good)),
  λ bad plain. rw (plain, bad, and-false (ltb 2 (length text))),
)

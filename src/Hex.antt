-- ===== src/Hex.antt =====
-- lib/jevmachopp/Hex.cpp and include/jevmachopp/Hex.h: hexadecimal digits and parsing of integers. A
-- string is the list of its bytes.
pub mod Digits
pub mod Parse
pub mod Values
mod Tests
use jevmachopp.Base.{
  ℕ, drop, ◌+◌, ◌-◌, ◌*◌, ◌/◌, ◌%◌, ◌^◌, min, List, [], ◌∷◌, ◌++◌, length, take, replicate,
  get_elem?, Option, none, some, Bool, true, false, not, ◌&&◌, ◌||◌, ltb, leb, ◌==◌, if◌then◌else◌,
  bit_and, bit_or, set,
}
use mathlib.Core.List.{reverse}
use mathlib.Core.Option

-- `none` is `__builtin_unreachable`.
unfoldable pub ascii_hex_to_nibble : ℕ → Option ℕ
ascii_hex_to_nibble chr =
    if leb b'0' chr && leb chr b'9'
    then some (chr - b'0')
    else (if leb b'a' chr && leb chr b'f' then some (chr - b'a' + 0xa) else none)

unfoldable pub nibble_to_ascii_hex : ℕ → Option ℕ
nibble_to_ascii_hex chr =
    if leb chr 9
    then some (chr + b'0')
    else (if leb 0xa chr && leb chr 0xf then some (chr - 0xa + b'a') else none)

infixl 5 ◌>>=◌
abbrev ◌>>=◌ {ℓ κ} : {A : Type ℓ} {B : Type κ} → Option A → (A → Option B) → Option B
none >>= f = none
some a >>= f = f a

unfoldable pub ascii_hex_to_byte : ℕ → ℕ → Option ℕ
unfolding ascii_hex_to_nibble
ascii_hex_to_byte hex0 hex1 = do
  hi ← ascii_hex_to_nibble hex0
  lo ← ascii_hex_to_nibble hex1
  some (bit_or (hi * 2 ^ 4) lo % 2 ^ 8)

-- The two characters that are stored.
unfoldable pub byte_to_ascii_hex : ℕ → Option (ℕ × ℕ)
unfolding nibble_to_ascii_hex
byte_to_ascii_hex n = do
  hi ← nibble_to_ascii_hex (n / 2 ^ 4)
  lo ← nibble_to_ascii_hex (bit_and n 0xf)
  some (hi, lo)

unfoldable pub ascii_digit_to_int : ℕ → ℕ
ascii_digit_to_int chr = (chr + 2 ^ 8 - b'0') % 2 ^ 8

unfoldable pub is_decimal_digit : ℕ → Bool
is_decimal_digit chr = leb b'0' chr && leb chr b'9'

unfoldable pub is_hex_digit : ℕ → Bool
unfolding is_decimal_digit
is_hex_digit chr = is_decimal_digit chr || leb b'a' chr && leb chr b'f'

-- The loop of `buf2hexstr`; `none` also when the string's capacity is passed.
unfoldable pub append_hex : ℕ → List ℕ → List ℕ → Option (List ℕ)
unfolding byte_to_ascii_hex
append_hex capacity hexstr [] = some hexstr
append_hex capacity hexstr (n ∷ bytes) =
    let rest = λ (p : ℕ × ℕ). append_hex capacity (hexstr ++ (p.0 ∷ p.1 ∷ [])) bytes in
    byte_to_ascii_hex n >>= λ p. if leb (length hexstr + 2) capacity then rest p else none

-- `buf2hexstr`, for a buffer of at least `min buf_sz max_sz` bytes.
unfoldable pub buf2hexstr : ℕ → List ℕ → ℕ → Option (List ℕ)
unfolding append_hex
buf2hexstr max_sz buf buf_sz = append_hex (max_sz * 2) [] (take (min buf_sz max_sz) buf)

unfoldable pub all_of : (ℕ → Bool) → List ℕ → Bool
all_of p [] = true
all_of p (c ∷ cs) = p c && all_of p cs

-- The loop of `sv2int_hex_helper` over the reversed digits, at digit `i` and byte `p`. `none` is an
-- access outside of the buffer or an unreachable digit.
unfoldable pub hex_loop : List ℕ → ℕ → ℕ → List ℕ → Option (List ℕ)
unfolding ascii_hex_to_nibble
hex_loop [] i p buf = some buf
hex_loop (hd ∷ hds) i p buf =
    let odd = bit_and i 1 in
    let rest = λ (byte : ℕ). hex_loop hds (i + 1) (p + odd) (set buf p byte) in
    ascii_hex_to_nibble hd >>= λ nibble. get_elem? buf p >>= λ old.
    rest (bit_or old (nibble * 2 ^ 4) % 2 ^ 8 / (if odd == 0 then 2 ^ 4 else 1))

-- The buffer after the call if it returns true; the outer `none` is undefined behaviour, the inner
-- one a return of false.
unfoldable pub sv2int_hex_helper : List ℕ → List ℕ → Option (Option (List ℕ))
unfolding is_hex_digit all_of hex_loop
sv2int_hex_helper hexdigits int_buf =
    if ltb (length int_buf * 2) (length hexdigits)
    then some none
    else (if not (all_of is_hex_digit hexdigits)
        then some none
        else (hex_loop (reverse hexdigits) 0 0 int_buf >>= λ buf. some (some buf)))

-- The bytes of an unsigned integer, the lowest first.
abbrev pub little_endian : List ℕ → ℕ
little_endian [] = 0
little_endian (b ∷ bs) = b + 2 ^ 8 * little_endian bs

-- `res *= 10; res += digit`, in a type of `sz` bytes.
unfoldable pub decimal_loop : ℕ → ℕ → List ℕ → ℕ
unfolding ascii_digit_to_int
decimal_loop sz res [] = res
decimal_loop sz res (d ∷ ds) =
    decimal_loop sz ((res * 10 % 2 ^ (8 * sz) + ascii_digit_to_int d) % 2 ^ (8 * sz)) ds

abbrev starts_with_0x : List ℕ → Bool
starts_with_0x [] = false
starts_with_0x (a ∷ []) = false
starts_with_0x (a ∷ b ∷ cs) = a == b'0' && b == b'x'

-- `sv2int` into an unsigned type of `sz` bytes; the outer `none` is undefined behaviour.
unfoldable pub sv2int : ℕ → List ℕ → Option (Option ℕ)
unfolding sv2int_hex_helper decimal_loop
sv2int sz sv =
    if ltb 2 (length sv) && starts_with_0x sv
    then (sv2int_hex_helper (drop 2 sv) (replicate sz 0) >>= λ r. some (Option.map little_endian r))
    else (if not (all_of is_decimal_digit sv)
        then some none
        else some (some (decimal_loop sz 0 sv)))

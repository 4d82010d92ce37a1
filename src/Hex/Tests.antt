-- ===== src/Hex/Tests.antt =====
-- Hexadecimal digits and numbers on small inputs.
use jevmachopp.Base.{
  ℕ, ◌%◌, ◌*◌, ◌^◌, ◌≤◌, ◌<◌, ◌≡◌, refl, arith, List, [], ◌∷◌, length, take, min, none, some, true,
  false,
}
use jevmachopp.Hex.{is_hex_digit, all_of, buf2hexstr, sv2int}
use jevmachopp.Hex.Digits.{Reads, buf2hexstr-Reads}
use jevmachopp.Hex.Values.{hex_value, decimal_value, sv2int-hex}

abbrev bytes : List ℕ
bytes = 0xde ∷ 0xad ∷ 0x01 ∷ []

buf2hexstr-Reads_example :
    (str : List ℕ) × (buf2hexstr 2 bytes 3 ≡ some str) × Reads str (take (min 3 2) bytes)
buf2hexstr-Reads_example = buf2hexstr-Reads 2 bytes 3 (omega arith, (omega arith, tt))

abbrev digits : List ℕ
digits = b'1' ∷ b'f' ∷ b'4' ∷ []

digits_value : hex_value 0 digits ≡ 0x1f4
digits_value = refl

sv2int-hex_example :
    (all_of is_hex_digit digits ≡ true
      → length digits ≤ 2 * 2
      → sv2int 2 (b'0' ∷ b'x' ∷ digits) ≡ some (some (hex_value 0 digits)))
    × (2 * 2 < length digits → sv2int 2 (b'0' ∷ b'x' ∷ digits) ≡ some none)
    × (all_of is_hex_digit digits ≡ false → sv2int 2 (b'0' ∷ b'x' ∷ digits) ≡ some none)
sv2int-hex_example = sv2int-hex 2 digits (omega arith)

-- 300 does not fit into a byte.
abbrev text : List ℕ
text = b'3' ∷ b'0' ∷ b'0' ∷ []

text_overflows : decimal_value 0 text % 2 ^ (8 * 1) ≡ 44
text_overflows = refl

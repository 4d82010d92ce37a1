-- ===== src/Nvram.antt =====
-- lib/jevmachopp/NVRAM.cpp: names and values of variables, and the escape coding of binary data. A
-- string is the list of its bytes before the terminator, and none for a null pointer.
pub mod Vars
pub mod Coding
pub mod Escape
pub mod Unescape
pub mod Partition
pub mod BootArgs
mod Tests
use jevmachopp.Base.{
  ℕ, zero, suc, ◌+◌, ◌%◌, ◌^◌, List, [], ◌∷◌, length, Option, none, some, Bool, ◌||◌, ◌&&◌, ltb,
  leb, ◌==◌, if◌then◌else◌, bit_and, bit_or, set, Outcome, done, aborted, overrun, ◌>>=◌, ◌>>◌,
  check,
}
use mathlib.Core.Option

-- `strchr(s, '=')`: what stands before the character, and what stands behind it.
unfoldable pub split_at_eq : List ℕ → Option (List ℕ × List ℕ)
split_at_eq [] = none
split_at_eq (c ∷ cs) =
    let rest = Option.map (λ (p : List ℕ × List ℕ). (c ∷ p.0, p.1)) (split_at_eq cs) in
    if c == b'=' then some ([], cs) else rest

abbrev or_empty : Option (List ℕ × List ℕ) → List ℕ
or_empty none = []
or_empty (some (name, value)) = name

-- `varName`; an empty view also where there is no name.
unfoldable pub var_name : Option (List ℕ) → List ℕ
unfolding split_at_eq
var_name none = []
var_name (some var_eq_val_str) = or_empty (split_at_eq var_eq_val_str)

-- `varValue`
unfoldable pub var_value : Option (List ℕ) → Option (List ℕ)
unfolding split_at_eq
var_value none = none
var_value (some var_eq_val_str) =
    Option.map (λ (p : List ℕ × List ℕ). p.1) (split_at_eq var_eq_val_str)

-- A sum in `uint32_t`.
abbrev pub add_u32 : ℕ → ℕ → ℕ
add_u32 a b = (a + b) % 2 ^ 32

-- The loop of `decodedDataLen`, with the `ok` of its return. A read behind the span is an overrun.
unfoldable pub len_loop : ℕ → List ℕ → Outcome ℕ
len_loop total [] = done total
len_loop total (byte ∷ []) = if byte == 0xff then overrun else done (add_u32 total 1)
len_loop total (byte ∷ next ∷ rest) =
    let plain = λ (t : ℕ). len_loop t (next ∷ rest) in
    let pair = λ (t : ℕ). len_loop t rest in
    if byte == 0xff
    then (if next == 0 then done 0 else pair (add_u32 total (bit_and next 0x7f)))
    else plain (add_u32 total 1)

unfoldable pub decoded_data_len : List ℕ → Outcome ℕ
unfolding len_loop
decoded_data_len escaped = len_loop 0 escaped

-- The inner `for` of `escapeDataToData`: the length of the run of `byte`, of which `n` are behind
-- `wherePtr`, and the data behind it.
unfoldable pub run_end : ℕ → ℕ → List ℕ → ℕ × List ℕ
run_end byte n [] = (n, [])
run_end byte n (b ∷ bs) =
    let rest = run_end byte (n + 1) bs in if ltb n 0x7f && byte == b then rest else (n, b ∷ bs)

-- `encoded[i] = x`
unfoldable pub put : List ℕ → ℕ → ℕ → Outcome (List ℕ)
put encoded i x = if ltb i (length encoded) then done (set encoded i x) else overrun

-- The `while` of `escapeDataToData`, with fuel for its rounds: the offset and the buffer.
unfoldable pub escape_loop : ℕ → List ℕ → ℕ → List ℕ → Outcome (ℕ × List ℕ)
unfolding run_end put
escape_loop fuel [] out_off encoded = done (out_off, encoded)
escape_loop zero (byte ∷ bs) out_off encoded = aborted
escape_loop (suc fuel) (byte ∷ bs) out_off encoded =
    let again = λ (rest : List ℕ) (off : ℕ) (buf : List ℕ). escape_loop fuel rest off buf in
    let run = run_end byte 1 bs in
    if byte == 0x00 || byte == 0xff
    then (put encoded out_off 0xff >>= λ buf1.
        put buf1 (add_u32 out_off 1) (bit_or (bit_and byte 0x80) (run.0 % 2 ^ 8)) >>= λ buf2.
        again run.1 (add_u32 (add_u32 out_off 1) 1) buf2)
    else (put encoded out_off byte >>= λ buf1. again bs (add_u32 out_off 1) buf1)

unfoldable pub escape_data_to_data : List ℕ → List ℕ → Outcome (ℕ × List ℕ)
unfolding escape_loop put
escape_data_to_data decoded encoded = do
  check (leb (length decoded) (length encoded))
  r ← escape_loop (length decoded) decoded 0 encoded
  buf ← put r.1 r.0 0
  check (leb (add_u32 r.0 1) (length buf))
  done (add_u32 r.0 1, buf)

-- `escaped[i]`
unfoldable pub read : List ℕ → ℕ → Outcome ℕ
read [] i = overrun
read (x ∷ xs) zero = done x
read (x ∷ xs) (suc i) = read xs i

-- The inner `for` of `unescapeBytesToData`: the offset and the buffer behind it.
unfoldable pub fill : List ℕ → ℕ → ℕ → ℕ → Outcome (ℕ × List ℕ)
unfolding put
fill decoded out_off byte zero = done (out_off, decoded)
fill decoded out_off byte (suc left) =
    let again = λ (buf : List ℕ). fill buf (add_u32 out_off 1) byte left in
    put decoded out_off byte >>= again

-- The outer `for` of `unescapeBytesToData`, with fuel for its rounds: one for each index of the
-- destination, so that it ends with the fuel at the latest.
unfoldable pub unescape_loop : ℕ → List ℕ → ℕ → ℕ → List ℕ → Outcome (List ℕ)
unfolding read fill
unescape_loop zero escaped offset out_off decoded = done decoded
unescape_loop (suc fuel) escaped offset out_off decoded =
    let again = λ (i : ℕ) (r : ℕ × List ℕ). unescape_loop fuel escaped i r.0 r.1 in
    let repeat = λ (b : ℕ).
      fill decoded out_off (if bit_and b 0x80 == 0 then 0x00 else 0xff) (bit_and b 0x7f) in
    if ltb offset (length decoded)
    then (read escaped offset >>= λ byte.
        if byte == 0xff
        then (read escaped (add_u32 offset 1) >>= λ b.
            repeat b >>= again (add_u32 (add_u32 offset 1) 1))
        else (fill decoded out_off byte 1 >>= again (add_u32 offset 1)))
    else done decoded

-- `unescapeBytesToData`: what it returns, and the buffer.
unfoldable pub unescape_bytes_to_data : List ℕ → List ℕ → Outcome (ℕ × List ℕ)
unfolding decoded_data_len unescape_loop
unescape_bytes_to_data escaped decoded = do
  check (leb (length escaped) (length decoded))
  total ← decoded_data_len escaped
  (if total == 0 then done (total, decoded) else do
    check (leb total (length decoded))
    buf ← unescape_loop (length decoded) escaped 0 0 decoded
    done (total, buf))

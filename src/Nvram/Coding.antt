-- ===== src/Nvram/Coding.antt =====
-- lib/jevmachopp/NVRAM.cpp: the escape coding of data, and `decodedDataLen` on it.
use jevmachopp.Base.{
  ℕ, ◌+◌, ◌%◌, ◌^◌, ◌≤◌, ◌<◌, ◌≡◌, ◌≢◌, ap, ◌∙◌, arith, List, [], ◌∷◌, ◌++◌, length, replicate,
  length-append, length-replicate, done, ==-false, bit_and, bit_and_mask,
}
use jevmachopp.Nvram.{add_u32, len_loop, decoded_data_len}

-- `Escapes code bytes`: other bytes stand for themselves, and a run of 1 to 127 bytes 0 or 0xff is
-- 0xff and its length, with the top bit for 0xff.
pub data Escapes : List ℕ → List ℕ → Type 0 where
  nil : Escapes [] []
  plain :
      (b : ℕ) {code bytes : List ℕ}
      → b ≢ 0x00
      → b ≢ 0xff
      → Escapes code bytes
      → Escapes (b ∷ code) (b ∷ bytes)
  zeros :
      (n : ℕ) {code bytes : List ℕ}
      → 1 ≤ n
      → n ≤ 127
      → Escapes code bytes
      → Escapes (0xff ∷ n ∷ code) (replicate n 0x00 ++ bytes)
  ones :
      (n : ℕ) {code bytes : List ℕ}
      → 1 ≤ n
      → n ≤ 127
      → Escapes code bytes
      → Escapes (0xff ∷ (128 + n) ∷ code) (replicate n 0xff ++ bytes)

low_bits : (x : ℕ) → bit_and x 0x7f ≡ x % 2 ^ 7
low_bits = bit_and_mask 7

-- One step over a byte that stands for itself, before the terminator or another byte.
len_loop-plain :
    (total b : ℕ) (rest : List ℕ)
    → b ≢ 0xff
    → len_loop total (b ∷ rest) ≡ len_loop (add_u32 total 1) rest
unfolding len_loop
len_loop-plain total b [] h = rw (==-false b 0xff h)
len_loop-plain total b (next ∷ rest) h = rw (==-false b 0xff h)

len_loop-pair :
    (total n m : ℕ) (rest : List ℕ)
    → n ≢ 0
    → n % 2 ^ 7 ≡ m
    → len_loop total (0xff ∷ n ∷ rest) ≡ len_loop (add_u32 total m) rest
unfolding len_loop
len_loop-pair total n m rest h e = rw (==-false n 0 h, low_bits n, e)

-- What is left after a step that counted `m` bytes.
count_on :
    (total m left : ℕ) (rest : List ℕ)
    → total + m < 2 ^ 32
    → len_loop (total + m) rest ≡ done (total + m + left + 1)
    → len_loop (add_u32 total m) rest ≡ done (total + (m + left) + 1)
count_on total m left rest bound h =
    ap (λ (t : ℕ). len_loop t rest) {x = add_u32 total m} {y = total + m} (omega arith)
    ∙ (h ∙ ap done (omega arith))

length-run : (n x : ℕ) (bytes : List ℕ) → length (replicate n x ++ bytes) ≡ n + length bytes
length-run n x bytes = omega (arith, length-append (replicate n x) bytes, length-replicate n x)

len_loop-Escapes :
    {code bytes : List ℕ} (total : ℕ)
    → Escapes code bytes
    → total + length bytes + 1 < 2 ^ 32
    → len_loop total (code ++ (0 ∷ [])) ≡ done (total + length bytes + 1)
len_loop-Escapes total nil bound =
    len_loop-plain total 0 [] (omega arith) ∙ (unfold len_loop in ap done (omega arith))
len_loop-Escapes total (plain b {code} {bytes} h0 h1 rest) bound =
    len_loop-plain total b (code ++ (0 ∷ [])) h1
    ∙ count_on total 1 (length bytes) (code ++ (0 ∷ [])) (omega arith)
        (len_loop-Escapes (total + 1) rest (omega arith))
    ∙ ap done (omega arith)
len_loop-Escapes total (zeros n {code} {bytes} lo hi rest) bound = rw (length-run n 0 bytes) (
    len_loop-pair total n n (code ++ (0 ∷ [])) (omega arith) (omega arith)
    ∙ count_on total n (length bytes) (code ++ (0 ∷ [])) (omega (arith, length-run n 0 bytes))
        (len_loop-Escapes (total + n) rest (omega (arith, length-run n 0 bytes))))
len_loop-Escapes total (ones n {code} {bytes} lo hi rest) bound = rw (length-run n 255 bytes) (
    len_loop-pair total (128 + n) n (code ++ (0 ∷ [])) (omega arith) (omega arith)
    ∙ count_on total n (length bytes) (code ++ (0 ∷ [])) (omega (arith, length-run n 255 bytes))
        (len_loop-Escapes (total + n) rest (omega (arith, length-run n 255 bytes))))

-- For a code and its terminator, where the length fits into 32 bits, `decodedDataLen` returns the
-- length of the data that the code stands for and one more, for the terminator, and reads nothing
-- behind the code.
pub decoded_data_len-Escapes :
    {code bytes : List ℕ}
    → Escapes code bytes
    → length bytes + 1 < 2 ^ 32
    → decoded_data_len (code ++ (0 ∷ [])) ≡ done (length bytes + 1)
unfolding decoded_data_len
decoded_data_len-Escapes e bound = len_loop-Escapes 0 e (omega arith) ∙ ap done (omega arith)

-- ===== src/Nvram/Escape.antt =====
-- lib/jevmachopp/NVRAM.cpp: `escapeDataToData`, round by round.
use jevmachopp.Base.{
  le→leb, ℕ, zero, suc, ◌+◌, ◌*◌, ◌%◌, ◌^◌, ◌≤◌, ◌<◌, ◌≡◌, ◌≢◌, refl, ap, ap₂, sym, ◌∙◌, arith,
  List, [], ◌∷◌, ◌++◌, length, replicate, length-append, append_assoc, append-nil, set-middle, done,
  true, ◌||◌, ◌==◌, lt→ltb, ltb-false, ==-false, ==_iff, bit_and, bit_or, same_table, agree_below,
  dec_lt, ℕ_discrete, length-replicate, subst,
}
use jevmachopp.Nvram.{add_u32, run_end, put, escape_loop, escape_data_to_data}
use jevmachopp.Nvram.Coding.{Escapes}

-- The run that the inner loop finds.
run_end-run :
    (b n : ℕ) (bs : List ℕ)
    → n ≤ 127
    → (m : ℕ) × (rest : List ℕ) × (run_end b n bs ≡ (n + m, rest))
      × (bs ≡ replicate m b ++ rest)
      × (n + m ≤ 127)
unfolding run_end
run_end-run b n [] h =
    (0, [], ap (λ (k : ℕ). (k, [])) {x = n} {y = n + 0} (omega arith), refl, omega arith)
run_end-run b n (c ∷ cs) h = elim (dec_lt n 127) [
  | no long ↦ (0, c ∷ cs, rw (ltb-false n 127 (omega arith)) (stop n c cs), refl, omega arith)
  | yes short ↦ elim (ℕ_discrete b c) [
    | no other ↦
        (0, c ∷ cs, rw (lt→ltb n 127 short, ==-false b c other) (stop n c cs), refl, omega arith)
    | yes same ↦
        let (m, rest, e, s, small) = run_end-run b (n + 1) cs (omega arith) in
        (
          suc m,
          rest,
          rw (lt→ltb n 127 short, (==_iff b c).1 same)
              (e ∙ ap (λ (k : ℕ). (k, rest)) {x = n + 1 + m} {y = n + suc m} (omega arith)),
          ap₂ (λ (x : ℕ) (l : List ℕ). x ∷ l) (sym same) s,
          omega arith,
        )
  ]
]
  where
    stop : (n c : ℕ) (cs : List ℕ) → ◌≡◌ {A = ℕ × List ℕ} (n, c ∷ cs) (n + 0, c ∷ cs)
    stop n c cs = ap (λ (k : ℕ). (k, c ∷ cs)) {x = n} {y = n + 0} (omega arith)

put-middle :
    (front : List ℕ) (y x : ℕ) (room : List ℕ)
    → put (front ++ (y ∷ room)) (length front) x ≡ done (front ++ (x ∷ room))
unfolding put
put-middle front y x room =
    rw (lt→ltb (length front) (length (front ++ (y ∷ room))) inside, set-middle front y x room)
  where
    inside : length front < length (front ++ (y ∷ room))
    inside = omega (arith, length-append front (y ∷ room))

put-second :
    (front : List ℕ) (x z c : ℕ) (room : List ℕ)
    → put (front ++ (x ∷ z ∷ room)) (length front + 1) c ≡ done (front ++ (x ∷ c ∷ room))
put-second front x z c room =
    ap₂ (λ (l : List ℕ) (i : ℕ). put l i c) (sym (append_assoc front (x ∷ []) (z ∷ room))) second
    ∙ (put-middle (front ++ (x ∷ [])) z c room ∙ ap done (append_assoc front (x ∷ []) (c ∷ room)))
  where
    second : length front + 1 ≡ length (front ++ (x ∷ []))
    second = omega (arith, length-append front (x ∷ []))

zeros_mark : (n : ℕ) → n < 128 → bit_or (bit_and 0x00 0x80) (n % 2 ^ 8) ≡ n
unfolding same_table
zeros_mark = agree_below 128 (λ n. bit_or (bit_and 0x00 0x80) (n % 2 ^ 8)) (λ n. n) refl

ones_mark : (n : ℕ) → n < 128 → bit_or (bit_and 0xff 0x80) (n % 2 ^ 8) ≡ 128 + n
unfolding same_table
ones_mark = agree_below 128 (λ n. bit_or (bit_and 0xff 0x80) (n % 2 ^ 8)) (λ n. 128 + n) refl

-- One round over a byte that stands for itself.
plain_round :
    (fuel b : ℕ) (bs front : List ℕ) (y : ℕ) (room : List ℕ)
    → b ≢ 0x00
    → b ≢ 0xff
    → length front + length (y ∷ room) < 2 ^ 32
    → escape_loop (suc fuel) (b ∷ bs) (length front) (front ++ (y ∷ room))
      ≡ escape_loop fuel bs (length (front ++ (b ∷ []))) ((front ++ (b ∷ [])) ++ room)
unfolding escape_loop
plain_round fuel b bs front y room h0 h1 bound =
    rw (==-false b 0x00 h0, ==-false b 0xff h1, put-middle front y b room)
      (ap₂ (λ (off : ℕ) (buf : List ℕ). escape_loop fuel bs off buf) next
        (sym (append_assoc front (b ∷ []) room)))
  where
    next : add_u32 (length front) 1 ≡ length (front ++ (b ∷ []))
    next = omega (arith, length-append front (b ∷ []))

-- One round over a run.
run_round :
    (fuel b m c : ℕ) (bs rest front : List ℕ) (y z : ℕ) (room : List ℕ)
    → (b == 0x00 || b == 0xff) ≡ true
    → run_end b 1 bs ≡ (m, rest)
    → bit_or (bit_and b 0x80) (m % 2 ^ 8) ≡ c
    → length front + length (y ∷ z ∷ room) < 2 ^ 32
    → escape_loop (suc fuel) (b ∷ bs) (length front) (front ++ (y ∷ z ∷ room))
      ≡ escape_loop fuel rest
          (length (front ++ (0xff ∷ c ∷ [])))
          ((front ++ (0xff ∷ c ∷ [])) ++ room)
unfolding escape_loop
run_round fuel b m c bs rest front y z room special run mark bound =
    rw
      (
        special,
        run,
        put-middle front y 0xff (z ∷ room),
        first,
        mark,
        put-second front 0xff z c room,
      )
      (ap₂ (λ (off : ℕ) (buf : List ℕ). escape_loop fuel rest off buf) next
        (sym (append_assoc front (0xff ∷ c ∷ []) room)))
  where
    first : add_u32 (length front) 1 ≡ length front + 1
    first = omega arith

    next : add_u32 (length front + 1) 1 ≡ length (front ++ (0xff ∷ c ∷ []))
    next = omega (arith, length-append front (0xff ∷ c ∷ []))

-- The loop from `front` on leaves a coding of its data behind `front`.
abbrev Codes : ℕ → List ℕ → List ℕ → List ℕ → Type 0
Codes fuel bs front room =
    (code : List ℕ) × (left : List ℕ) × (escape_loop fuel bs (length front) (front ++ room)
      ≡ done (length (front ++ code), (front ++ code) ++ left))
    × Escapes code bs
    × (length code + length left ≡ length room)
    × (length code ≤ length bs * 2)

Codes-round :
    (fuel b : ℕ) (bs rest front mark room more : List ℕ)
    → escape_loop (suc fuel) (b ∷ bs) (length front) (front ++ room)
      ≡ escape_loop fuel rest (length (front ++ mark)) ((front ++ mark) ++ more)
    → length room ≡ length mark + length more
    → length mark + length rest * 2 ≤ length (b ∷ bs) * 2
    → ((code : List ℕ) → Escapes code rest → Escapes (mark ++ code) (b ∷ bs))
    → Codes fuel rest (front ++ mark) more
    → Codes (suc fuel) (b ∷ bs) front room
Codes-round fuel b bs rest front mark room more round fits short coded
      (code, left, e, es, el, es2) =
    (
      mark ++ code,
      left,
      round ∙ (e ∙ ap (λ (l : List ℕ). done (length l, l ++ left)) (append_assoc front mark code)),
      coded code es,
      omega (arith, length-append mark code),
      omega (arith, length-append mark code),
    )

run_left : (m b : ℕ) (bs rest : List ℕ) → bs ≡ replicate m b ++ rest → length bs ≡ m + length rest
run_left m b bs rest e =
    ap (λ (l : List ℕ). length l) e
    ∙ omega (arith, length-append (replicate m b) rest, length-replicate m b)

-- `b` is 0 or 0xff, and `mark` what the code says for a run of it.
module _ (b : ℕ) (mark : ℕ → ℕ) (special : (b == 0x00 || b == 0xff) ≡ true)
    (marked : (n : ℕ) → n < 128 → bit_or (bit_and b 0x80) (n % 2 ^ 8) ≡ mark n)
    (coded : (n : ℕ) (code bytes : List ℕ)
      → 1 ≤ n
      → n ≤ 127
      → Escapes code bytes
      → Escapes (0xff ∷ mark n ∷ code) (replicate n b ++ bytes)) where
  Codes-run :
      (fuel : ℕ) (bs front : List ℕ) (y z : ℕ) (room : List ℕ)
      → length front + length (y ∷ z ∷ room) < 2 ^ 32
      → ((rest : List ℕ) (c : ℕ)
          → length rest ≤ length bs
          → Codes fuel rest (front ++ (0xff ∷ c ∷ [])) room)
      → Codes (suc fuel) (b ∷ bs) front (y ∷ z ∷ room)
  Codes-run fuel bs front y z room bound later =
      let (m, rest, e, s, small) = run_end-run b 1 bs (omega arith) in
      Codes-round fuel b bs rest front (0xff ∷ mark (1 + m) ∷ []) (y ∷ z ∷ room) room
        (run_round fuel b (1 + m) (mark (1 + m)) bs rest front y z room special e
          (marked (1 + m) (omega arith)) bound)
        (omega arith) (omega (arith, run_left m b bs rest s))
        (λ code es.
          subst (Escapes (0xff ∷ mark (1 + m) ∷ code)) (sym (whole m rest s))
            (coded (1 + m) code rest (omega arith) (omega arith) es))
        (later rest (mark (1 + m)) (omega (arith, run_left m b bs rest s)))
    where
      whole :
          (m : ℕ) (rest : List ℕ)
          → bs ≡ replicate m b ++ rest
          → b ∷ bs ≡ replicate (1 + m) b ++ rest
      whole m rest s =
          ap (λ (l : List ℕ). b ∷ l) s
          ∙ ap (λ (n : ℕ). replicate n b ++ rest) {x = suc m} {y = 1 + m} (omega arith)

escape_loop-Codes :
    (fuel : ℕ) (bs front room : List ℕ)
    → length bs ≤ fuel
    → length bs * 2 ≤ length room
    → length front + length room < 2 ^ 32
    → Codes fuel bs front room
escape_loop-Codes fuel [] front room enough fits bound = (
  [],
  room,
  unfold escape_loop in ap (λ (l : List ℕ). done (length l, l ++ room)) (sym (append-nil front)),
  Escapes.nil,
  omega arith,
  omega arith,
)
escape_loop-Codes zero (b ∷ bs) front room enough fits bound = absurd (omega arith)
escape_loop-Codes (suc fuel) (b ∷ bs) front [] enough fits bound = absurd (omega arith)
escape_loop-Codes (suc fuel) (b ∷ bs) front (y ∷ []) enough fits bound = absurd (omega arith)
escape_loop-Codes (suc fuel) (b ∷ bs) front (y ∷ z ∷ room) enough fits bound =
    let later : (rest : List ℕ) (c : ℕ)
        → length rest ≤ length bs
        → Codes fuel rest (front ++ (0xff ∷ c ∷ [])) room =
      λ rest c shorter.
        escape_loop-Codes fuel rest (front ++ (0xff ∷ c ∷ [])) room (omega arith) (omega arith)
          (omega (arith, length-append front (0xff ∷ c ∷ []))) in
    elim (ℕ_discrete b 0x00) [
      | yes first ↦ rw first (
          Codes-run 0x00 (λ n. n) refl zeros_mark
            (λ n code bytes lo hi es. Escapes.zeros n lo hi es) fuel bs front y z room bound later)
      | no h0 ↦ elim (ℕ_discrete b 0xff) [
        | yes last ↦ rw last (
            Codes-run 0xff (λ n. 128 + n) refl ones_mark
              (λ n code bytes lo hi es. Escapes.ones n lo hi es) fuel bs front y z room bound later)
        | no h1 ↦
            Codes-round fuel b bs bs front (b ∷ []) (y ∷ z ∷ room) (z ∷ room)
              (plain_round fuel b bs front y (z ∷ room) h0 h1 bound) (omega arith) (omega arith)
              (λ code es. Escapes.plain b h0 h1 es)
              (escape_loop-Codes fuel bs (front ++ (b ∷ [])) (z ∷ room) (omega arith) (omega arith)
                (omega (arith, length-append front (b ∷ []))))
      ]
    ]

-- With a destination of more than twice the length of the data and below 2^32 bytes,
-- `escapeDataToData` ends without a failed `assert` or an access outside of the destination; it
-- writes a code that stands for the data by the rules of `Escapes`, then the terminator 0, returns
-- their length, and leaves the destination as long as it was.
pub escape_data_to_data-Escapes :
    (decoded encoded : List ℕ)
    → length decoded * 2 + 1 ≤ length encoded
    → length encoded < 2 ^ 32
    → (code : List ℕ) × (left : List ℕ) × (escape_data_to_data decoded encoded
        ≡ done (length code + 1, code ++ (0 ∷ left)))
      × Escapes code decoded
      × (length code + 1 + length left ≡ length encoded)
unfolding escape_data_to_data
escape_data_to_data-Escapes decoded encoded room bound =
    let (code, left, e, es, el, small) =
      escape_loop-Codes (length decoded) decoded [] encoded (omega arith) (omega arith)
        (omega arith) in
    finish code left e es el small
  where
    finish :
        (code left : List ℕ)
        → escape_loop (length decoded) decoded 0 encoded ≡ done (length code, code ++ left)
        → Escapes code decoded
        → length code + length left ≡ length encoded
        → length code ≤ length decoded * 2
        → (code : List ℕ) × (left : List ℕ) × (escape_data_to_data decoded encoded
            ≡ done (length code + 1, code ++ (0 ∷ left)))
          × Escapes code decoded
          × (length code + 1 + length left ≡ length encoded)
    finish code [] e es el small = absurd (omega arith)
    finish code (y ∷ left) e es el small = (
      code,
      left,
      rw (
        le→leb (length decoded) (length encoded) (omega arith),
        e,
        put-middle code y 0 left,
        last,
        le→leb (length code + 1) (length (code ++ (0 ∷ left)))
            (omega (arith, length-append code (0 ∷ left))),
      ),
      es,
      omega arith,
    )
      where
        last : add_u32 (length code) 1 ≡ length code + 1
        last = omega arith

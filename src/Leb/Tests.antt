-- ===== src/Leb/Tests.antt =====
-- The iterator over small runs of numbers, with a forward decoder for it.
use jevmachopp.Base.{
  if◌then◌else◌, ltb, lt→ltb, ltb-false, ℕ, ◌+◌, ◌-◌, ◌*◌, ◌≡◌, refl, arith, List, [], ◌∷◌, ◌++◌,
  length, Option, none, some, done, aborted, ◌>>=◌, map, lt→ltb, ltb-false,
}
use jevmachopp.MachO.FunctionStarts.{func_start_for_offsets, psum}
use jevmachopp.MachO.FunctionStarts.Sums.{largest, up_to}
use jevmachopp.MachO.FunctionStarts.Search.{func_start_for_offsets-psum}
use jevmachopp.Leb.{begin, iterator_eq, next, Decoder, LebIterator, prev, decode_uleb128_backwards}
use jevmachopp.Leb.Back.{IsUleb, value, Decodes, decode_uleb128_backwards-append}
use jevmachopp.Leb.Walk.{Stands}
use jevmachopp.Leb.Reverse.{prev-Stands}
use jevmachopp.Leb.Values.{all_values, all_values-concat, concat}

abbrev extend : ℕ → ℕ × Option ℕ → ℕ × Option ℕ
extend b (n, none) = (n + 1, none)
extend b (n, some v) = (n + 1, some (b - 128 + 128 * v))

abbrev toy : Decoder
toy [] = (0, none)
toy (b ∷ bs) = if ltb b 128 then (1, some b) else extend b (toy bs)

toy-Decodes : Decodes toy
toy-Decodes [] rest h small = absurd h
toy-Decodes (b ∷ []) rest h small = rw (lt→ltb b 128 h) (ground arith)
toy-Decodes (b ∷ c ∷ bs) rest h small =
    rw (ltb-false b 128 h.0, toy-Decodes (c ∷ bs) rest h.2 (omega arith)) (ground arith)

-- 624485 in three bytes, and 5 and 9 in one byte each.
abbrev long : List ℕ
long = 0xe5 ∷ 0x8e ∷ 0x26 ∷ []

abbrev five : List ℕ
five = 5 ∷ []

abbrev nine : List ℕ
nine = 9 ∷ []

value-long : value long ≡ 624485
value-long = refl

long-IsUleb : IsUleb long
long-IsUleb = (omega arith, omega arith, (omega arith, omega arith, omega arith))

decode_uleb128_backwards-append_example :
    decode_uleb128_backwards toy (five ++ long) ≡ done (length long, some (value long))
decode_uleb128_backwards-append_example =
    decode_uleb128_backwards-append toy toy-Decodes five long (omega arith) long-IsUleb
      (omega arith)

all_values-concat_example :
    all_values toy 0x1000 (concat (long ∷ five ∷ [])) ≡ done (map value (long ∷ five ∷ []))
all_values-concat_example =
    all_values-concat toy toy-Decodes 0x1000 long (five ∷ [])
      ((long-IsUleb, omega arith), ((omega arith, omega arith), tt))

-- On `five`, with `long` before it and `nine` behind it.
abbrev at_five : LebIterator
at_five = record { data_ptr = 0x1000; buf = long ++ (five ++ nine); val = 5; nbytes = 1; idx = 3 }

at_five-Stands : Stands at_five long five nine
at_five-Stands = record { buf_eq = refl; idx_eq = refl; nbytes_eq = refl; val_eq = refl }

at_five-Stands_back : Stands at_five ([] ++ long) five nine
at_five-Stands_back = at_five-Stands

prev-Stands_example :
    (it' : LebIterator) × (prev toy at_five ≡ done it') × Stands it' [] long (five ++ nine)
prev-Stands_example =
    prev-Stands toy toy-Decodes at_five [] long five nine at_five-Stands tt long-IsUleb
      (omega arith) (omega arith)

-- On `long`, with only `five` before it.
abbrev at_long : LebIterator
at_long = record {
  data_ptr = 0x1000;
  buf = five ++ (long ++ []);
  val = 624485;
  nbytes = 3;
  idx = 1;
}

at_long-Stands : Stands at_long ([] ++ five) long []
at_long-Stands = record { buf_eq = refl; idx_eq = refl; nbytes_eq = refl; val_eq = refl }

-- Behind the last number, `five`.
abbrev behind : LebIterator
behind = record { data_ptr = 0x1000; buf = long ++ five; val = 5; nbytes = 0; idx = 4 }

-- 624485, 5 and 9 as the starts of functions.
func_start_for_offsets-psum_example :
    begin toy 0x1000 (concat (long ∷ five ∷ nine ∷ [])) >>= (λ b.
      func_start_for_offsets toy
        (length (concat (long ∷ five ∷ nine ∷ [])) + 2)
        624588
        (record { base = b; psum = 100 }))
    ≡ done (largest (up_to 624588 (psum 100 (map value (long ∷ five ∷ nine ∷ [])))))
func_start_for_offsets-psum_example =
    func_start_for_offsets-psum toy toy-Decodes 624588 0x1000 100 long (five ∷ nine ∷ [])
      ((long-IsUleb, omega arith), ((omega arith, omega arith), ((omega arith, omega arith), tt)))
      (omega arith, (omega arith, tt)) (omega arith)

-- A number of three bytes behind one byte: going back from it fails the `assert` of `--`.
no_way_back :
    begin toy 0x1000 (five ++ (long ++ nine))
      >>= (λ b. func_start_for_offsets toy 7 103 (record { base = b; psum = 100 }))
    ≡ aborted
unfolding func_start_for_offsets begin iterator_eq next prev
no_way_back = refl

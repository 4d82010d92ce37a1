-- ===== src/MachO/FunctionStarts/Search.antt =====
-- What `func_start_for_offsets` of include/jevmachopp/FunctionStartsCommand.h finds.
use jevmachopp.Base.{
  ℕ, zero, suc, ◌+◌, ◌-◌, ◌%◌, ◌^◌, ◌<◌, ◌≤◌, List, [], ◌∷◌, ◌++◌, length, map, All, ltb, done,
  ◌>>=◌, ◌≡◌, refl, dec_lt, arith, true, false, ltb-false, lt→ltb, ap, ◌∙◌, sym, length-append,
}
use jevmachopp.Leb.{next, prev, Decoder, LebIterator, begin, iterator_eq, end_iterator}
use jevmachopp.Leb.Back.{IsUleb, value, Decodes, EndsNumber}
use jevmachopp.Leb.Walk.{Stands, IsUleb-pos, begin-Stands, next-Stands, next-StandsBehind}
use jevmachopp.Leb.Reverse.{prev-Stands}
use jevmachopp.Leb.Values.{IsShort, concat, at_number, at_sentinel, length-concat}
use jevmachopp.MachO.FunctionStarts.{
  psum, psum_next, psum_prev, func_start_loop, func_start_for_offsets,
}
use jevmachopp.MachO.FunctionStarts.Sums.{
  up_to, larger, largest, total, up_to-none, nothing_left, larger_zero, largest-cons,
}

IsUleb-EndsNumber : (enc : List ℕ) → IsUleb enc → EndsNumber enc
IsUleb-EndsNumber [] h = absurd h
IsUleb-EndsNumber (b ∷ []) h = h
IsUleb-EndsNumber (b ∷ c ∷ bs) h = IsUleb-EndsNumber (c ∷ bs) h.2

EndsNumber-append : (front enc : List ℕ) → IsUleb enc → EndsNumber (front ++ enc)
EndsNumber-append [] enc h = IsUleb-EndsNumber enc h
EndsNumber-append (a ∷ []) [] h = absurd h
EndsNumber-append (a ∷ []) (b ∷ bs) h = IsUleb-EndsNumber (b ∷ bs) h
EndsNumber-append (a ∷ b ∷ front) enc h = EndsNumber-append (b ∷ front) enc h

-- No number is longer than all that stands before it, of which there are `n` bytes.
abbrev pub NoneLonger : ℕ → List (List ℕ) → Type 0
NoneLonger n [] = Unit
NoneLonger n (enc ∷ encs) = (length enc ≤ n) × NoneLonger (n + length enc) encs

module _ (decode : Decoder) (fuel off last p : ℕ) (b : LebIterator) where
  step-end :
      iterator_eq b end_iterator ≡ true
      → func_start_loop decode (suc fuel) off last (record { base = b; psum = p }) ≡ done last
  unfolding func_start_loop
  step-end ended = rw (func_start_loop, ended) refl

  step-behind :
      (b' : LebIterator)
      → iterator_eq b end_iterator ≡ false
      → ltb off p ≡ true
      → prev decode b ≡ done b'
      → func_start_loop decode (suc fuel) off last (record { base = b; psum = p })
        ≡ done ((p + 2 ^ 64 - b'.val) % 2 ^ 64)
  unfolding func_start_loop psum_prev
  step-behind b' at behind back = rw (func_start_loop, at, behind, back) refl

  step-next :
      (b' : LebIterator)
      → iterator_eq b end_iterator ≡ false
      → ltb off p ≡ false
      → next decode b ≡ done b'
      → func_start_loop decode (suc fuel) off last (record { base = b; psum = p })
        ≡ func_start_loop decode fuel off p (record { base = b'; psum = (p + b.val) % 2 ^ 64 })
  unfolding func_start_loop psum_next
  step-next b' at before on = rw (func_start_loop, at, before, on) refl

module _ (decode : Decoder) (decodes : Decodes decode) (off : ℕ) where
  stands_at :
      (b : LebIterator) (front enc rest : List ℕ)
      → Stands b front enc rest
      → IsShort enc
      → iterator_eq b end_iterator ≡ false
  stands_at b front enc rest s h = at_number b (omega (arith, s.nbytes_eq, IsUleb-pos enc h.0))

  -- At a number that is behind the offset.
  loop-behind :
      (fuel last : ℕ) (b : LebIterator) (front enc0 enc rest : List ℕ)
      → Stands b (front ++ enc0) enc rest
      → EndsNumber front
      → IsShort enc0
      → IsShort enc
      → length enc ≤ length (front ++ enc0)
      → last + value enc0 < 2 ^ 64
      → off < last + value enc0
      → func_start_loop decode (suc fuel) off last (record { base = b; psum = last + value enc0 })
        ≡ done last
  loop-behind fuel last b front enc0 enc rest s ends h0 h room small lt =
      let (b', e, s') = prev-Stands decode decodes b front enc0 enc rest s ends h0.0 h0.1 room in
      step-behind decode fuel off last (last + value enc0) b b'
        (stands_at b (front ++ enc0) enc rest s h) (lt→ltb _ _ lt) e
      ∙ ap (λ n. done n) (omega (arith, s'.val_eq))

  -- At the last number, which is not behind the offset.
  loop-last :
      (fuel last p : ℕ) (b : LebIterator) (front enc : List ℕ)
      → Stands b front enc []
      → IsShort enc
      → p ≤ off
      → func_start_loop decode (suc (suc fuel)) off last (record { base = b; psum = p }) ≡ done p
  loop-last fuel last p b front enc s h le =
      let (b', e, s') = next-StandsBehind decode decodes b front enc s in
      step-next decode (suc fuel) off last p b b' (stands_at b front enc [] s h) (ltb-false _ _ le)
        e
      ∙ step-end decode fuel off p ((p + b.val) % 2 ^ 64) b' (at_sentinel b' s'.nbytes_eq)

  -- At a number that is not behind the offset, with another one behind it.
  loop-next :
      (fuel last : ℕ) (b : LebIterator) (p : ℕ) (front enc enc2 rest : List ℕ)
      → Stands b front enc (enc2 ++ rest)
      → IsShort enc
      → IsShort enc2
      → p ≤ off
      → p + value enc < 2 ^ 64
      → (b' : LebIterator) × Stands b' (front ++ enc) enc2 rest
        × (func_start_loop decode (suc fuel) off last (record { base = b; psum = p })
            ≡ func_start_loop decode fuel off p (record { base = b'; psum = p + value enc }))
  loop-next fuel last b p front enc enc2 rest s h h2 le small =
      let (b', e, s') = next-Stands decode decodes b front enc enc2 rest s h2.0 h2.1 in
      (
        b',
        s',
        step-next decode fuel off last p b b' (stands_at b front enc (enc2 ++ rest) s h)
              (ltb-false _ _ le) e
            ∙ ap (λ q. func_start_loop decode fuel off p (record { base = b'; psum = q }))
                (omega (arith, s.val_eq)),
      )

  -- From the second number on.
  loop-largest :
      (encs : List (List ℕ)) (fuel last : ℕ) (b : LebIterator) (front enc0 enc : List ℕ)
      → Stands b (front ++ enc0) enc (concat encs)
      → EndsNumber front
      → All IsShort (enc0 ∷ enc ∷ encs)
      → NoneLonger (length (front ++ enc0)) (enc ∷ encs)
      → last ≤ off
      → last + total (map value (enc0 ∷ enc ∷ encs)) < 2 ^ 64
      → length encs + 1 < fuel
      → func_start_loop decode fuel off last (record { base = b; psum = last + value enc0 })
        ≡ done
            (larger last (largest (up_to off (psum (last + value enc0) (map value (enc ∷ encs))))))
  unfolding psum
  loop-largest encs zero last b front enc0 enc s ends h room le small enough = absurd (omega arith)
  loop-largest encs (suc zero) last b front enc0 enc s ends h room le small enough =
      absurd (omega arith)
  loop-largest [] (suc (suc fuel)) last b front enc0 enc s ends (h0, (h, hs)) room le small enough =
      elim (dec_lt off (last + value enc0)) [
        | yes lt ↦
            loop-behind (suc fuel) last b front enc0 enc [] s ends h0 h room.0 (omega arith) lt
            ∙ ap (λ n. done n)
                (sym (
                  nothing_left last _
                    (up_to-none off (last + value enc0) (value enc ∷ []) lt (omega arith))))
        | no ge ↦
            loop-last fuel last (last + value enc0) b (front ++ enc0) enc s h (omega arith)
            ∙ ap (λ n. done n) (ground arith)
      ]
  loop-largest (enc2 ∷ encs) (suc (suc fuel)) last b front enc0 enc s ends (h0, (h, (h2, hs))) room
        le small enough =
      elim (dec_lt off (last + value enc0)) [
        | yes lt ↦
            loop-behind (suc fuel) last b front enc0 enc (concat (enc2 ∷ encs)) s ends h0 h room.0
              (omega arith) lt
            ∙ ap (λ n. done n)
                (sym (
                  nothing_left last _ (
                    up_to-none off (last + value enc0) (map value (enc ∷ enc2 ∷ encs)) lt
                      (omega arith))))
        | no ge ↦
            let (b', s', e) =
              loop-next (suc fuel) last b (last + value enc0) (front ++ enc0) enc enc2 (concat encs)
                s h h2 (omega arith) (omega arith) in
            e
            ∙ (loop-largest encs (suc fuel) (last + value enc0) b' (front ++ enc0) enc enc2 s'
                  (EndsNumber-append front enc0 h0.0) (h, (h2, hs))
                  (rw (length-append (front ++ enc0) enc) room.1) (omega arith) (omega arith)
                  (omega arith)
                ∙ ap (λ n. done n)
                    (largest-cons off last (last + value enc0) (value enc) (map value (enc2 ∷ encs))
                      (omega arith) (omega arith) (omega arith)))
      ]

  search-largest :
      (encs : List (List ℕ)) (fuel init : ℕ) (b : LebIterator) (enc : List ℕ)
      → Stands b [] enc (concat encs)
      → All IsShort (enc ∷ encs)
      → NoneLonger (length enc) encs
      → init + total (map value (enc ∷ encs)) < 2 ^ 64
      → length encs + 2 < fuel
      → init ≤ off
      → func_start_loop decode fuel off 0 (record { base = b; psum = init })
        ≡ done (largest (up_to off (psum init (map value (enc ∷ encs)))))
  unfolding psum
  search-largest encs zero init b enc s h room small enough le = absurd (omega arith)
  search-largest encs (suc zero) init b enc s h room small enough le = absurd (omega arith)
  search-largest [] (suc (suc fuel)) init b enc s (h, hs) room small enough le =
      loop-last fuel 0 init b [] enc s h le ∙ ap (λ n. done n) (ground arith)
  search-largest (enc2 ∷ encs) (suc (suc fuel)) init b enc s (h, (h2, hs)) room small enough le =
      let (b', s', e) =
        loop-next (suc fuel) 0 b init [] enc enc2 (concat encs) s h h2 le (omega arith) in
      e
      ∙ (loop-largest encs (suc fuel) init b' [] enc enc2 s' tt (h, (h2, hs)) room le (omega arith)
            (omega arith)
          ∙ ap (λ n. done n)
              (largest-cons off 0 init (value enc) (map value (enc2 ∷ encs)) (omega arith) le
                  (omega arith)
                ∙ larger_zero _))

  for_offsets-Stands :
      (fuel init : ℕ) (b : LebIterator) (enc : List ℕ) (encs : List (List ℕ))
      → Stands b [] enc (concat encs)
      → All IsShort (enc ∷ encs)
      → NoneLonger (length enc) encs
      → init + total (map value (enc ∷ encs)) < 2 ^ 64
      → length encs + 2 < fuel
      → func_start_for_offsets decode fuel off (record { base = b; psum = init })
        ≡ done (largest (up_to off (psum init (map value (enc ∷ encs)))))
  unfolding func_start_for_offsets
  for_offsets-Stands fuel init b enc encs s h room small enough = elim (dec_lt off init) [
    | yes lt ↦
        rw (func_start_for_offsets, stands_at b [] enc (concat encs) s h.0, lt→ltb _ _ lt)
          (ap (λ l. done (largest l)) (sym (up_to-none off init (map value (enc ∷ encs)) lt small)))
    | no ge ↦
        rw
          (
            func_start_for_offsets,
            stands_at b [] enc (concat encs) s h.0,
            ltb-false off init (omega arith),
          )
          (search-largest encs fuel init b enc s h room small enough (omega arith))
  ]

  -- For a decoder that reads numbers of at most 9 bytes where they stand, and a range of one or
  -- more such numbers each of which but the first is no longer than all that stand before it
  -- together, and whose values add up with the start to less than 2^64: `func_start_for_offsets` in
  -- `view::psum` of the range returns the largest sum that is no more than the offset, or 0 where
  -- there is none.
  pub func_start_for_offsets-psum :
      (ptr init : ℕ) (enc : List ℕ) (encs : List (List ℕ))
      → All IsShort (enc ∷ encs)
      → NoneLonger (length enc) encs
      → init + total (map value (enc ∷ encs)) < 2 ^ 64
      → begin decode ptr (concat (enc ∷ encs)) >>= (λ b.
        func_start_for_offsets decode
          (length (concat (enc ∷ encs)) + 2)
          off
          (record { base = b; psum = init }))
        ≡ done (largest (up_to off (psum init (map value (enc ∷ encs)))))
  func_start_for_offsets-psum ptr init enc encs h room small =
      let (b, e, s) = begin-Stands decode decodes ptr enc (concat encs) h.0.0 h.0.1 in
      rw e (
        for_offsets-Stands _ init b enc encs s h room small (
          omega (
            arith,
            length-append enc (concat encs),
            IsUleb-pos enc h.0.0,
            length-concat decode decodes encs h.1,
          )))

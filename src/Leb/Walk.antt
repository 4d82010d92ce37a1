-- ===== src/Leb/Walk.antt =====
-- include/jevmachopp/LEB128.h: where an iterator stands, and `operator++`.
use jevmachopp.Base.{
  ℕ, ◌+◌, ◌≤◌, ◌<◌, ◌≡◌, ◌∙◌, refl, ap, sym, arith, List, [], ◌∷◌, ◌++◌, length, false, ◌==◌, done,
  length-append, append_assoc, append-nil, drop-append_length, le→leb, ==-false, ==_iff,
}
use jevmachopp.Leb.{Decoder, LebIterator, read_and_update_val, begin, next}
use jevmachopp.Leb.Back.{IsUleb, value, Decodes}

-- `it` stands at the number `enc`, with `front` before it and `rest` behind it.
pub record Stands (it : LebIterator) (front enc rest : List ℕ) : Type 0 where
  pub buf_eq : it.buf ≡ front ++ (enc ++ rest)
  pub idx_eq : it.idx ≡ length front
  pub nbytes_eq : it.nbytes ≡ length enc
  pub val_eq : it.val ≡ value enc

-- `it` is the sentinel behind the last number `enc`.
pub record StandsBehind (it : LebIterator) (front enc : List ℕ) : Type 0 where
  pub buf_eq : it.buf ≡ front ++ enc
  pub idx_eq : it.idx ≡ length (front ++ enc)
  pub nbytes_eq : it.nbytes ≡ 0

pub IsUleb-pos : (enc : List ℕ) → IsUleb enc → 0 < length enc
IsUleb-pos [] h = absurd h
IsUleb-pos (b ∷ bs) h = omega arith

pub nonzero : (enc : List ℕ) → IsUleb enc → (length enc == 0) ≡ false
nonzero enc h = ==-false (length enc) 0 (omega (arith, IsUleb-pos enc h))

module _ (decode : Decoder) (decodes : Decodes decode) where
  read_at :
      (it : LebIterator) (front enc rest : List ℕ)
      → it.buf ≡ front ++ (enc ++ rest)
      → it.idx ≡ length front
      → IsUleb enc
      → length enc ≤ 9
      → read_and_update_val decode it ≡ done (record it { nbytes = length enc; val = value enc })
  unfolding read_and_update_val
  read_at it front enc rest eb ei h small =
      rw (eb, ei, drop-append_length front (enc ++ rest), decodes enc rest h small)
        (rw (nonzero enc h))

  pub begin-Stands :
      (ptr : ℕ) (enc rest : List ℕ)
      → IsUleb enc
      → length enc ≤ 9
      → (it : LebIterator) × (begin decode ptr (enc ++ rest) ≡ done it) × Stands it [] enc rest
  unfolding begin
  begin-Stands ptr enc rest h small =
      let it : LebIterator = record {
        data_ptr = ptr;
        buf = enc ++ rest;
        val = 0;
        nbytes = 0;
        idx = 0;
      } in
      (
        record it { nbytes = length enc; val = value enc },
        read_at it [] enc rest refl refl h small,
        record { buf_eq = refl; idx_eq = refl; nbytes_eq = refl; val_eq = refl },
      )

  -- With a forward decoder that reads numbers of at most 9 bytes, `++` on a number that is followed
  -- by another one, of at most 9 bytes, goes to that number.
  pub next-Stands :
      (it : LebIterator) (front enc enc2 rest : List ℕ)
      → Stands it front enc (enc2 ++ rest)
      → IsUleb enc2
      → length enc2 ≤ 9
      → (it' : LebIterator) × (next decode it ≡ done it') × Stands it' (front ++ enc) enc2 rest
  unfolding next
  next-Stands it front enc enc2 rest s h small =
      let it1 : LebIterator = record it { idx = it.idx + it.nbytes } in
      (
        record it1 { nbytes = length enc2; val = value enc2 },
        rw (le→leb (it.idx + it.nbytes) (length it.buf) (omega (arith, inside))) (
            rw (==-false (it.idx + it.nbytes) (length it.buf) (omega (arith, inside)))
              (read_at it1 (front ++ enc) enc2 rest buf' idx' h small)),
        record { buf_eq = buf'; idx_eq = idx'; nbytes_eq = refl; val_eq = refl },
      )
    where
      buf' : it.buf ≡ (front ++ enc) ++ (enc2 ++ rest)
      buf' = s.buf_eq ∙ sym (append_assoc front enc (enc2 ++ rest))

      idx' : it.idx + it.nbytes ≡ length (front ++ enc)
      idx' = omega (arith, s.idx_eq, s.nbytes_eq, length-append front enc)

      inside : it.idx + it.nbytes < length it.buf
      inside = rw buf' (
          omega (
            arith,
            idx',
            length-append (front ++ enc) (enc2 ++ rest),
            length-append enc2 rest,
            IsUleb-pos enc2 h,
          ))

  -- `++` at the last number gives the sentinel.
  pub next-StandsBehind :
      (it : LebIterator) (front enc : List ℕ)
      → Stands it front enc []
      → (it' : LebIterator) × (next decode it ≡ done it') × StandsBehind it' front enc
  unfolding next
  next-StandsBehind it front enc s = (
    record it { idx = it.idx + it.nbytes; nbytes = 0 },
    rw (le→leb (it.idx + it.nbytes) (length it.buf) (omega (arith, at_end)))
        (rw ((==_iff (it.idx + it.nbytes) (length it.buf)).1 at_end)),
    record { buf_eq = buf'; idx_eq = idx'; nbytes_eq = refl },
  )
    where
      buf' : it.buf ≡ front ++ enc
      buf' = s.buf_eq ∙ ap (λ (l : List ℕ). front ++ l) (append-nil enc)

      idx' : it.idx + it.nbytes ≡ length (front ++ enc)
      idx' = omega (arith, s.idx_eq, s.nbytes_eq, length-append front enc)

      at_end : it.idx + it.nbytes ≡ length it.buf
      at_end = idx' ∙ ap (λ (l : List ℕ). length l) (sym buf')

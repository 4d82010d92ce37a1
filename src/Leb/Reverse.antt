-- ===== src/Leb/Reverse.antt =====
-- include/jevmachopp/LEB128.h: `operator--`, on a number and on the sentinel.
use jevmachopp.Base.{
  ℕ, ◌-◌, ◌≤◌, ◌<◌, ◌≡◌, ◌∙◌, refl, ap, sym, arith, List, [], ◌++◌, length, done, aborted,
  append_assoc, append-nil, take-append_length, leb-false, le→leb, length-append,
}
use jevmachopp.Leb.{Decoder, LebIterator, read_and_update_val_backwards, prev}
use jevmachopp.Leb.Back.{IsUleb, value, Decodes, EndsNumber, decode_uleb128_backwards-append}
use jevmachopp.Leb.Walk.{Stands, StandsBehind, nonzero}

module _ (decode : Decoder) (decodes : Decodes decode) where
  read_back :
      (it : LebIterator) (front enc rest : List ℕ)
      → it.buf ≡ (front ++ enc) ++ rest
      → it.idx ≡ length (front ++ enc)
      → EndsNumber front
      → IsUleb enc
      → length enc ≤ 9
      → read_and_update_val_backwards decode it
        ≡ done (record it { nbytes = length enc; val = value enc })
  unfolding read_and_update_val_backwards
  read_back it front enc rest eb ei ends h small =
      rw (eb, ei, take-append_length (front ++ enc) rest)
        (rw (decode_uleb128_backwards-append decode decodes front enc ends h small)
          (rw (nonzero enc h)))

  -- With a forward decoder that reads numbers of at most 9 bytes, `--` on a number that is no
  -- longer than all that stands before it goes back to the number before it, of at most 9 bytes.
  pub prev-Stands :
      (it : LebIterator) (front enc enc2 rest : List ℕ)
      → Stands it (front ++ enc) enc2 rest
      → EndsNumber front
      → IsUleb enc
      → length enc ≤ 9
      → length enc2 ≤ length (front ++ enc)
      → (it' : LebIterator) × (prev decode it ≡ done it') × Stands it' front enc (enc2 ++ rest)
  unfolding prev
  prev-Stands it front enc enc2 rest s ends h small room = (
    record it { nbytes = length enc; val = value enc; idx = it.idx - length enc },
    rw (le→leb it.nbytes it.idx (omega (arith, s.nbytes_eq, s.idx_eq)))
        (rw (read_back it front enc (enc2 ++ rest) s.buf_eq s.idx_eq ends h small)),
    record {
      buf_eq = s.buf_eq ∙ append_assoc front enc (enc2 ++ rest);
      idx_eq = omega (arith, s.idx_eq, length-append front enc);
      nbytes_eq = refl;
      val_eq = refl;
    },
  )

  -- `--` on a number that is longer than all that stands before it fails its `assert`, also where
  -- there is a number to go back to.
  pub prev-aborted :
      (it : LebIterator) (front enc enc2 rest : List ℕ)
      → Stands it (front ++ enc) enc2 rest
      → length (front ++ enc) < length enc2
      → prev decode it ≡ aborted
  unfolding prev
  prev-aborted it front enc enc2 rest s long =
      rw (leb-false it.nbytes it.idx (omega (arith, s.nbytes_eq, s.idx_eq)))

  -- With a forward decoder that reads numbers of at most 9 bytes, `--` on the sentinel behind the
  -- last number, of at most 9 bytes and behind whole numbers or nothing, goes back to that number.
  pub prev-StandsBehind :
      (it : LebIterator) (front enc : List ℕ)
      → StandsBehind it front enc
      → EndsNumber front
      → IsUleb enc
      → length enc ≤ 9
      → (it' : LebIterator) × (prev decode it ≡ done it') × Stands it' front enc []
  unfolding prev
  prev-StandsBehind it front enc s ends h small = (
    record it { nbytes = length enc; val = value enc; idx = it.idx - length enc },
    rw (le→leb it.nbytes it.idx (omega (arith, s.nbytes_eq))) (
        rw (
          read_back it front enc [] (s.buf_eq ∙ sym (append-nil (front ++ enc))) s.idx_eq ends h
            small)),
    record {
      buf_eq = s.buf_eq ∙ ap (λ (l : List ℕ). front ++ l) (sym (append-nil enc));
      idx_eq = omega (arith, s.idx_eq, length-append front enc);
      nbytes_eq = refl;
      val_eq = refl;
    },
  )

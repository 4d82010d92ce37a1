-- ===== src/Leb/Values.antt =====
-- include/jevmachopp/LEB128.h: the loop over a whole range of the iterator.
use jevmachopp.Base.{
  ℕ, zero, suc, ◌+◌, ◌≤◌, ◌<◌, ◌≡◌, arith, List, [], ◌∷◌, ◌++◌, length, done, ◌>>=◌, All, map,
  Outcome, ==-false, true, false, length-append,
}
use jevmachopp.Leb.{Decoder, LebIterator, iterator_eq, end_iterator, begin, values_from}
use jevmachopp.Leb.Back.{IsUleb, value, Decodes}
use jevmachopp.Leb.Walk.{Stands, IsUleb-pos, begin-Stands, next-Stands, next-StandsBehind}

-- A number of at most 9 bytes.
abbrev pub IsShort : List ℕ → Type 0
IsShort enc = IsUleb enc × (length enc ≤ 9)

abbrev pub concat : List (List ℕ) → List ℕ
concat [] = []
concat (enc ∷ encs) = enc ++ concat encs

-- The `for` loop over the range of `buf`, from its first number.
unfoldable pub all_values : Decoder → ℕ → List ℕ → Outcome (List ℕ)
unfolding values_from begin
all_values decode ptr buf = begin decode ptr buf >>= λ it. values_from decode (suc (length buf)) it

pub at_number : (it : LebIterator) → 0 < it.nbytes → iterator_eq it end_iterator ≡ false
unfolding iterator_eq
at_number it h = rw (==-false it.nbytes 0 (omega arith))

pub at_sentinel : (it : LebIterator) → it.nbytes ≡ 0 → iterator_eq it end_iterator ≡ true
unfolding iterator_eq
at_sentinel it h = rw h

module _ (decode : Decoder) (decodes : Decodes decode) where
  values_from-Stands :
      (encs : List (List ℕ)) (fuel : ℕ) (it : LebIterator) (front enc : List ℕ)
      → Stands it front enc (concat encs)
      → IsShort enc
      → All IsShort encs
      → length encs + 1 < fuel
      → values_from decode fuel it ≡ done (value enc ∷ map value encs)
  unfolding values_from
  values_from-Stands encs zero it front enc s h hs enough = absurd (omega arith)
  values_from-Stands encs (suc zero) it front enc s h hs enough = absurd (omega arith)
  values_from-Stands [] (suc (suc fuel)) it front enc s h hs enough =
      let (it', e, s') = next-StandsBehind decode decodes it front enc s in
      rw (at_number it (omega (arith, s.nbytes_eq, IsUleb-pos enc h.0)), e)
        (rw (at_sentinel it' s'.nbytes_eq, s.val_eq))
  values_from-Stands (enc2 ∷ encs) (suc fuel) it front enc s h hs enough =
      let (it', e, s') =
        next-Stands decode decodes it front enc enc2 (concat encs) s hs.0.0 hs.0.1 in
      rw (at_number it (omega (arith, s.nbytes_eq, IsUleb-pos enc h.0)), e)
        (rw (
          values_from-Stands encs fuel it' (front ++ enc) enc2 s' hs.0 hs.1 (omega arith),
          s.val_eq,
        ))

  pub length-concat : (encs : List (List ℕ)) → All IsShort encs → length encs ≤ length (concat encs)
  length-concat [] h = omega arith
  length-concat (enc ∷ encs) h =
      omega (arith, length-append enc (concat encs), IsUleb-pos enc h.0.0, length-concat encs h.1)

  -- With a forward decoder that reads numbers of at most 9 bytes, iterating over a range of one or
  -- more such numbers ends, and yields every number of the range in order.
  pub all_values-concat :
      (ptr : ℕ) (enc : List ℕ) (encs : List (List ℕ))
      → All IsShort (enc ∷ encs)
      → all_values decode ptr (concat (enc ∷ encs)) ≡ done (map value (enc ∷ encs))
  unfolding all_values
  all_values-concat ptr enc encs h =
      let (it, e, s) = begin-Stands decode decodes ptr enc (concat encs) h.0.0 h.0.1 in
      rw e (
        values_from-Stands encs (suc (length (enc ++ concat encs))) it [] enc s h.0 h.1 (
          omega
            (arith, length-append enc (concat encs), IsUleb-pos enc h.0.0, length-concat encs h.1)))

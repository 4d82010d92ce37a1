-- ===== src/DeviceTree/Image/Steps.antt =====
-- The iterators of include/jevmachopp/DeviceTree.h over elements that stand one after the other.
use jevmachopp.Base.{
  ℕ, suc, ◌+◌, ◌%◌, ◌^◌, ◌<◌, List, [], ◌∷◌, length, ◌≡◌, refl, Bool, Bool-cases, inl, inr, ap, sym,
  ◌∙◌, arith, ==-false, All, some, Outcome, done, subst,
}
use mathlib.Core.Option
use jevmachopp.Memory.Place.{place}
use jevmachopp.Text.{find_if_or_nullptr}
use jevmachopp.DeviceTree.{make_iterator, increment, iterator_find, iterator_sum}

make_iterator-suc : (p n : ℕ) → make_iterator p (suc n) ≡ record { m_ptr = some p; m_sz = suc n }
make_iterator-suc p n = rw (==-false (suc n) 0 (omega arith))

module _ {E : Type 0} (size : E → ℕ) where
  abbrev pub total : (E → ℕ) → List E → ℕ
  total f [] = 0
  total f (x ∷ xs) = f x + total f xs

  module _ (next : ℕ → Outcome ℕ) where
    increment-make_iterator :
        (p q n : ℕ)
        → next p ≡ done q
        → suc n < 2 ^ 32
        → increment next (record { m_ptr = some p; m_sz = suc n }) ≡ done (make_iterator q n)
    unfolding increment
    increment-make_iterator p q n h small = rw h (ap (λ k. done (make_iterator q k)) (omega arith))

    pub iterator_find-place :
        (pred : ℕ → Outcome Bool) (test : E → Bool) (p : ℕ) (xs : List E)
        → All
            (λ e. (next e.0 ≡ done (e.0 + size e.1)) × (pred e.0 ≡ done (test e.1)))
            (place size p xs)
        → length xs < 2 ^ 32
        → iterator_find next pred (suc (length xs)) (make_iterator p (length xs))
          ≡ done (Option.map (λ e. e.0) (find_if_or_nullptr (λ e. test e.1) (place size p xs)))
    unfolding iterator_find find_if_or_nullptr
    iterator_find-place pred test p [] ok small = refl
    iterator_find-place pred test p (x ∷ xs) ok small =
        subst
          (λ it.
            iterator_find next pred (suc (suc (length xs))) it
            ≡ done (
                Option.map (λ e. e.0) (find_if_or_nullptr (λ e. test e.1) (place size p (x ∷ xs)))))
          (sym (make_iterator-suc p (length xs)))
          (elim (Bool-cases (test x)) [
            | inl hit ↦ rw (ok.0.1, hit)
            | inr miss ↦
                rw (ok.0.1, miss, increment-make_iterator p (p + size x) (length xs) ok.0.0 small)
                  (iterator_find-place pred test (p + size x) xs ok.1 (omega arith))
          ])

    pub iterator_sum-place :
        (measure : ℕ → Outcome ℕ) (f : E → ℕ) (p : ℕ) (xs : List E) (accum : ℕ)
        → All
            (λ e. (next e.0 ≡ done (e.0 + size e.1)) × (measure e.0 ≡ done (f e.1)))
            (place size p xs)
        → length xs < 2 ^ 32
        → accum < 2 ^ 32
        → iterator_sum next measure (suc (length xs)) (make_iterator p (length xs)) accum
          ≡ done ((accum + total f xs) % 2 ^ 32)
    unfolding iterator_sum
    iterator_sum-place measure f p [] accum ok small low = ap (λ n. done n) (omega arith)
    iterator_sum-place measure f p (x ∷ xs) accum ok small low =
        subst
          (λ it.
            iterator_sum next measure (suc (suc (length xs))) it accum
            ≡ done ((accum + total f (x ∷ xs)) % 2 ^ 32))
          (sym (make_iterator-suc p (length xs)))
          (rw (ok.0.1, increment-make_iterator p (p + size x) (length xs) ok.0.0 small)
            (iterator_sum-place measure f (p + size x) xs ((accum + f x) % 2 ^ 32) ok.1
                (omega arith) (omega arith)
              ∙ ap (λ n. done n) (omega arith)))

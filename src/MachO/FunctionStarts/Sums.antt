-- ===== src/MachO/FunctionStarts/Sums.antt =====
-- The sums of `psum_view` of include/jevmachopp/Ranges.h up to an offset, and the largest of them.
use jevmachopp.Base.{
  ℕ, ◌+◌, ◌%◌, ◌^◌, ◌<◌, ◌≤◌, List, [], ◌∷◌, leb, if◌then◌else◌, ◌≡◌, refl, arith, ap, ◌∙◌, sym,
}
use jevmachopp.MachO.FunctionStarts.{psum}

-- The offsets up to `off`.
abbrev pub up_to : ℕ → List ℕ → List ℕ
up_to off [] = []
up_to off (x ∷ xs) = let rest = up_to off xs in if leb x off then x ∷ rest else rest

abbrev pub larger : ℕ → ℕ → ℕ
larger a b = if leb a b then b else a

-- The largest number of a list, or 0.
abbrev pub largest : List ℕ → ℕ
largest [] = 0
largest (x ∷ xs) = larger x (largest xs)

abbrev pub total : List ℕ → ℕ
total [] = 0
total (x ∷ xs) = x + total xs

pub up_to-none :
    (off init : ℕ) (raws : List ℕ)
    → off < init
    → init + total raws < 2 ^ 64
    → up_to off (psum init raws) ≡ []
unfolding psum
up_to-none off init [] lt small = refl
up_to-none off init (x ∷ xs) lt small =
    let rest = up_to-none off ((init + x) % 2 ^ 64) xs (omega arith) (omega arith) in ground arith

pub nothing_left : (last : ℕ) (l : List ℕ) → l ≡ [] → larger last (largest l) ≡ last
nothing_left last l e = rw e (ground arith)

pub larger_zero : (x : ℕ) → larger 0 x ≡ x
larger_zero x = ground arith

pub larger_again : (last p x : ℕ) → last ≤ p → larger last (larger p x) ≡ larger p x
larger_again last p x le = ground arith

pub up_to-cons : (off p : ℕ) (l : List ℕ) → p ≤ off → up_to off (p ∷ l) ≡ p ∷ up_to off l
up_to-cons off p l le = ground arith

pub largest-cons :
    (off last p v : ℕ) (raws : List ℕ)
    → last ≤ p
    → p ≤ off
    → p + v < 2 ^ 64
    → larger p (largest (up_to off (psum (p + v) raws)))
      ≡ larger last (largest (up_to off (psum p (v ∷ raws))))
unfolding psum
largest-cons off last p v raws le fits small =
    sym (larger_again last p (largest (up_to off (psum (p + v) raws))) le)
    ∙ (ap (λ q. larger last (larger p (largest (up_to off (psum q raws))))) {x = p + v}
          {y = (p + v) % 2 ^ 64} (omega arith)
        ∙ ap (λ l. larger last (largest l))
            (sym (up_to-cons off p (psum ((p + v) % 2 ^ 64) raws) fits)))

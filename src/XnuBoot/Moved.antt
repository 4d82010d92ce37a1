-- ===== src/XnuBoot/Moved.antt =====
-- Stores one behind the other, and `memcpy`, for the copies of lib/jevmachopp/XNUBoot.cpp.
use jevmachopp.Base.{
  ℕ, zero, suc, ◌+◌, ◌%◌, ◌^◌, ◌≤◌, ◌<◌, List, [], ◌∷◌, ◌++◌, length, take, drop, Option, none,
  some, Outcome, done, aborted, overrun, ◌>>=◌, ◌≡◌, refl, ap, sym, ◌∙◌, arith, Ensures,
  Ensures-bind, Ensures-returned, Bool-cases, inl, inr, leb, leb→le, ==_iff, ◌==◌, append_assoc,
  length-append, length-take, length-drop, drop-append_length, take-append_length, Ensures-weaken,
}
use jevmachopp.Memory.{load, store}
use jevmachopp.Memory.Reads.{IsAt}
use jevmachopp.XnuBoot.Prepare.{or_bail, memcpy}

pub Ensures-knowing :
    {A B : Type 0} (Q : B → Type 0) (m : Outcome A) (f : A → Outcome B)
    → ((a : A) → m ≡ done a → Ensures Q (f a))
    → Ensures Q (m >>= f)
Ensures-knowing Q m f h = Ensures-bind (λ a. m ≡ done a) Q m f (Ensures-returned m) h

-- A property that is looked up, where its absence ends the call.
pub Ensures-property :
    {B : Type 0} (Q : B → Type 0) (m : Outcome (Option ℕ)) (bail : B) (f : ℕ → Outcome B)
    → Q bail
    → ((p : ℕ) → m ≡ done (some p) → Ensures Q (f p))
    → Ensures Q (m >>= or_bail bail f)
Ensures-property Q (done none) bail f absent h = absent
Ensures-property Q (done (some p)) bail f absent h = h p refl
Ensures-property Q aborted bail f absent h = tt
Ensures-property Q overrun bail f absent h = tt

pub at_result :
    {A : Type 0} (P : A → Type 0) (m : Outcome A) (a : A) → m ≡ done a → Ensures P m → P a
at_result P m a e h = rw e at h

pub load-Ensures : (mem : List ℕ) (p n : ℕ) → Ensures (λ bytes. length bytes ≡ n) (load mem p n)
unfolding load
load-Ensures mem p n = elim (Bool-cases (length (take n (drop p mem)) == n)) [
  | inl fits ↦ rw fits ((==_iff (length (take n (drop p mem))) n).0 fits)
  | inr misses ↦ rw misses tt
]

pub store-Ensures :
    (mem : List ℕ) (p : ℕ) (bytes : List ℕ)
    → Ensures
        (λ m.
          (p + length bytes ≤ length mem)
          × (m ≡ take p mem ++ (bytes ++ drop (p + length bytes) mem)))
        (store mem p bytes)
unfolding store
store-Ensures mem p bytes = elim (Bool-cases (leb (p + length bytes) (length mem))) [
  | inl fits ↦ rw fits (leb→le _ _ fits, refl)
  | inr misses ↦ rw misses tt
]

take_nil : (k : ℕ) → take {A = ℕ} k [] ≡ []
take_nil zero = refl
take_nil (suc k) = refl

pub take-add : (p n : ℕ) (mem : List ℕ) → take (p + n) mem ≡ take p mem ++ take n (drop p mem)
take-add zero n mem = ap (λ k. take k mem) {x = 0 + n} {y = n} (omega arith)
take-add (suc p) n [] = take_nil (suc p + n) ∙ sym (take_nil n)
take-add (suc p) n (x ∷ mem) =
    ap (λ k. take k (x ∷ mem)) {x = suc p + n} {y = suc (p + n)} (omega arith)
    ∙ ap (λ l. x ∷ l) (take-add p n mem)

-- What is stored behind bytes stands behind them.
pub store-behind :
    (mem : List ℕ) (p : ℕ) (xs ys mem' : List ℕ)
    → IsAt mem p xs
    → store mem (p + length xs) ys ≡ done mem'
    → IsAt mem' p (xs ++ ys) × (length mem' ≡ length mem) × (p + length xs + length ys ≤ length mem)
store-behind mem p xs ys mem' (post, e) stored = (
  (drop (p + length xs + length ys) mem, ap (λ m. drop p m) shape ∙ behind_front),
  ap (λ l. length l) (facts.1) ∙ kept,
  facts.0,
)
  where
    facts :
        (p + length xs + length ys ≤ length mem)
        × (mem' ≡ take (p + length xs) mem ++ (ys ++ drop (p + length xs + length ys) mem))
    facts =
        at_result
          (λ m.
            (p + length xs + length ys ≤ length mem)
            × (m ≡ take (p + length xs) mem ++ (ys ++ drop (p + length xs + length ys) mem)))
          (store mem (p + length xs) ys) mem' stored (store-Ensures mem (p + length xs) ys)

    front : take (p + length xs) mem ≡ take p mem ++ xs
    front =
        take-add p (length xs) mem
        ∙ ap (λ l. take p mem ++ l) (ap (λ l. take (length xs) l) e ∙ take-append_length xs post)

    shape : mem' ≡ take p mem ++ (xs ++ (ys ++ drop (p + length xs + length ys) mem))
    shape =
        facts.1
        ∙ (ap (λ l. l ++ (ys ++ drop (p + length xs + length ys) mem)) front
            ∙ append_assoc (take p mem) xs (ys ++ drop (p + length xs + length ys) mem))

    rest : List ℕ
    rest = drop (p + length xs + length ys) mem

    at_p : length (take p mem) ≡ p
    at_p = omega (arith, length-take p mem, facts.0)

    behind_front : drop p (take p mem ++ (xs ++ (ys ++ rest))) ≡ (xs ++ ys) ++ rest
    behind_front =
        ap (λ n. drop n (take p mem ++ (xs ++ (ys ++ rest)))) (sym at_p)
        ∙ (drop-append_length (take p mem) (xs ++ (ys ++ rest)) ∙ sym (append_assoc xs ys rest))

    kept : length (take (p + length xs) mem ++ (ys ++ rest)) ≡ length mem
    kept = omega (
      arith,
      facts.0,
      length-append (take (p + length xs) mem) (ys ++ rest),
      length-append ys rest,
      length-take (p + length xs) mem,
      length-drop (p + length xs + length ys) mem,
    )

-- Stores of three strings, each behind the one before.
pub three_stores :
    (mem : List ℕ) (p : ℕ) (xs ys zs : List ℕ) (n k : ℕ) (m1 m2 m3 : List ℕ)
    → length mem < 2 ^ 64
    → length xs ≡ n
    → length ys ≡ k
    → store mem p xs ≡ done m1
    → store m1 ((p + n) % 2 ^ 64) ys ≡ done m2
    → store m2 (((p + n) % 2 ^ 64 + k) % 2 ^ 64) zs ≡ done m3
    → ((p + n) % 2 ^ 64 ≡ p + length xs)
      × (((p + n) % 2 ^ 64 + k) % 2 ^ 64 ≡ (p + n) % 2 ^ 64 + length ys)
      × IsAt m3 p ((xs ++ ys) ++ zs)
three_stores mem p xs ys zs n k m1 m2 m3 fits xs_n ys_k first second third =
    let (at1, len1, in1) =
      store-behind mem p [] xs m1 (drop p mem, refl)
        (ap (λ i. store mem i xs) (omega arith) ∙ first) in
    let ys_at : (p + n) % 2 ^ 64 ≡ p + length xs = omega arith in
    let (at2, len2, in2) =
      store-behind m1 p xs ys m2 at1 (ap (λ i. store m1 i ys) (sym ys_at) ∙ second) in
    let zs_at : ((p + n) % 2 ^ 64 + k) % 2 ^ 64 ≡ (p + n) % 2 ^ 64 + length ys = omega arith in
    let (at3, len3, in3) =
      store-behind m2 p (xs ++ ys) zs m3 at2
        (ap (λ i. store m2 i zs) (omega (arith, length-append xs ys)) ∙ third) in
    (ys_at, zs_at, at3)

-- What `memcpy` has done when it returns.
pub record HasMoved (mem : List ℕ) (dest src n : ℕ) (moved : List ℕ) : Type 0 where
  pub bytes : List ℕ
  pub size_eq : length bytes ≡ n
  pub from : load mem src n ≡ done bytes
  pub stored : store mem dest bytes ≡ done moved

pub memcpy-HasMoved :
    (mem : List ℕ) (dest src n : ℕ) → Ensures (HasMoved mem dest src n) (memcpy mem dest src n)
unfolding memcpy
memcpy-HasMoved mem dest src n =
    Ensures-knowing (HasMoved mem dest src n) (load mem src n) (store mem dest) λ bytes from.
      Ensures-weaken (λ m. store mem dest bytes ≡ done m) (HasMoved mem dest src n)
        (store mem dest bytes) (Ensures-returned (store mem dest bytes))
        λ m stored. record {
          bytes = bytes;
          size_eq =
              at_result (λ b. length b ≡ n) (load mem src n) bytes from (load-Ensures mem src n);
          from = from;
          stored = stored;
        }

-- ===== src/Memory/Reads.antt =====
-- Bytes that stand in the memory of a device tree, and what reads of them give.
use jevmachopp.Base.{
  ◌==◌, ℕ, zero, suc, ◌+◌, ◌/◌, ◌^◌, ◌<◌, ◌≤◌, List, [], ◌∷◌, ◌++◌, length, drop, ◌≡◌, refl, ap,
  sym, ◌∙◌, arith, append_assoc, take-append_length, drop-append_length, ==_iff, done, ◌>>=◌, some,
  inl, inr, none, All, ◌≢◌, ◌⊎◌, ==-false, Bool-cases, length-drop, length-append, leb, true,
  le→leb, take, Ensures, subst, All-take, All-drop,
}
use native.Mathlib.Nat.{pow-suc}
use jevmachopp.Text.{before_nul}
use jevmachopp.Hex.{little_endian}
use jevmachopp.Memory.{store, load, loaded_uint, bytes_le, before_nul, c_string}

-- The bytes stand at an offset.
abbrev pub IsAt : List ℕ → ℕ → List ℕ → Type 0
IsAt mem p bytes = (post : List ℕ) × (drop p mem ≡ bytes ++ post)

pub drop-add : (m n : ℕ) (xs : List ℕ) → drop (m + n) xs ≡ drop n (drop m xs)
drop-add zero n xs = ap (λ k. drop k xs) (omega arith)
drop-add (suc m) n [] = ap (λ k. drop k []) (past m n) ∙ nothing n
  where
    past : (m n : ℕ) → suc m + n ≡ suc (m + n)
    past m n = omega arith

    nothing : (k : ℕ) → ◌≡◌ {A = List ℕ} [] (drop k [])
    nothing zero = refl
    nothing (suc k) = refl
drop-add (suc m) n (x ∷ xs) = ap (λ k. drop k (x ∷ xs)) (past m n) ∙ drop-add m n xs
  where
    past : (m n : ℕ) → suc m + n ≡ suc (m + n)
    past m n = omega arith

pub IsAt-left : (mem : List ℕ) (p : ℕ) (xs ys : List ℕ) → IsAt mem p (xs ++ ys) → IsAt mem p xs
IsAt-left mem p xs ys (post, e) = (ys ++ post, e ∙ append_assoc xs ys post)

pub IsAt-right :
    (mem : List ℕ) (p : ℕ) (xs ys : List ℕ) → IsAt mem p (xs ++ ys) → IsAt mem (p + length xs) ys
IsAt-right mem p xs ys (post, e) = (
  post,
  drop-add p (length xs) mem
      ∙ (ap (λ l. drop (length xs) l) (e ∙ append_assoc xs ys post)
          ∙ drop-append_length xs (ys ++ post)),
)

pub load-IsAt :
    (mem : List ℕ) (p : ℕ) (xs : List ℕ) → IsAt mem p xs → load mem p (length xs) ≡ done xs
unfolding load
load-IsAt mem p xs (post, e) =
    rw (e, take-append_length xs post, (==_iff (length xs) (length xs)).1 refl)

pub length-bytes_le : (n x : ℕ) → length (bytes_le n x) ≡ n
unfolding bytes_le
length-bytes_le zero x = refl
length-bytes_le (suc n) x = ap suc (length-bytes_le n (x / 2 ^ 8))

pub little_endian-bytes_le : (n x : ℕ) → x < 256 ^ n → little_endian (bytes_le n x) ≡ x
unfolding bytes_le
little_endian-bytes_le zero x h = omega arith
little_endian-bytes_le (suc n) x h =
    rw (little_endian-bytes_le n (x / 2 ^ 8) (omega (arith, pow-suc 256 n))) (omega arith)

pub loaded_uint-IsAt :
    (mem : List ℕ) (p n x : ℕ)
    → x < 256 ^ n
    → IsAt mem p (bytes_le n x)
    → loaded_uint n mem p ≡ done x
loaded_uint-IsAt mem p n x h at =
    ap (λ r. r >>= λ bytes. done (little_endian bytes))
      (ap (λ k. load mem p k) (sym (length-bytes_le n x)) ∙ load-IsAt mem p (bytes_le n x) at)
    ∙ ap (λ y. done y) (little_endian-bytes_le n x h)

pub before_nul-append :
    (s rest : List ℕ) → All (λ c. c ≢ 0) s → before_nul (s ++ (0 ∷ rest)) ≡ some s
unfolding before_nul
before_nul-append [] rest h = refl
before_nul-append (c ∷ s) rest h = rw (==-false c 0 h.0, before_nul-append s rest h.1)

before_nul-longer :
    (bytes post : List ℕ)
    → (before_nul bytes ≡ none) ⊎ (before_nul (bytes ++ post) ≡ before_nul bytes)
unfolding before_nul
before_nul-longer [] post = inl refl
before_nul-longer (c ∷ cs) post = elim (Bool-cases (c == 0)) [
  | inl nul ↦ inr (rw nul refl)
  | inr other ↦ elim (before_nul-longer cs post) [
    | inl missing ↦ inl (rw (other, missing) refl)
    | inr same ↦ inr (rw same refl)
  ]
]

pub c_string-IsAt :
    (mem : List ℕ) (p : ℕ) (bytes s : List ℕ)
    → IsAt mem p bytes
    → before_nul bytes ≡ some s
    → c_string mem p ≡ done s
c_string-IsAt mem p bytes s (post, e) h = elim (before_nul-longer bytes post) [
  | inl missing ↦ cc
  | inr same ↦ rw (e, same, h)
]

pub IsAt-length : (mem : List ℕ) (p : ℕ) (xs : List ℕ) → IsAt mem p xs → length xs ≤ length mem
IsAt-length mem p xs (post, e) =
    omega (arith, length-drop p mem, length-append xs post, ap (λ l. length l) e)

-- A store over bytes that stand behind others.
pub store-append :
    (a b new : List ℕ)
    → length new ≤ length b
    → store (a ++ b) (length a) new ≡ done (a ++ (new ++ drop (length new) b))
unfolding store
store-append a b new h = rw (
  fits,
  take-append_length a b,
  drop-add (length a) (length new) (a ++ b),
  drop-append_length a b,
)
  where
    fits : leb (length a + length new) (length (a ++ b)) ≡ true
    fits = le→leb (length a + length new) (length (a ++ b)) (omega (arith, length-append a b))

-- Bytes are below 256.
abbrev pub IsBytes : List ℕ → Type 0
IsBytes bytes = All (λ b. b < 2 ^ 8) bytes

little_endian-lt : (xs : List ℕ) → IsBytes xs → little_endian xs < 256 ^ length xs
little_endian-lt [] h = omega arith
little_endian-lt (x ∷ xs) h = omega (arith, pow-suc 256 (length xs), little_endian-lt xs h.1)

-- A load from memory of bytes is bounded.
pub loaded_uint-lt :
    (n : ℕ) (mem : List ℕ) (p : ℕ) → IsBytes mem → Ensures (λ x. x < 256 ^ n) (loaded_uint n mem p)
unfolding load
loaded_uint-lt n mem p h = elim (Bool-cases (length (take n (drop p mem)) == n)) [
  | inl fits ↦ rw fits (
      subst (λ k. little_endian (take n (drop p mem)) < 256 ^ k)
        ((==_iff (length (take n (drop p mem))) n).0 fits)
        (little_endian-lt (take n (drop p mem)) (All-take _ n (drop p mem) (All-drop _ p mem h))))
  | inr misses ↦ rw misses tt
]

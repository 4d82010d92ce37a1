-- ===== src/CStr/Packed.antt =====
-- include/jevmachopp/PackedCStr.h: the strings of a range up to the empty one.
use jevmachopp.Base.{
  if◌then◌else◌, ◌≤◌, ℕ, zero, suc, ◌+◌, List, [], ◌∷◌, ◌++◌, length, Option, none, some, Bool,
  true, ◌==◌, ==-false, Bool-cases, inl, inr, ◌≡◌, ◌≢◌, refl, arith, All, done, ◌>>=◌,
  length-append,
}
use mathlib.Core.Option
use jevmachopp.Text.{find_if_or_nullptr}
use jevmachopp.Memory.{c_string}
use jevmachopp.Memory.Reads.{IsAt, IsAt-left, IsAt-right, c_string-IsAt, before_nul-append}
use jevmachopp.Memory.Place.{place}
use jevmachopp.CStr.{packed_increment, packed_find}

abbrev pub string_image : List ℕ → List ℕ
string_image s = s ++ (0 ∷ [])

-- Strings with their terminators, and an empty one at the end.
abbrev pub strings_image : List (List ℕ) → List ℕ
strings_image [] = 0 ∷ []
strings_image (s ∷ ss) = string_image s ++ strings_image ss

abbrev pub string_size : List ℕ → ℕ
string_size s = length (string_image s)

abbrev pub IsCString : List ℕ → Type 0
IsCString s = (s ≢ []) × All (λ c. c ≢ 0) s

module _ (mem : List ℕ) where
  c_string-head :
      (p : ℕ) (s : List ℕ) (ss : List (List ℕ))
      → All (λ c. c ≢ 0) s
      → IsAt mem p (strings_image (s ∷ ss))
      → c_string mem p ≡ done s
  c_string-head p s ss ok at =
      c_string-IsAt mem p (string_image s) s
        (IsAt-left mem p (string_image s) (strings_image ss) at) (before_nul-append s [] ok)

  behind : (p : ℕ) (s : List ℕ) → p + length s + 1 ≡ p + string_size s
  behind p s = omega (arith, length-append s (0 ∷ []))

  next-IsAt :
      (p : ℕ) (s : List ℕ) (ss : List (List ℕ))
      → IsAt mem p (strings_image (s ∷ ss))
      → IsAt mem (p + string_size s) (strings_image ss)
  next-IsAt p s ss at = IsAt-right mem p (string_image s) (strings_image ss) at

  -- Where the iterator stands before the strings that are left.
  abbrev stands_at : ℕ → List (List ℕ) → Option ℕ
  stands_at p [] = none
  stands_at p (s ∷ ss) = some p

  next_string :
      (p : ℕ) (ss : List (List ℕ))
      → All IsCString ss
      → IsAt mem p (strings_image ss)
      → c_string mem p >>= (λ t. done (if length t == 0 then none else some p))
        ≡ done (stands_at p ss)
  next_string p [] ok at = rw (c_string-IsAt mem p (0 ∷ []) [] at (before_nul-append [] [] tt))
  next_string p ([] ∷ ss) ok at = absurd (ok.0.0 refl)
  next_string p ((c ∷ s) ∷ ss) ok at =
      rw (c_string-head p (c ∷ s) ss ok.0.1 at, ==-false (suc (length s)) 0 (omega arith))

  packed_increment-place :
      (p : ℕ) (s : List ℕ) (ss : List (List ℕ))
      → All IsCString (s ∷ ss)
      → IsAt mem p (strings_image (s ∷ ss))
      → packed_increment mem true (some p) ≡ done (stands_at (p + string_size s) ss)
  unfolding packed_increment
  packed_increment-place p s ss ok at =
      rw (c_string-head p s ss ok.0.1 at, behind p s)
        (next_string (p + string_size s) ss ok.1 (next-IsAt p s ss at))

  packed_find_from :
      (pred : List ℕ → Bool) (fuel p : ℕ) (ss : List (List ℕ))
      → length ss ≤ fuel
      → All IsCString ss
      → IsAt mem p (strings_image ss)
      → packed_find mem pred (suc fuel) (stands_at p ss)
        ≡ done (Option.map (λ e. e.0) (find_if_or_nullptr (λ e. pred e.1) (place string_size p ss)))
  unfolding packed_find find_if_or_nullptr
  packed_find_from pred fuel p [] enough ok at = refl
  packed_find_from pred zero p (s ∷ ss) enough ok at = absurd (omega arith)
  packed_find_from pred (suc fuel) p (s ∷ ss) enough ok at = elim (Bool-cases (pred s)) [
    | inl hit ↦ rw (c_string-head p s ss ok.0.1 at, hit)
    | inr miss ↦
        rw (c_string-head p s ss ok.0.1 at, miss, packed_increment-place p s ss ok at)
          (packed_find_from pred fuel (p + string_size s) ss (omega arith) ok.1
            (next-IsAt p s ss at))
  ]

  -- The search finds the first string that passes the test.
  pub packed_find-place :
      (pred : List ℕ → Bool) (fuel p : ℕ) (s : List ℕ) (ss : List (List ℕ))
      → suc (length ss) ≤ fuel
      → All IsCString (s ∷ ss)
      → IsAt mem p (strings_image (s ∷ ss))
      → packed_find mem pred (suc fuel) (some p)
        ≡ done (
            Option.map
              (λ e. e.0)
              (find_if_or_nullptr (λ e. pred e.1) (place string_size p (s ∷ ss))))
  packed_find-place pred fuel p s ss enough ok at =
      packed_find_from pred fuel p (s ∷ ss) enough ok at

  -- A string at its position.
  abbrev pub IsStringAt : ℕ × List ℕ → Type 0
  IsStringAt e = c_string mem e.0 ≡ done e.1

  pub placed_strings :
      (p : ℕ) (ss : List (List ℕ))
      → All IsCString ss
      → IsAt mem p (strings_image ss)
      → All IsStringAt (place string_size p ss)
  placed_strings p [] ok at = tt
  placed_strings p (s ∷ ss) ok at = (
    c_string-head p s ss ok.0.1 at,
    placed_strings (p + string_size s) ss ok.1 (next-IsAt p s ss at),
  )

pub length-strings_image : (ss : List (List ℕ)) → suc (length ss) ≤ length (strings_image ss)
length-strings_image [] = omega arith
length-strings_image (s ∷ ss) = omega (
  arith,
  length-strings_image ss,
  length-append s (0 ∷ []),
  length-append (string_image s) (strings_image ss),
)

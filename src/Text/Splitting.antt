-- ===== src/Text/Splitting.antt =====
-- `stringSplitViewDelimitedBy`, which nanorange does: what the code relies on.
use jevmachopp.Base.{ℕ, List, [], ◌∷◌, All, ◌≡◌, ◌≢◌}
use jevmachopp.Text.Laws.{joined}

-- A name between delimiters: not empty, and without a delimiter.
abbrev pub IsName : ℕ → List ℕ → Type 0
IsName d n = (n ≢ []) × All (λ c. c ≢ d) n

-- Splitting takes apart what the delimiters hold together, with an empty name before a leading
-- delimiter.
pub record Splits (split : List ℕ → ℕ → List (List ℕ)) : Type 0 where
  pub split_joined :
      (d : ℕ) (n : List ℕ) (names : List (List ℕ))
      → All (IsName d) (n ∷ names)
      → split (joined (d ∷ []) (n ∷ names)) d ≡ n ∷ names
  pub split_rooted :
      (d : ℕ) (n : List ℕ) (names : List (List ℕ))
      → All (IsName d) (n ∷ names)
      → split (d ∷ joined (d ∷ []) (n ∷ names)) d ≡ [] ∷ n ∷ names

-- ===== src/Text/SplitAt.antt =====
-- A splitting of strings, and that it does what the code relies on.
use jevmachopp.Base.{
  ℕ, List, [], ◌∷◌, ◌++◌, All, ◌==◌, ==_iff, ==-false, if◌then◌else◌, ◌≡◌, ◌≢◌, refl, ap, ◌∙◌,
}
use jevmachopp.Text.Laws.{joined}
use jevmachopp.Text.Splitting.{IsName, Splits}

-- The name in front, and the names behind it.
unfoldable pieces : List ℕ → ℕ → List ℕ × List (List ℕ)
pieces [] d = ([], [])
pieces (c ∷ s) d = let p = pieces s d in if c == d then ([], p.0 ∷ p.1) else (c ∷ p.0, p.1)

unfoldable pub split_at : List ℕ → ℕ → List (List ℕ)
unfolding pieces
split_at [] d = []
split_at (c ∷ s) d = let p = pieces (c ∷ s) d in p.0 ∷ p.1

pieces-append :
    (n s : List ℕ) (d : ℕ)
    → All (λ c. c ≢ d) n
    → pieces (n ++ (d ∷ s)) d ≡ (n, (pieces s d).0 ∷ (pieces s d).1)
unfolding pieces
pieces-append [] s d h = rw ((==_iff d d).1 refl)
pieces-append (c ∷ n) s d h = rw (==-false c d h.0, pieces-append n s d h.1)

pieces_name : (n : List ℕ) (d : ℕ) → All (λ c. c ≢ d) n → pieces n d ≡ (n, [])
unfolding pieces
pieces_name [] d h = refl
pieces_name (c ∷ n) d h = rw (==-false c d h.0, pieces_name n d h.1)

pieces-joined :
    (d : ℕ) (n : List ℕ) (names : List (List ℕ))
    → All (IsName d) (n ∷ names)
    → pieces (joined (d ∷ []) (n ∷ names)) d ≡ (n, names)
pieces-joined d n [] h = pieces_name n d h.0.1
pieces-joined d n (m ∷ names) h =
    pieces-append n (joined (d ∷ []) (m ∷ names)) d h.0.1
    ∙ ap (λ p. (n, p.0 ∷ p.1)) (pieces-joined d m names h.1)

split_at-pieces :
    (s : List ℕ) (d : ℕ) (n : List ℕ) (names : List (List ℕ))
    → n ≢ []
    → pieces s d ≡ (n, names)
    → split_at s d ≡ n ∷ names
unfolding split_at pieces
split_at-pieces [] d n names h e = absurd (h (cc e))
split_at-pieces (c ∷ s) d n names h e = rw e

pub split_at-Splits : Splits split_at
unfolding split_at pieces
split_at-Splits = record {
  split_joined = λ d n names h.
      split_at-pieces (joined (d ∷ []) (n ∷ names)) d n names h.0.0 (pieces-joined d n names h);
  split_rooted = λ d n names h. rw ((==_iff d d).1 refl, pieces-joined d n names h);
}

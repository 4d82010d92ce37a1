-- ===== src/Memory/Place.antt =====
-- Elements that stand one after the other in memory, with their positions.
use jevmachopp.Base.{
  ℕ, ◌+◌, List, [], ◌∷◌, ◌≡◌, refl, Bool, true, Bool-cases, inl, inr, ◌⊎◌, All, some, none,
}
use jevmachopp.Text.{find_if_or_nullptr}

module _ {E : Type 0} (size : E → ℕ) where
  -- The elements with their positions, from `p` on.
  abbrev pub place : ℕ → List E → List (ℕ × E)
  place p [] = []
  place p (x ∷ xs) = (p, x) ∷ place (p + size x) xs

  -- An element that is found among those placed is found among the elements.
  pub place-find :
      (test : E → Bool) (P : ℕ × E → Type 0) (p : ℕ) (xs : List E)
      → All P (place p xs)
      → ((find_if_or_nullptr (λ e. test e.1) (place p xs) ≡ none)
          × (find_if_or_nullptr test xs ≡ none))
        ⊎ ((q : ℕ) × (x : E) × (find_if_or_nullptr (λ e. test e.1) (place p xs) ≡ some (q, x))
            × (find_if_or_nullptr test xs ≡ some x)
            × P (q, x)
            × (test x ≡ true))
  unfolding find_if_or_nullptr
  place-find test P p [] ok = inl (refl, refl)
  place-find test P p (x ∷ xs) ok = elim (Bool-cases (test x)) [
    | inl hit ↦ inr (p, x, rw hit refl, rw hit refl, ok.0, hit)
    | inr miss ↦ rw miss (place-find test P (p + size x) xs ok.1)
  ]

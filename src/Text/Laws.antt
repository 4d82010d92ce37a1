-- ===== src/Text/Laws.antt =====
-- include/jevmachopp/Common.h: the helpers on strings against what they mean.
use jevmachopp.Base.{
  ℕ, suc, ◌+◌, ◌-◌, ◌%◌, ◌^◌, ◌<◌, ◌≡◌, refl, ap₂, ◌∙◌, arith, List, [], ◌∷◌, ◌++◌, length, none,
  some, Bool, true, false, ==_iff, ==-false, All, append_assoc, ◌⊎◌, ◌↔◌, Bool-cases, inl, inr,
}
use jevmachopp.Text.{text_eq, find_if_or_nullptr, join_loop, join, range_contains_str}

pub text_eq_self : (s : List ℕ) → text_eq s s ≡ true
unfolding text_eq
text_eq_self [] = refl
text_eq_self (c ∷ s) = rw ((==_iff c c).1 refl, text_eq_self s)

pub text_eq_sound : (s t : List ℕ) → text_eq s t ≡ true → s ≡ t
unfolding text_eq
text_eq_sound [] [] h = refl
text_eq_sound [] (b ∷ t) h = cc
text_eq_sound (a ∷ s) [] h = cc
text_eq_sound (a ∷ s) (b ∷ t) h =
    ap₂ (λ (x : ℕ) (l : List ℕ). x ∷ l) (ground arith) (text_eq_sound s t (ground arith))

-- A string is one of a list.
abbrev pub IsAmong : List ℕ → List (List ℕ) → Type 0
IsAmong s [] = ⊥
IsAmong s (t ∷ ts) = (t ≡ s) ⊎ IsAmong s ts

pub range_contains_str-IsAmong :
    (s : List ℕ) (rng : List (List ℕ)) → (range_contains_str rng s ≡ true) ↔ IsAmong s rng
unfolding range_contains_str
range_contains_str-IsAmong s [] = (λ h. cc, λ h. absurd h)
range_contains_str-IsAmong s (t ∷ rng) = elim (Bool-cases (text_eq t s)) [
  | inl same ↦ (λ h. inl (text_eq_sound t s same), λ h. rw same refl)
  | inr differs ↦
      let (found, back) = range_contains_str-IsAmong s rng in
      (
        λ h. inr (found (rw differs at h)),
        λ h. elim h [
          | inl e ↦ cc (e, differs, text_eq_self s)
          | inr among ↦ rw differs (back among)
        ],
      )
]

-- The elements with the delimiter between them.
abbrev pub joined : List ℕ → List (List ℕ) → List ℕ
joined del [] = []
joined del (el ∷ []) = el
joined del (el ∷ el2 ∷ rng) = el ++ (del ++ joined del (el2 ∷ rng))

join_loop-joined :
    (del : List ℕ) (last i : ℕ) (res : List ℕ) (el : List ℕ) (rng : List (List ℕ))
    → last ≡ i + length rng
    → join_loop del last i res (el ∷ rng) ≡ res ++ joined del (el ∷ rng)
unfolding join_loop
join_loop-joined del last i res el [] h = rw ((==_iff i last).1 (omega arith))
join_loop-joined del last i res el (el2 ∷ rng) h = rw (==-false i last (omega arith)) (
    join_loop-joined del last (i + 1) ((res ++ el) ++ del) el2 rng (omega arith)
    ∙ (append_assoc (res ++ el) del (joined del (el2 ∷ rng))
        ∙ append_assoc res el (del ++ joined del (el2 ∷ rng))))

pub join-joined :
    (rng : List (List ℕ)) (del : List ℕ) → length rng < 2 ^ 64 → join rng del ≡ joined del rng
unfolding join join_loop
join-joined [] del h = refl
join-joined (el ∷ rng) del h =
    join_loop-joined del ((suc (length rng) + 2 ^ 64 - 1) % 2 ^ 64) 0 [] el rng (omega arith)

-- What a search finds passes the test and stands behind elements that do not.
pub find_if_or_nullptr-append {ℓ} :
    {A : Type ℓ} (pred : A → Bool) (xs : List A) (x : A) (ys : List A)
    → All (λ y. pred y ≡ false) xs
    → pred x ≡ true
    → find_if_or_nullptr pred (xs ++ (x ∷ ys)) ≡ some x
unfolding find_if_or_nullptr
find_if_or_nullptr-append pred [] x ys h e = rw e
find_if_or_nullptr-append pred (y ∷ xs) x ys h e =
    rw h.0 (find_if_or_nullptr-append pred xs x ys h.1 e)

pub find_if_or_nullptr-none {ℓ} :
    {A : Type ℓ} (pred : A → Bool) (xs : List A)
    → All (λ y. pred y ≡ false) xs
    → find_if_or_nullptr pred xs ≡ none
unfolding find_if_or_nullptr
find_if_or_nullptr-none pred [] h = refl
find_if_or_nullptr-none pred (y ∷ xs) h = rw h.0 (find_if_or_nullptr-none pred xs h.1)

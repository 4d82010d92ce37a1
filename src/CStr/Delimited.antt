-- ===== src/CStr/Delimited.antt =====
-- include/jevmachopp/DelimitedCStr.h: the views of a range are the parts of the string.
use jevmachopp.Base.{
  ℕ, zero, suc, ◌≤◌, List, [], ◌∷◌, ◌++◌, length, none, some, ==_iff, ==-false, ◌≡◌, ◌≢◌, refl, ap,
  sym, ◌∙◌, arith, All, done, ◌>>=◌, length-append, ℕ_discrete, ap₂,
}
use jevmachopp.Text.Laws.{joined}
use jevmachopp.CStr.{
  cut_at, set_view, DelimitedIterator, delimited_start, delimited_increment, delimited_views,
  range_for_delimited_c_str,
}

abbrev pub NoDelimiter : ℕ → List ℕ → Type 0
NoDelimiter d s = All (λ c. c ≢ d) s

cut_at-append : (d : ℕ) (s t : List ℕ) → All (λ c. c ≢ d) s → cut_at d (s ++ (d ∷ t)) ≡ some (s, t)
unfolding cut_at
cut_at-append d [] t h = rw ((==_iff d d).1 refl)
cut_at-append d (c ∷ s) t h = rw (==-false c d h.0, cut_at-append d s t h.1)

cut_at-none : (d : ℕ) (s : List ℕ) → All (λ c. c ≢ d) s → cut_at d s ≡ none
unfolding cut_at
cut_at-none d [] h = refl
cut_at-none d (c ∷ s) h = rw (==-false c d h.0, cut_at-none d s h.1)

views-step :
    (d fuel : ℕ) (s v : List ℕ) (it : DelimitedIterator)
    → delimited_increment d (record { m_ptr = some s; m_view = v }) ≡ done it
    → delimited_views d (suc fuel) (record { m_ptr = some s; m_view = v })
      ≡ delimited_views d fuel it >>= λ vs. done (v ∷ vs)
unfolding delimited_views
views-step d fuel s v it h = rw h

abbrev at_string : ℕ → List ℕ → DelimitedIterator
at_string d s = record { m_ptr = some s; m_view = set_view d s }

increment-append :
    (d : ℕ) (s t : List ℕ)
    → NoDelimiter d s
    → delimited_increment d (at_string d (s ++ (d ∷ t))) ≡ done (at_string d t)
unfolding delimited_increment
increment-append d s t h = rw (cut_at-append d s t h)

set_view-append : (d : ℕ) (s t : List ℕ) → NoDelimiter d s → set_view d (s ++ (d ∷ t)) ≡ s
unfolding set_view
set_view-append d s t h = rw (cut_at-append d s t h)

views_last :
    (d fuel : ℕ) (s : List ℕ)
    → NoDelimiter d s
    → delimited_views d (suc (suc fuel)) (at_string d s) ≡ done (s ∷ [])
unfolding delimited_views delimited_increment set_view
views_last d fuel s h = rw (cut_at-none d s h)

views_from :
    (d fuel : ℕ) (s : List ℕ) (parts : List (List ℕ))
    → All (NoDelimiter d) (s ∷ parts)
    → length parts ≤ fuel
    → delimited_views d (suc (suc fuel)) (at_string d (joined (d ∷ []) (s ∷ parts)))
      ≡ done (s ∷ parts)
views_from d fuel s [] ok enough = views_last d fuel s ok.0
views_from d zero s (t ∷ parts) ok enough = absurd (omega arith)
views_from d (suc fuel) s (t ∷ parts) ok enough =
    views-step d (suc (suc fuel)) (joined (d ∷ []) (s ∷ t ∷ parts)) _ _
      (increment-append d s (joined (d ∷ []) (t ∷ parts)) ok.0)
    ∙ rw (
      views_from d fuel t parts ok.1 (omega arith),
      set_view-append d s (joined (d ∷ []) (t ∷ parts)) ok.0,
    )

length-joined :
    (d : ℕ) (s : List ℕ) (parts : List (List ℕ))
    → length parts ≤ length (joined (d ∷ []) (s ∷ parts))
length-joined d s [] = omega arith
length-joined d s (t ∷ parts) =
    omega (arith, length-append s (d ∷ joined (d ∷ []) (t ∷ parts)), length-joined d t parts)

range-joined :
    (d : ℕ) (s : List ℕ) (parts : List (List ℕ))
    → All (NoDelimiter d) (s ∷ parts)
    → range_for_delimited_c_str d (some (joined (d ∷ []) (s ∷ parts))) ≡ done (s ∷ parts)
unfolding range_for_delimited_c_str delimited_start
range-joined d s parts ok =
    views_from d (length (joined (d ∷ []) (s ∷ parts))) s parts ok (length-joined d s parts)

-- The parts of a string.
pub record Parts (d : ℕ) (str : List ℕ) : Type 0 where
  pub first : List ℕ
  pub others : List (List ℕ)
  pub no_delimiter : All (NoDelimiter d) (first ∷ others)
  pub joins : joined (d ∷ []) (first ∷ others) ≡ str

joined-cons :
    (d c : ℕ) (s : List ℕ) (parts : List (List ℕ))
    → joined (d ∷ []) ((c ∷ s) ∷ parts) ≡ c ∷ joined (d ∷ []) (s ∷ parts)
joined-cons d c s [] = refl
joined-cons d c s (t ∷ parts) = refl

parts_of : (d : ℕ) (str : List ℕ) → Parts d str
parts_of d [] = record { first = []; others = []; no_delimiter = (tt, tt); joins = refl }
parts_of d (c ∷ cs) = longer (parts_of d cs)
  where
    longer : Parts d cs → Parts d (c ∷ cs)
    longer p = elim (ℕ_discrete c d) [
      | yes same ↦ record {
        first = [];
        others = p.first ∷ p.others;
        no_delimiter = (tt, p.no_delimiter);
        joins = ap₂ (λ (x : ℕ) (l : List ℕ). x ∷ l) (sym same) p.joins;
      }
      | no other ↦ record {
        first = c ∷ p.first;
        others = p.others;
        no_delimiter = ((other, p.no_delimiter.0), p.no_delimiter.1);
        joins = joined-cons d c p.first p.others ∙ ap (λ (l : List ℕ). c ∷ l) p.joins;
      }
    ]

-- The range over any string ends, and its views are the parts of the string: none has the
-- delimiter, and joined by it they are the string again.
pub range-Parts :
    (d : ℕ) (str : List ℕ)
    → (p : Parts d str) × (range_for_delimited_c_str d (some str) ≡ done (p.first ∷ p.others))
range-Parts d str =
    let p = parts_of d str in
    (
      p,
      ap (λ s. range_for_delimited_c_str d (some s)) (sym p.joins)
          ∙ range-joined d p.first p.others p.no_delimiter,
    )

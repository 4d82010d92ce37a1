-- ===== src/CStr.antt =====
-- include/jevmachopp/DelimitedCStr.h and include/jevmachopp/PackedCStr.h: the iterators of the parts
-- of a C string between delimiters, and of C strings that stand one after the other in memory.
pub mod Delimited
pub mod Packed
mod Tests
use jevmachopp.Base.{
  ℕ, zero, suc, ◌+◌, List, [], ◌∷◌, length, Option, none, some, Bool, true, false, ◌==◌,
  if◌then◌else◌, Outcome, done, aborted, overrun, ◌>>=◌, ◌>>◌,
}
use mathlib.Core.Option
use jevmachopp.Text.{text_eq}
use jevmachopp.Memory.{c_string}

-- `strchr(s, d)` for a character that is not 0: what stands before it, and what stands behind it. The
-- repository has a space as the only one. For 0, `strchr` would give the end of the string.
unfoldable pub cut_at : ℕ → List ℕ → Option (List ℕ × List ℕ)
cut_at d [] = none
cut_at d (c ∷ cs) =
    let rest = Option.map (λ (p : List ℕ × List ℕ). (c ∷ p.0, p.1)) (cut_at d cs) in
    if c == d then some ([], cs) else rest

-- `DelimitedCStrIterator`; its pointer is the string from there on, and none for null.
pub record DelimitedIterator : Type 0 where
  pub m_ptr : Option (List ℕ)
  pub m_view : List ℕ

abbrev pub delimited_end : DelimitedIterator
delimited_end = record { m_ptr = none; m_view = [] }

abbrev view_of : List ℕ → Option (List ℕ × List ℕ) → List ℕ
view_of s none = s
view_of s (some p) = p.0

-- `set_view`, with no delimiter known.
unfoldable pub set_view : ℕ → List ℕ → List ℕ
unfolding cut_at
set_view d s = view_of s (cut_at d s)

-- The constructor; `strchr` of a null pointer is undefined.
unfoldable pub delimited_start : ℕ → Option (List ℕ) → Outcome DelimitedIterator
unfolding set_view
delimited_start d none = overrun
delimited_start d (some s) = done (record { m_ptr = some s; m_view = set_view d s })

abbrev next_part : ℕ → Option (List ℕ × List ℕ) → DelimitedIterator
next_part d none = delimited_end
next_part d (some p) = record { m_ptr = some p.1; m_view = set_view d p.1 }

unfoldable pub delimited_increment : ℕ → DelimitedIterator → Outcome DelimitedIterator
unfolding cut_at set_view
delimited_increment d it = elim it.m_ptr [
  | none ↦ overrun
  | some s ↦ done (next_part d (cut_at d s))
]

-- The views of the iterators up to the end, with fuel for the steps.
unfoldable pub delimited_views : ℕ → ℕ → DelimitedIterator → Outcome (List (List ℕ))
delimited_views d zero it = aborted
delimited_views d (suc fuel) it = elim it.m_ptr [
  | none ↦ done []
  | some s ↦
      delimited_increment d it >>= λ it'. delimited_views d fuel it' >>= λ vs. done (it.m_view ∷ vs)
]

abbrev fuel_for : Option (List ℕ) → ℕ
fuel_for none = 1
fuel_for (some s) = suc (suc (length s))

-- `rangeForDelimitedCStr`, the views of the range.
unfoldable pub range_for_delimited_c_str : ℕ → Option (List ℕ) → Outcome (List (List ℕ))
unfolding delimited_start delimited_views
range_for_delimited_c_str d s = delimited_start d s >>= delimited_views d (fuel_for s)

-- `rangeForSpaceDelimitedCStr`
abbrev pub range_for_space_delimited_c_str : Option (List ℕ) → Outcome (List (List ℕ))
range_for_space_delimited_c_str s = range_for_delimited_c_str b' ' s

module _ (mem : List ℕ) where
  -- `++` of `PackedCStrIteratorBase`, whose pointer is an offset; `eterm` is its parameter.
  unfoldable pub packed_increment : Bool → Option ℕ → Outcome (Option ℕ)
  packed_increment eterm none = overrun
  packed_increment eterm (some p) = c_string mem p >>= λ s.
      let q = p + length s + 1 in
      if eterm
      then (c_string mem q >>= λ t. done (if length t == 0 then none else some q))
      else done (some q)

  -- The first string of a range that passes a test, with its offset; the range ends at the null
  -- pointer, and there is fuel for the steps.
  unfoldable pub packed_find : (List ℕ → Bool) → ℕ → Option ℕ → Outcome (Option ℕ)
  unfolding packed_increment
  packed_find pred zero it = aborted
  packed_find pred (suc fuel) it = elim it [
    | none ↦ done none
    | some p ↦ c_string mem p >>= λ s. elim (pred s) [
      | true ↦ done (some p)
      | false ↦ packed_increment true (some p) >>= packed_find pred fuel
    ]
  ]

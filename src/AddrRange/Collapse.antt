-- ===== src/AddrRange/Collapse.antt =====
-- include/jevmachopp/CommonTypes.h: `collapseRange`, with the order of ranges by inclusion.
use jevmachopp.Base.{◌≤◌, ◌≡◌, ◌⊎◌, inl, inr, refl, arith, List, [], ◌∷◌, All}
use jevmachopp.AddrRange.{AddrRange, null, join, collapse_from, collapse_range, IsRange}
use jevmachopp.AddrRange.Laws.{join-IsRange}

-- Every address of `a` is one of `b`.
abbrev pub Within : AddrRange → AddrRange → Type 0
Within a b = (a ≡ null) ⊎ ((b.min_addr ≤ a.min_addr) × (a.max_addr ≤ b.max_addr))

Within-join_left : (a b : AddrRange) → IsRange a → IsRange b → Within a (join a b)
unfolding join
Within-join_left a b (inl ea) hb = inl ea
Within-join_left a b (inr ha) hb = inr (ground arith)

Within-join_right : (a b : AddrRange) → IsRange a → IsRange b → Within b (join a b)
unfolding join
Within-join_right a b ha (inl eb) = inl eb
Within-join_right a b ha (inr hb) = inr (ground arith)

Within-trans : (a b c : AddrRange) → IsRange a → Within a b → Within b c → Within a c
Within-trans a b c ha (inl e) k = inl e
Within-trans a b c ha (inr h) (inl e) = ground arith
Within-trans a b c ha (inr h) (inr k) = inr (omega arith)

join_least :
    (a b u : AddrRange) → IsRange a → IsRange b → Within a u → Within b u → Within (join a b) u
unfolding join
join_least a b u ha hb (inl ea) kb = ground arith
join_least a b u ha hb (inr ka) (inl eb) = ground arith
join_least a b u ha hb (inr ka) (inr kb) = inr (ground arith)

collapse_from-IsRange :
    (acc : AddrRange) (rs : List AddrRange)
    → IsRange acc
    → All IsRange rs
    → IsRange (collapse_from acc rs)
unfolding collapse_from
collapse_from-IsRange acc [] ha h = ha
collapse_from-IsRange acc (r ∷ rs) ha h =
    collapse_from-IsRange (join acc r) rs (join-IsRange acc r ha h.0) h.1

collapse_from-covers :
    (acc : AddrRange) (rs : List AddrRange)
    → IsRange acc
    → All IsRange rs
    → Within acc (collapse_from acc rs) × All (λ r. Within r (collapse_from acc rs)) rs
unfolding collapse_from
collapse_from-covers acc [] ha h = (ground arith, tt)
collapse_from-covers acc (r ∷ rs) ha h =
    let u = collapse_from (join acc r) rs in
    let (first, others) = collapse_from-covers (join acc r) rs (join-IsRange acc r ha h.0) h.1 in
    (
      Within-trans acc (join acc r) u ha (Within-join_left acc r ha h.0) first,
      (Within-trans r (join acc r) u h.0 (Within-join_right acc r ha h.0) first, others),
    )

collapse_from-least :
    (acc : AddrRange) (rs : List AddrRange) (u : AddrRange)
    → IsRange acc
    → All IsRange rs
    → Within acc u
    → All (λ r. Within r u) rs
    → Within (collapse_from acc rs) u
unfolding collapse_from
collapse_from-least acc [] u ha h ka k = ka
collapse_from-least acc (r ∷ rs) u ha h ka k =
    collapse_from-least (join acc r) rs u (join-IsRange acc r ha h.0) h.1
      (join_least acc r u ha h.0 ka k.0) k.1

-- The collapsed range of a list of well-formed ranges is well formed, covers every range of the
-- list, and lies in any range that covers them all.
pub collapse_range_least :
    (rs : List AddrRange)
    → All IsRange rs
    → IsRange (collapse_range rs)
      × All (λ r. Within r (collapse_range rs)) rs
      × ((u : AddrRange) → All (λ r. Within r u) rs → Within (collapse_range rs) u)
unfolding collapse_range
collapse_range_least rs h = (
  collapse_from-IsRange null rs (inl refl) h,
  (collapse_from-covers null rs (inl refl) h).1,
  λ u k. collapse_from-least null rs u (inl refl) h (inl refl) k,
)

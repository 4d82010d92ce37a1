-- ===== src/AddrRange/Tests.antt =====
-- Ranges on small inputs.
use jevmachopp.Base.{refl, arith, List, [], ◌∷◌, All, inr, inl}
use jevmachopp.AddrRange.{IsRange, null, collapse_range, AddrRange}
use jevmachopp.AddrRange.Collapse.{Within, collapse_range_least}

abbrev low : AddrRange
low = record { min_addr = 0x1000; max_addr = 0x4000 }

abbrev high : AddrRange
high = record { min_addr = 0x8000; max_addr = 0x9000 }

low-IsRange : IsRange low
low-IsRange = inr (omega arith, omega arith)

high-IsRange : IsRange high
high-IsRange = inr (omega arith, omega arith)

null-IsRange : IsRange null
null-IsRange = inl refl

abbrev ranges : List AddrRange
ranges = high ∷ null ∷ low ∷ []

collapse_range_least_example :
    IsRange (collapse_range ranges)
    × All (λ r. Within r (collapse_range ranges)) ranges
    × ((u : AddrRange) → All (λ r. Within r u) ranges → Within (collapse_range ranges) u)
collapse_range_least_example =
    collapse_range_least ranges (high-IsRange, (null-IsRange, (low-IsRange, tt)))

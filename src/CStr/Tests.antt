-- ===== src/CStr/Tests.antt =====
-- Tests of include/jevmachopp/DelimitedCStr.h.
use jevmachopp.Base.{ℕ, List, [], ◌∷◌, some, ◌≡◌, done}
use jevmachopp.CStr.{range_for_delimited_c_str}
use jevmachopp.CStr.Delimited.{Parts, range-Parts}

abbrev two_args : List ℕ
two_args = b'-' ∷ b'v' ∷ b' ' ∷ b'x' ∷ []

range-Parts_example :
    (p : Parts b' ' two_args) × (range_for_delimited_c_str b' ' (some two_args)
      ≡ done (p.first ∷ p.others))
range-Parts_example = range-Parts b' ' two_args

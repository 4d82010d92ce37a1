-- ===== src/AddrRange.antt =====
-- include/jevmachopp/CommonTypes.h: `AddrRange`, a range of 64-bit addresses with a null value. An
-- operator that assigns returns the new range.
pub mod Laws
pub mod Collapse
mod Tests
use jevmachopp.Base.{
  ℕ, ◌+◌, ◌-◌, ◌%◌, ◌^◌, ◌<◌, ◌≤◌, ◌≡◌, ◌⊎◌, min, max, List, [], ◌∷◌, Bool, ◌&&◌, not, leb, ◌==◌,
  if◌then◌else◌, Outcome, done, ◌>>=◌, ◌>>◌, check,
}

pub record AddrRange : Type 0 where
  pub min_addr : ℕ
  pub max_addr : ℕ

abbrev pub u64_max : ℕ
u64_max = 2 ^ 64 - 1

-- The default constructor.
abbrev pub null : AddrRange
null = record { min_addr = u64_max; max_addr = 0 }

-- The constructor from two addresses.
unfoldable pub make : ℕ → ℕ → Outcome AddrRange
make lo hi = do check (leb lo hi); done (record { min_addr = lo; max_addr = hi })

unfoldable pub is_null : AddrRange → Bool
is_null r = r.min_addr == u64_max && r.max_addr == 0

unfoldable pub size : AddrRange → ℕ
size r = (r.max_addr + 2 ^ 64 - r.min_addr) % 2 ^ 64

unfoldable pub range_eq : AddrRange → AddrRange → Bool
range_eq a b = a.min_addr == b.min_addr && a.max_addr == b.max_addr

unfoldable pub join : AddrRange → AddrRange → AddrRange
unfolding is_null
join lhs rhs =
    if is_null rhs
    then lhs
    else (if is_null lhs then rhs else record {
      min_addr = min lhs.min_addr rhs.min_addr;
      max_addr = max lhs.max_addr rhs.max_addr;
    })

-- `operator-=`, on both ends, with wrap-around.
unfoldable pub shift_down : AddrRange → ℕ → AddrRange
unfolding is_null
shift_down r d = if is_null r then r else record {
  min_addr = (r.min_addr + 2 ^ 64 - d) % 2 ^ 64;
  max_addr = (r.max_addr + 2 ^ 64 - d) % 2 ^ 64;
}

-- The loop of `collapseRange`, from the ranges joined so far.
unfoldable pub collapse_from : AddrRange → List AddrRange → AddrRange
unfolding join
collapse_from res [] = res
collapse_from res (r ∷ rs) = collapse_from (join res r) rs

unfoldable pub collapse_range : List AddrRange → AddrRange
unfolding collapse_from
collapse_range rs = collapse_from null rs

-- Null, or two addresses in order, as both constructors leave it.
abbrev pub IsRange : AddrRange → Type 0
IsRange r = (r ≡ null) ⊎ ((r.min_addr ≤ r.max_addr) × (r.max_addr < 2 ^ 64))

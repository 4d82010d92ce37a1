-- ===== src/Memory.antt =====
-- Memory: the list of its bytes, with offsets as pointers. An access outside of it overruns.
pub mod Reads
pub mod Place
use jevmachopp.Base.{
  ℕ, zero, suc, ◌+◌, ◌-◌, ◌/◌, ◌%◌, ◌^◌, List, [], ◌∷◌, ◌++◌, length, take, drop, Option, none,
  some, ◌==◌, leb, if◌then◌else◌, Outcome, done, overrun, ◌>>=◌,
}
use jevmachopp.Text.{before_nul}
use jevmachopp.Hex.{little_endian}

-- `n` bytes from `p` on.
unfoldable pub load : List ℕ → ℕ → ℕ → Outcome (List ℕ)
load mem p n = let bytes = take n (drop p mem) in if length bytes == n then done bytes else overrun

unfoldable pub store : List ℕ → ℕ → List ℕ → Outcome (List ℕ)
store mem p bytes =
    if leb (p + length bytes) (length mem)
    then done (take p mem ++ (bytes ++ drop (p + length bytes) mem))
    else overrun

abbrev pub loaded_uint : ℕ → List ℕ → ℕ → Outcome ℕ
loaded_uint n mem p = load mem p n >>= λ bytes. done (little_endian bytes)

abbrev terminated : Option (List ℕ) → Outcome (List ℕ)
terminated none = overrun
terminated (some s) = done s

-- The C string from `p` on.
abbrev pub c_string : List ℕ → ℕ → Outcome (List ℕ)
c_string mem p = terminated (before_nul (drop p mem))

-- The bytes of a number, the lowest first.
unfoldable pub bytes_le : ℕ → ℕ → List ℕ
bytes_le zero x = []
bytes_le (suc n) x = x % 2 ^ 8 ∷ bytes_le n (x / 2 ^ 8)

-- ===== src/Slurp.antt =====
-- lib/jevmachopp/Slurp.cpp: files that are mapped into memory, and written. The calls of the system are
-- parameters; none is the -1 that they return. Each file that is opened is closed before the return.
mod Tests
use jevmachopp.Base.{
  ℕ, List, length, Option, none, some, Bool, not, ◌==◌, Outcome, done, aborted, ◌>>=◌, ◌>>◌, check,
}

-- `mmap` maps a size, of a file or of none; where it fails, it gives `MAP_FAILED`.
pub record Calls : Type 0 where
  pub open_file : List ℕ → Option ℕ
  pub fstat_size : ℕ → Option ℕ
  pub mmap : ℕ → Option ℕ → ℕ
  pub write : ℕ → List ℕ → Option ℕ

-- A result that is asserted to be one.
abbrev pub asserted : Option ℕ → Outcome ℕ
asserted none = aborted
asserted (some n) = done n

module _ (calls : Calls) where
  -- `readfile`: where the file is mapped, and `*len`.
  unfoldable pub readfile : List ℕ → Outcome (ℕ × ℕ)
  readfile filename = do
    fd ← asserted (calls.open_file filename)
    size ← asserted (calls.fstat_size fd)
    check (not (calls.mmap size (some fd) == 0))
    done (calls.mmap size (some fd), size)

  unfoldable pub writefile : List ℕ → List ℕ → Outcome (Unit {0})
  writefile filename buf = do
    fd ← asserted (calls.open_file filename)
    wrote_len ← asserted (calls.write fd buf)
    check (wrote_len == length buf)

  unfoldable pub map_memory : ℕ → Outcome ℕ
  map_memory size = do check (not (calls.mmap size none == 0)); done (calls.mmap size none)

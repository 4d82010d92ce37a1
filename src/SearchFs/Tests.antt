-- ===== src/SearchFs/Tests.antt =====
-- Tests of lib/jevmachopp/SearchFS.cpp, with the numbers that errors have on macOS.
use jevmachopp.Base.{ℕ, ◌+◌, ◌<◌, [], ◌∷◌, true, false, done, ◌≡◌, refl, arith, ◌==◌, ◌^◌, ◌-◌}
use jevmachopp.SearchFs.{Reply, SearchOptions, finished, searching, files_larger_than, process_file}
use jevmachopp.SearchFs.Calls.{
  Fails, matches_of, files_larger_than-finished, files_larger_than-searching,
}

-- Two calls of which the first one has more to come.
abbrev two_calls : ℕ → SearchOptions → Reply
two_calls i options = record { res = i == 0; errno = 35; matches = (10 + i) ∷ [] }

two_calls-Fails : (j : ℕ) → j < 1 → Fails 35 16 two_calls j
two_calls-Fails j lt = ground arith

files_larger_than-finished_example :
    files_larger_than 35 16 two_calls false (1 + 1) ≡ done (finished (matches_of 35 16 two_calls 2))
files_larger_than-finished_example =
    files_larger_than-finished 35 16 two_calls 1 0 two_calls-Fails refl

-- A search that is not permitted.
abbrev not_permitted : ℕ → SearchOptions → Reply
not_permitted i options = record { res = true; errno = 1; matches = [] }

files_larger_than-searching_example :
    files_larger_than 35 16 not_permitted false 3
    ≡ done (searching (matches_of 35 16 not_permitted 3))
files_larger_than-searching_example =
    files_larger_than-searching 35 16 not_permitted 3 (λ j lt. (refl, λ e. absurd (omega arith)))

ten_eleven : files_larger_than 35 16 two_calls false 2 ≡ done (finished (10 ∷ 11 ∷ []))
unfolding files_larger_than
ten_eleven = refl

-- A failed `fsgetpath` gives -1.
no_path : process_file (record { getpath_res = 2 ^ 32 - 1; opens = false }) 0 ≡ done (false, 1)
unfolding process_file
no_path = refl

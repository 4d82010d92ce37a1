-- ===== src/Slurp/Tests.antt =====
-- Tests of lib/jevmachopp/Slurp.cpp.
use jevmachopp.Base.{◌-◌, ◌^◌, [], ◌∷◌, some, done, aborted, ◌≡◌, refl}
use jevmachopp.Slurp.{Calls, readfile, writefile}

-- A file of 100 bytes that cannot be mapped, and takes a byte in a write.
abbrev calls : Calls
calls = record {
  open_file = λ name. some 3;
  fstat_size = λ fd. some 100;
  mmap = λ size fd. 2 ^ 64 - 1;
  write = λ fd buf. some 1;
}

-- The failure is returned as an address.
unmapped_file : readfile calls [] ≡ done (2 ^ 64 - 1, 100)
unfolding readfile
unmapped_file = refl

short_write : writefile calls [] (1 ∷ 2 ∷ []) ≡ aborted
unfolding writefile
short_write = refl

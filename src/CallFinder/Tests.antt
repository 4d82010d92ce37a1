-- ===== src/CallFinder/Tests.antt =====
-- Tests of lib/jevmachopp/CallFinder.cpp.
use jevmachopp.Base.{
  ◌*◌, ◌/◌, Outcome, aborted, overrun, ap, arith, List, [], ◌∷◌, some, false, done, ◌≡◌, refl,
  Ensures, ℕ,
}
use jevmachopp.Csr.{to_strings}
use jevmachopp.Arm64.{is_bl_to, is_mov_wide_imm_to, decode_mov_wide_imm}
use jevmachopp.CallFinder.{write_loop, found_call, call_loop, subspan}
use jevmachopp.CallFinder.Scan.{StartsBefore, call_loop-reports, AreReports}

-- `mov w0, #0x7f` and `bl` to the stub, in a function at the beginning of the file.
abbrev text : List ℕ
text = 0x52800fe0 ∷ 0x94000003 ∷ []

-- Functions of two instructions each.
abbrev pairs : ℕ → Outcome ℕ
pairs off = done (off / 8 * 8)

pairs-StartsBefore : StartsBefore pairs
pairs-StartsBefore off start e = (omega (arith, get_done e), omega (arith, get_done e))
  where
    value_of : Outcome ℕ → ℕ
    value_of (done n) = n
    value_of aborted = 0
    value_of overrun = 0

    get_done : done (off / 8 * 8) ≡ done start → off / 8 * 8 ≡ start
    get_done h = ap value_of h

call_loop-reports_example :
    Ensures
      (AreReports text pairs 0x1000 0x1010 0x1000 text)
      (call_loop (found_call text pairs 0x1000) 0x1010 0x1000 text)
call_loop-reports_example =
    call_loop-reports text pairs 0x1000 0x1010 pairs-StartsBefore (omega arith)

-- The call is found, with the write before it; its address is that of the instruction before the call.
call_of_stub :
    call_loop (found_call text pairs 0x1000) 0x1010 0x1000 text
    ≡ done (
        record {
          pc = 0x1004;
          foff = 4;
          write =
              some (record { dis_pc = 0x1000; val = 0x7f; is64 = false; flags = to_strings 0x7f });
        }
        ∷ [])
unfolding call_loop found_call is_bl_to subspan is_mov_wide_imm_to decode_mov_wide_imm
call_of_stub = refl

-- The address of a write that stands two before the call.
write_two_before :
    write_loop 0x1004 (0xd503201f ∷ 0x52800fe0 ∷ [])
    ≡ done (some (record { dis_pc = 0x1004; val = 0x7f; is64 = false; flags = to_strings 0x7f }))
unfolding write_loop is_mov_wide_imm_to decode_mov_wide_imm
write_two_before = refl

-- ===== src/CallFinder/Moves.antt =====
-- The last wide move to a register before a call, for lib/jevmachopp/CallFinder.cpp.
use jevmachopp.Base.{
  ℕ, List, [], ◌∷◌, ◌++◌, Option, none, some, Bool, true, false, if◌then◌else◌, Outcome, done,
  ◌>>=◌, ◌≡◌, refl, ap, sym, ◌∙◌, Bool-cases, inl, inr,
}
use mathlib.Core.List
use jevmachopp.Arm64.{is_mov_wide_imm_to, decode_mov_wide_imm}
use jevmachopp.CallFinder.{FoundWrite, write_of, write_loop}

-- The last instruction that is a wide move to the register, after one found before.
abbrev pub last_move : Option ℕ → List ℕ → Option ℕ
last_move found [] = found
last_move found (x ∷ xs) = last_move (if is_mov_wide_imm_to x 0 then some x else found) xs

-- What is reported of it.
abbrev pub described : ℕ → Option ℕ → Outcome (Option FoundWrite)
described dis_pc none = done none
described dis_pc (some instr) = decode_mov_wide_imm instr >>= write_of dis_pc

-- The first one.
first_move : List ℕ → Option ℕ
first_move [] = none
first_move (x ∷ xs) = let rest = first_move xs in if is_mov_wide_imm_to x 0 then some x else rest

or_else : Option ℕ → Option ℕ → Option ℕ
or_else none o = o
or_else (some x) o = some x

write_loop-first :
    (dis_pc : ℕ) (xs : List ℕ) → write_loop dis_pc xs ≡ described dis_pc (first_move xs)
unfolding write_loop first_move
write_loop-first dis_pc [] = refl
write_loop-first dis_pc (x ∷ xs) = elim (Bool-cases (is_mov_wide_imm_to x 0)) [
  | inl hit ↦ rw (hit, write_loop) refl
  | inr miss ↦ rw (miss, write_loop) (write_loop-first dis_pc xs)
]

first_move-append :
    (xs ys : List ℕ) → first_move (xs ++ ys) ≡ or_else (first_move xs) (first_move ys)
unfolding first_move or_else
first_move-append [] ys = refl
first_move-append (x ∷ xs) ys = elim (Bool-cases (is_mov_wide_imm_to x 0)) [
  | inl hit ↦ rw hit refl
  | inr miss ↦ rw miss (first_move-append xs ys)
]

or_else-if :
    (o found : Option ℕ) (x : ℕ) (b : Bool)
    → or_else o (if b then some x else found)
      ≡ or_else (or_else o (if b then some x else none)) found
unfolding or_else
or_else-if (some y) found x b = refl
or_else-if none found x true = refl
or_else-if none found x false = refl

last_move-reverse :
    (found : Option ℕ) (xs : List ℕ)
    → last_move found xs ≡ or_else (first_move (List.reverse xs)) found
unfolding first_move or_else
last_move-reverse found [] = refl
last_move-reverse found (x ∷ xs) =
    last_move-reverse (if is_mov_wide_imm_to x 0 then some x else found) xs
    ∙ (or_else-if (first_move (List.reverse xs)) found x (is_mov_wide_imm_to x 0)
        ∙ (ap (λ o. or_else o found) (sym (first_move-append (List.reverse xs) (x ∷ [])))
            ∙ ap (λ l. or_else (first_move l) found) (sym (List.reverse-cons x xs))))

or_else-none : (o : Option ℕ) → or_else o none ≡ o
unfolding or_else
or_else-none none = refl
or_else-none (some x) = refl

-- For any instructions, the loop over them from the last one back reports what a pass from the
-- first one on, which keeps the last wide move to the register, gives: the same write, nothing, or
-- the same undefined shift.
pub write_loop-last_move :
    (dis_pc : ℕ) (xs : List ℕ)
    → write_loop dis_pc (List.reverse xs) ≡ described dis_pc (last_move none xs)
write_loop-last_move dis_pc xs =
    write_loop-first dis_pc (List.reverse xs)
    ∙ ap (described dis_pc)
        (sym (last_move-reverse none xs ∙ or_else-none (first_move (List.reverse xs))))

-- ===== src/CallFinder/Scan.antt =====
-- What the loops of lib/jevmachopp/CallFinder.cpp find.
use jevmachopp.Base.{
  ℕ, zero, suc, ◌*◌, ◌≤◌, ◌<◌, length, length-append, append_assoc, ◌+◌, ◌-◌, ◌/◌, ◌%◌, ◌^◌, List,
  [], ◌∷◌, ◌++◌, map, none, true, false, if◌then◌else◌, Outcome, done, ◌≡◌, refl, ap, sym, ◌∙◌, All,
  Bool-cases, inl, inr, Ensures, Ensures-bind, Ensures-weaken, Ensures-returned, ap₂, drop, take,
  arith, le→leb, take-append_length, suc, take-append-drop, length-take, length-drop,
}
use mathlib.Core.List
use jevmachopp.Arm64.{is_bl_to}
use jevmachopp.CallFinder.{FoundCall, write_loop, found_call, call_loop, subspan}
use jevmachopp.CallFinder.Moves.{last_move, described, write_loop-last_move}

-- The instructions with their addresses, from `pc` on.
abbrev pub placed : ℕ → List ℕ → List (ℕ × ℕ)
placed pc [] = []
placed pc (x ∷ xs) = (pc, x) ∷ placed ((pc + 4) % 2 ^ 64) xs

-- Those that call the stub.
abbrev pub calling : ℕ → List (ℕ × ℕ) → List (ℕ × ℕ)
calling stub [] = []
calling stub (e ∷ es) =
    let rest = calling stub es in if is_bl_to e.1 e.0 stub then e ∷ rest else rest

calling-hit :
    (stub : ℕ) (e : ℕ × ℕ) (es : List (ℕ × ℕ))
    → is_bl_to e.1 e.0 stub ≡ true
    → calling stub (e ∷ es) ≡ e ∷ calling stub es
calling-hit stub e es hit = rw hit refl

calling-miss :
    (stub : ℕ) (e : ℕ × ℕ) (es : List (ℕ × ℕ))
    → is_bl_to e.1 e.0 stub ≡ false
    → calling stub (e ∷ es) ≡ calling stub es
calling-miss stub e es miss = rw miss refl

between-append :
    (seen rest : List ℕ) (q : ℕ)
    → q ≤ length seen
    → take (length seen - q) (drop q (seen ++ rest)) ≡ drop q seen
between-append seen rest zero le =
    ap (λ n. take n (seen ++ rest)) {x = length seen - 0} {y = length seen} (omega arith)
    ∙ take-append_length seen rest
between-append [] rest (suc q) le = absurd (omega arith)
between-append (x ∷ seen) rest (suc q) le =
    ap (λ n. take n (drop q (seen ++ rest))) (omega arith)
    ∙ between-append seen rest q (omega arith)

subspan-between :
    (seen rest : List ℕ) (q : ℕ)
    → q ≤ length seen
    → subspan (seen ++ rest) q (length seen - q) ≡ done (drop q seen)
unfolding subspan
subspan-between seen rest q le =
    rw
      (le→leb (q + (length seen - q)) (length (seen ++ rest))
        (omega (arith, length-append seen rest)))
      (ap (λ l. done l) (between-append seen rest q le))

-- What `func_start` gives for an offset is a multiple of 4 that is not behind the offset.
abbrev pub StartsBefore : (ℕ → Outcome ℕ) → Type 0
StartsBefore func_start =
    (off start : ℕ) → func_start off ≡ done start → (start ≤ off) × (start % 4 ≡ 0)

-- In a text that begins its file, and stands at `base`: a report of a call in it, of the last wide
-- move to the register among the instructions from the start of its function to the call.
pub record IsReport (text : List ℕ) (func_start : ℕ → Outcome ℕ) (base : ℕ) (c : FoundCall)
    : Type 0 where
  pub before : List ℕ
  pub between : List ℕ
  pub call : ℕ
  pub after : List ℕ
  pub text_eq : text ≡ before ++ (between ++ (call ∷ after))
  pub pc_eq : c.pc ≡ base + 4 * (length before + length between)
  pub start_eq : func_start (c.pc - base) ≡ done (4 * length before)
  pub write_eq : described ((c.pc + 2 ^ 64 - 4) % 2 ^ 64) (last_move none between) ≡ done c.write

module _ (text : List ℕ) (func_start : ℕ → Outcome ℕ) (base stub : ℕ) where
  abbrev pub AreReports : ℕ → List ℕ → List FoundCall → Type 0
  AreReports pc xs cs =
      (map (λ c. c.pc) cs ≡ map (λ e. e.0) (calling stub (placed pc xs)))
      × All (IsReport text func_start base) cs

  AreReports-hit :
      (pc x : ℕ) (xs : List ℕ) (c : FoundCall) (cs : List FoundCall)
      → is_bl_to x pc stub ≡ true
      → (c.pc ≡ pc) × IsReport text func_start base c
      → AreReports ((pc + 4) % 2 ^ 64) xs cs
      → AreReports pc (x ∷ xs) (c ∷ cs)
  AreReports-hit pc x xs c cs hit (here, report) (there, reports) = (
    ap₂ (λ p ps. p ∷ ps) here there
        ∙ ap (λ es. map (λ e. e.0) es)
            (sym (calling-hit stub (pc, x) (placed ((pc + 4) % 2 ^ 64) xs) hit)),
    (report, reports),
  )

module _ (text : List ℕ) (func_start : ℕ → Outcome ℕ) (base stub : ℕ)
    (starts : StartsBefore func_start) (fits : base + 4 * length text < 2 ^ 64) where
  found_call-IsReport :
      (pc x : ℕ) (seen rest : List ℕ)
      → text ≡ seen ++ (x ∷ rest)
      → pc ≡ base + 4 * length seen
      → Ensures
          (λ c. (c.pc ≡ pc) × IsReport text func_start base c)
          (found_call text func_start base pc)
  unfolding found_call
  found_call-IsReport pc x seen rest e at =
      Ensures-bind (λ start. func_start ((pc + 2 ^ 64 - base) % 2 ^ 64) ≡ done start)
        (λ c. (c.pc ≡ pc) × IsReport text func_start base c)
        (func_start ((pc + 2 ^ 64 - base) % 2 ^ 64)) _
        (Ensures-returned (func_start ((pc + 2 ^ 64 - base) % 2 ^ 64)))
        λ start found.
          let (le, whole) = starts ((pc + 2 ^ 64 - base) % 2 ^ 64) start found in
          rw (function start le whole) (
            Ensures-bind
              (λ w.
                write_loop ((pc + 2 ^ 64 - 4) % 2 ^ 64) (List.reverse (drop (start / 4) seen))
                ≡ done w)
              (λ c. (c.pc ≡ pc) × IsReport text func_start base c)
              (write_loop ((pc + 2 ^ 64 - 4) % 2 ^ 64) (List.reverse (drop (start / 4) seen))) _
              (Ensures-returned
                (write_loop ((pc + 2 ^ 64 - 4) % 2 ^ 64) (List.reverse (drop (start / 4) seen))))
              λ w searched. (
                refl,
                record {
                  before = take (start / 4) seen;
                  between = drop (start / 4) seen;
                  call = x;
                  after = rest;
                  text_eq =
                      e
                      ∙ (ap (λ l. l ++ (x ∷ rest)) (sym (take-append-drop (start / 4) seen))
                          ∙ append_assoc (take (start / 4) seen) (drop (start / 4) seen)
                              (x ∷ rest));
                  pc_eq = omega (
                    arith,
                    length-take (start / 4) seen,
                    length-drop (start / 4) seen,
                    offset,
                    in_seen start le whole,
                  );
                  start_eq =
                      ap func_start (omega (arith, offset))
                      ∙ (found
                          ∙ ap (λ n. done n)
                              (omega (
                                arith,
                                length-take (start / 4) seen,
                                offset,
                                in_seen start le whole,
                              )));
                  write_eq =
                      sym
                        (write_loop-last_move ((pc + 2 ^ 64 - 4) % 2 ^ 64) (drop (start / 4) seen))
                      ∙ searched;
                },
              ))
    where
      len : length text ≡ length seen + 1 + length rest
      len = ap (λ l. length l) e ∙ omega (arith, length-append seen (x ∷ rest))

      offset : (pc + 2 ^ 64 - base) % 2 ^ 64 ≡ 4 * length seen
      offset = omega (arith, at, fits, len)

      in_seen :
          (start : ℕ)
          → start ≤ (pc + 2 ^ 64 - base) % 2 ^ 64
          → start % 4 ≡ 0
          → (start / 4 ≤ length seen) × (4 * (start / 4) ≡ start)
      in_seen start le whole = (omega (arith, offset), omega arith)

      function :
          (start : ℕ)
          → start ≤ (pc + 2 ^ 64 - base) % 2 ^ 64
          → start % 4 ≡ 0
          → subspan text (start / 4) (((pc + 2 ^ 64 - base) % 2 ^ 64 + 2 ^ 64 - start) % 2 ^ 64 / 4)
            ≡ done (drop (start / 4) seen)
      function start le whole =
          ap₂ (λ t n. subspan t (start / 4) n) e
            (omega (arith, offset, fits, len, in_seen start le whole))
          ∙ subspan-between seen (x ∷ rest) (start / 4) (in_seen start le whole).0

  reports_from :
      (pc : ℕ) (xs seen : List ℕ)
      → text ≡ seen ++ xs
      → pc ≡ base + 4 * length seen
      → Ensures
          (AreReports text func_start base stub pc xs)
          (call_loop (found_call text func_start base) stub pc xs)
  unfolding call_loop
  reports_from pc [] seen e at = (refl, tt)
  reports_from pc (x ∷ xs) seen e at =
      let later =
        reports_from ((pc + 4) % 2 ^ 64) xs (seen ++ (x ∷ []))
          (e ∙ sym (append_assoc seen (x ∷ []) xs)) (omega (arith, next)) in
      elim (Bool-cases (is_bl_to x pc stub)) [
        | inl hit ↦
            rw (hit, call_loop)
              (Ensures-bind (λ c. (c.pc ≡ pc) × IsReport text func_start base c)
                (AreReports text func_start base stub pc (x ∷ xs))
                (found_call text func_start base pc) _ (found_call-IsReport pc x seen xs e at)
                λ c h.
                  Ensures-bind (AreReports text func_start base stub ((pc + 4) % 2 ^ 64) xs)
                    (AreReports text func_start base stub pc (x ∷ xs)) _ _ later
                    λ cs k. AreReports-hit text func_start base stub pc x xs c cs hit h k)
        | inr miss ↦
            rw (miss, call_loop)
              (Ensures-weaken (AreReports text func_start base stub ((pc + 4) % 2 ^ 64) xs)
                (AreReports text func_start base stub pc (x ∷ xs)) _ later
                λ cs h. (
                  h.0
                      ∙ ap (λ es. map (λ e. e.0) es)
                          (sym (calling-miss stub (pc, x) (placed ((pc + 4) % 2 ^ 64) xs) miss)),
                  h.1,
                ))
      ]
    where
      next : (pc + 4) % 2 ^ 64 ≡ base + 4 * length (seen ++ (x ∷ []))
      next =
          omega
            (arith, length-append seen (x ∷ []), ap (λ l. length l) e, length-append seen (x ∷ xs))

  -- For a text that begins its file and ends below 2^64, where the start of a function that is
  -- found for an offset is a multiple of 4 that is not behind it: if the loop over the instructions
  -- of the text returns, the addresses of the calls that it reports are those of the instructions
  -- that call the stub, in order, and what is reported of each call is the last wide move to the
  -- register among the instructions from the start of its function to the call, or that there is
  -- none.
  pub call_loop-reports :
      Ensures
        (AreReports text func_start base stub base text)
        (call_loop (found_call text func_start base) stub base text)
  call_loop-reports = reports_from base text [] refl (omega arith)

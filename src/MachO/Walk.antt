-- ===== src/MachO/Walk.antt =====
-- The walk of lib/jevmachopp/MachO.cpp along the load commands in memory.
use jevmachopp.Base.{
  ℕ, zero, suc, ◌+◌, ◌^◌, ◌<◌, ◌≤◌, List, [], ◌∷◌, ◌++◌, length, Option, none, some, Bool, true,
  false, Bool-cases, inl, inr, ◌==◌, ==_iff, ==-false, ◌≡◌, refl, ap, sym, subst, ◌∙◌, arith, All,
  Outcome, done, ◌>>=◌, length-append,
}
use mathlib.Core.Option
use jevmachopp.Text.{find_if_or_nullptr}
use jevmachopp.Memory.{bytes_le}
use jevmachopp.Memory.Reads.{IsAt, IsAt-left, IsAt-right, loaded_uint-IsAt, length-bytes_le}
use jevmachopp.Memory.Place.{place}
use jevmachopp.LoadCommandType
use jevmachopp.MachO.{
  subcmd_of_type, dysymtab, function_starts_command, unix_thread, lc_cmd, lc_increment, lc_find,
  lc_cend, lc_sizeof, subcmd, symtab,
}

-- A load command: its type and what follows its header.
pub record Command : Type 0 where
  pub cmd : ℕ
  pub body : List ℕ

abbrev pub command_header : Command → List ℕ
command_header c = bytes_le 4 c.cmd ++ bytes_le 4 (8 + length c.body)

abbrev pub command_image : Command → List ℕ
command_image c = command_header c ++ c.body

abbrev pub commands_image : List Command → List ℕ
commands_image [] = []
commands_image (c ∷ cs) = command_image c ++ commands_image cs

abbrev pub command_size : Command → ℕ
command_size c = length (command_image c)

abbrev pub IsCommand : Command → Type 0
IsCommand c = (c.cmd < 2 ^ 32) × (8 + length c.body < 2 ^ 32)

length-command_header : (c : Command) → length (command_header c) ≡ 8
length-command_header c = omega (
  arith,
  length-append (bytes_le 4 c.cmd) (bytes_le 4 (8 + length c.body)),
  length-bytes_le 4 c.cmd,
  length-bytes_le 4 (8 + length c.body),
)

length-command_image : (c : Command) → command_size c ≡ 8 + length c.body
length-command_image c =
    omega (arith, length-append (command_header c) c.body, length-command_header c)

before_last : (p last n : ℕ) → p + n ≡ last → 0 < n → (p == last) ≡ false
before_last p last n e h = ==-false p last (omega arith)

module _ (mem : List ℕ) where
  lc_cmd-IsAt :
      (p : ℕ) (c : Command) → IsCommand c → IsAt mem p (command_image c) → lc_cmd mem p ≡ done c.cmd
  lc_cmd-IsAt p c ok at = loaded_uint-IsAt mem p 4 c.cmd ok.0 (
      IsAt-left mem p (bytes_le 4 c.cmd) (bytes_le 4 (8 + length c.body))
        (IsAt-left mem p (command_header c) c.body at))

  lc_increment-IsAt :
      (p : ℕ) (c : Command)
      → IsCommand c
      → IsAt mem p (command_image c)
      → lc_increment mem p ≡ done (p + command_size c)
  unfolding lc_increment
  lc_increment-IsAt p c ok at =
      rw
        (loaded_uint-IsAt mem (p + 4) 4 (8 + length c.body) ok.1 (
          subst (λ k. IsAt mem (p + k) (bytes_le 4 (8 + length c.body))) (length-bytes_le 4 c.cmd)
            (IsAt-right mem p (bytes_le 4 c.cmd) (bytes_le 4 (8 + length c.body))
              (IsAt-left mem p (command_header c) c.body at))))
        (ap (λ k. done (p + k)) (sym (length-command_image c)))

  lc_find-last :
      (pred : ℕ → Outcome Bool) (fuel p last : ℕ)
      → p ≡ last
      → lc_find mem pred (suc fuel) last p ≡ done none
  unfolding lc_find
  lc_find-last pred fuel p last e = rw (lc_find, (==_iff p last).1 e)

  lc_find-hit :
      (pred : ℕ → Outcome Bool) (fuel p last : ℕ)
      → (p == last) ≡ false
      → pred p ≡ done true
      → lc_find mem pred (suc fuel) last p ≡ done (some p)
  unfolding lc_find
  lc_find-hit pred fuel p last e h = rw (lc_find, e, h)

  lc_find-miss :
      (pred : ℕ → Outcome Bool) (fuel p q last : ℕ)
      → (p == last) ≡ false
      → pred p ≡ done false
      → lc_increment mem p ≡ done q
      → lc_find mem pred (suc fuel) last p ≡ lc_find mem pred fuel last q
  unfolding lc_find
  lc_find-miss pred fuel p q last e h k = rw (lc_find, e, h, k)

  lc_find-place :
      (pred : ℕ → Outcome Bool) (test : Command → Bool) (fuel p last : ℕ) (cs : List Command)
      → length cs ≤ fuel
      → All IsCommand cs
      → IsAt mem p (commands_image cs)
      → p + length (commands_image cs) ≡ last
      → All (λ e. pred e.0 ≡ done (test e.1)) (place command_size p cs)
      → lc_find mem pred (suc fuel) last p
        ≡ done
            (Option.map (λ e. e.0) (find_if_or_nullptr (λ e. test e.1) (place command_size p cs)))
  unfolding find_if_or_nullptr
  lc_find-place pred test fuel p last [] enough ok at ends tests =
      lc_find-last pred fuel p last (omega (arith, ends))
  lc_find-place pred test zero p last (c ∷ cs) enough ok at ends tests = absurd (omega arith)
  lc_find-place pred test (suc fuel) p last (c ∷ cs) enough ok at ends tests =
      elim (Bool-cases (test c)) [
        | inl hit ↦
            lc_find-hit pred (suc fuel) p last not_last (tests.0 ∙ ap (λ b. done b) hit)
            ∙ rw hit refl
        | inr miss ↦
            lc_find-miss pred (suc fuel) p (p + command_size c) last not_last
              (tests.0 ∙ ap (λ b. done b) miss)
              (lc_increment-IsAt p c ok.0
                (IsAt-left mem p (command_image c) (commands_image cs) at))
            ∙ (lc_find-place pred test fuel (p + command_size c) last cs (omega arith) ok.1
                  (IsAt-right mem p (command_image c) (commands_image cs) at)
                  (omega (arith, ends, length-append (command_image c) (commands_image cs))) tests.1
                ∙ rw miss refl)
      ]
    where
      not_last : (p == last) ≡ false
      not_last = before_last p last (length (commands_image (c ∷ cs))) ends (
          omega
            (arith, length-append (command_image c) (commands_image cs), length-command_image c))

-- The bytes of a file up to the end of its load commands.
abbrev pub macho_image : List ℕ → List ℕ → List Command → List ℕ
macho_image first flags cs =
    first ++ (bytes_le 4 (length (commands_image cs)) ++ (flags ++ commands_image cs))

length-commands_image : (cs : List Command) → length cs ≤ length (commands_image cs)
length-commands_image [] = omega arith
length-commands_image (c ∷ cs) = omega (
  arith,
  length-commands_image cs,
  length-append (command_image c) (commands_image cs),
  length-command_image c,
)

placed_cmds :
    (mem : List ℕ) (type p : ℕ) (cs : List Command)
    → All IsCommand cs
    → IsAt mem p (commands_image cs)
    → All
        (λ e. lc_cmd mem e.0 >>= (λ cmd. done (cmd == type)) ≡ done (e.1.cmd == type))
        (place command_size p cs)
placed_cmds mem type p [] ok at = tt
placed_cmds mem type p (c ∷ cs) ok at = (
  rw (lc_cmd-IsAt mem p c ok.0 (IsAt-left mem p (command_image c) (commands_image cs) at)),
  placed_cmds mem type (p + command_size c) cs ok.1
      (IsAt-right mem p (command_image c) (commands_image cs) at),
)

module _ (mem : List ℕ) (macho : ℕ) (first flags : List ℕ) (cs : List Command) where
  -- The first command of a type, behind its header.
  abbrev pub first_of : ℕ → Option ℕ
  first_of type = Option.map subcmd (
      Option.map (λ e. e.0)
        (find_if_or_nullptr (λ e. e.1.cmd == type) (place command_size (macho + 32) cs)))

  module _ (twenty : length first ≡ 20) (eight : length flags ≡ 8)
      (small : length (commands_image cs) < 2 ^ 32) (ok : All IsCommand cs)
      (at : IsAt mem macho (macho_image first flags cs)) where
    behind_first :
        IsAt mem
          (macho + 20)
          (bytes_le 4 (length (commands_image cs)) ++ (flags ++ commands_image cs))
    behind_first =
        subst
          (λ k.
            IsAt mem (macho + k)
              (bytes_le 4 (length (commands_image cs)) ++ (flags ++ commands_image cs)))
          twenty
          (IsAt-right mem macho first
            (bytes_le 4 (length (commands_image cs)) ++ (flags ++ commands_image cs)) at)

    lc_sizeof-IsAt : lc_sizeof mem macho ≡ done (length (commands_image cs))
    unfolding lc_sizeof
    lc_sizeof-IsAt = loaded_uint-IsAt mem (macho + 20) 4 (length (commands_image cs)) small (
        IsAt-left mem (macho + 20) (bytes_le 4 (length (commands_image cs)))
          (flags ++ commands_image cs) behind_first)

    lc_cend-IsAt : lc_cend mem macho ≡ done (macho + 32 + length (commands_image cs))
    unfolding lc_cend
    lc_cend-IsAt = rw lc_sizeof-IsAt

    commands-IsAt : IsAt mem (macho + 32) (commands_image cs)
    commands-IsAt =
        subst (λ k. IsAt mem k (commands_image cs))
          (omega (arith, eight, length-bytes_le 4 (length (commands_image cs))))
          (IsAt-right mem (macho + 20 + length (bytes_le 4 (length (commands_image cs)))) flags
            (commands_image cs)
            (IsAt-right mem (macho + 20) (bytes_le 4 (length (commands_image cs)))
              (flags ++ commands_image cs) behind_first))

    subcmd_of_type-first_of : (type : ℕ) → subcmd_of_type mem type macho ≡ done (first_of type)
    subcmd_of_type-first_of type = rw (lc_cend-IsAt, lc_sizeof-IsAt, found)
      where
        found :
            lc_find mem
              (λ p. lc_cmd mem p >>= λ cmd. done (cmd == type))
              (suc (length (commands_image cs)))
              (macho + 32 + length (commands_image cs))
              (macho + 32)
            ≡ done (
                Option.map
                  (λ e. e.0)
                  (find_if_or_nullptr (λ e. e.1.cmd == type) (place command_size (macho + 32) cs)))
        found =
            lc_find-place mem (λ p. lc_cmd mem p >>= λ cmd. done (cmd == type)) (λ c. c.cmd == type)
              (length (commands_image cs)) (macho + 32) (macho + 32 + length (commands_image cs)) cs
              (length-commands_image cs) ok commands-IsAt refl
              (placed_cmds mem type (macho + 32) cs ok commands-IsAt)

    -- For a file in memory whose load commands have sizes that add up to `sizeofcmds`, below 2^32
    -- bytes: `symtab`, `dysymtab`, `functionStartsCommand` and `unixThread` return what follows the
    -- header of the first command of their type, or null where there is none.
    pub subcommands-first_of :
        (symtab mem macho ≡ done (first_of LoadCommandType.symtab))
        × (dysymtab mem macho ≡ done (first_of LoadCommandType.dysymtab))
        × (function_starts_command mem macho ≡ done (first_of LoadCommandType.function_starts))
        × (unix_thread mem macho ≡ done (first_of LoadCommandType.unixthread))
    unfolding symtab dysymtab function_starts_command unix_thread
    subcommands-first_of = (
      subcmd_of_type-first_of LoadCommandType.symtab,
      subcmd_of_type-first_of LoadCommandType.dysymtab,
      subcmd_of_type-first_of LoadCommandType.function_starts,
      subcmd_of_type-first_of LoadCommandType.unixthread,
    )

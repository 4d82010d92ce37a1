-- ===== src/SearchFs/Calls.antt =====
-- How many calls the search of lib/jevmachopp/SearchFS.cpp makes.
use jevmachopp.Base.{
  ℕ, zero, suc, ◌+◌, ◌<◌, List, [], ◌++◌, Bool, true, false, not, ◌==◌, ◌||◌, done, ◌≡◌, ◌≢◌, refl,
  ap, sym, ◌∙◌, arith, ==-false, ap₂,
}
use jevmachopp.SearchFs.{
  Reply, SearchOptions, finished, stopped, searching, search_loop, files_larger_than,
}

-- The options of a call: the first one starts the search.
abbrev pub options_of : ℕ → SearchOptions
options_of i = record { start = i == 0; match_files = true }

or-true : (b : Bool) → (not b || true) ≡ true
or-true true = refl
or-true false = refl

next_options : (i : ℕ) → record (options_of i) { start = false } ≡ options_of (suc i)
next_options i =
    ap (λ b. record { start = b; match_files = true })
      (sym (==-false (suc i) 0 (λ e. absurd (omega arith))))

module _ (eagain ebusy : ℕ) (searchfs : ℕ → SearchOptions → Reply) where
  abbrev pub reply_of : ℕ → Reply
  reply_of i = searchfs i (options_of i)

  -- A call fails, and not for being busy.
  abbrev pub Fails : ℕ → Type 0
  Fails i = ((reply_of i).res ≡ true) × ((reply_of i).errno ≢ ebusy)

  -- The matches of a number of calls.
  abbrev pub matches_of : ℕ → List ℕ
  matches_of zero = []
  matches_of (suc n) = matches_of n ++ (reply_of n).matches

  search_loop-Fails :
      (fuel i : ℕ)
      → Fails i
      → search_loop eagain ebusy searchfs (suc fuel) i (options_of i) (matches_of i)
        ≡ search_loop eagain ebusy searchfs fuel (suc i) (options_of (suc i)) (matches_of (suc i))
  unfolding search_loop
  search_loop-Fails fuel i (failed, other) =
      rw (failed, ==-false _ ebusy other, or-true _, next_options i) refl

  search_loop-finished :
      (fuel i : ℕ)
      → (reply_of i).res ≡ false
      → search_loop eagain ebusy searchfs (suc fuel) i (options_of i) (matches_of i)
        ≡ finished (matches_of (suc i))
  unfolding search_loop
  search_loop-finished fuel i ended = rw ended refl

  search_loop-busy :
      (fuel i : ℕ)
      → (reply_of i).res ≡ true
      → (reply_of i).errno ≡ ebusy
      → search_loop eagain ebusy searchfs (suc fuel) i (options_of i) (matches_of i)
        ≡ stopped (matches_of i)
  unfolding search_loop
  search_loop-busy fuel i failed busy = rw (failed, busy) (ground arith)

  -- The rounds of calls that fail, up to a call with `fuel` rounds to go.
  search_loop-rounds :
      (n i m total fuel : ℕ)
      → n + i ≡ m
      → total ≡ n + fuel
      → ((j : ℕ) → j < m → Fails j)
      → search_loop eagain ebusy searchfs total i (options_of i) (matches_of i)
        ≡ search_loop eagain ebusy searchfs fuel m (options_of m) (matches_of m)
  search_loop-rounds zero i m total fuel e t fails =
      ap₂ (λ f j. search_loop eagain ebusy searchfs f j (options_of j) (matches_of j))
        (t ∙ omega arith) (sym (sym e ∙ omega arith))
  search_loop-rounds (suc n) i m total fuel e t fails =
      ap (λ f. search_loop eagain ebusy searchfs f i (options_of i) (matches_of i))
        (t ∙ omega arith)
      ∙ (search_loop-Fails (n + fuel) i (fails i (omega arith))
          ∙ search_loop-rounds n (suc i) m (n + fuel) fuel (omega arith) refl fails)

  from_start :
      (n rest : ℕ)
      → ((j : ℕ) → j < n → Fails j)
      → files_larger_than eagain ebusy searchfs false (n + rest)
        ≡ done (search_loop eagain ebusy searchfs rest n (options_of n) (matches_of n))
  unfolding files_larger_than
  from_start n rest fails =
      ap (λ s. done s) (search_loop-rounds n 0 n (n + rest) rest (omega arith) (omega arith) fails)

  -- Where every call of `searchfs` before one fails with an error that is not `EBUSY`, and that one
  -- does not fail: the search makes just these calls, of which only the first starts it, and
  -- submits the matches of all of them in order, whatever the errors were.
  pub files_larger_than-finished :
      (n rest : ℕ)
      → ((j : ℕ) → j < n → Fails j)
      → (reply_of n).res ≡ false
      → files_larger_than eagain ebusy searchfs false (n + suc rest)
        ≡ done (finished (matches_of (suc n)))
  files_larger_than-finished n rest fails ended =
      from_start n (suc rest) fails ∙ ap (λ s. done s) (search_loop-finished rest n ended)

  -- Where every call of `searchfs` fails with an error that is not `EBUSY`, `EAGAIN` or not, the
  -- search is still searching after any number of rounds: it never ends.
  pub files_larger_than-searching :
      (fuel : ℕ)
      → ((j : ℕ) → j < fuel → Fails j)
      → files_larger_than eagain ebusy searchfs false fuel ≡ done (searching (matches_of fuel))
  unfolding search_loop
  files_larger_than-searching fuel fails =
      ap (λ f. files_larger_than eagain ebusy searchfs false f) (omega arith)
      ∙ from_start fuel 0 fails

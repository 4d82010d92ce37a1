-- ===== src/Text.antt =====
-- include/jevmachopp/Common.h and lib/jevmachopp/Common.cpp: the helpers on ranges and strings. A
-- string is the list of its bytes.
pub mod Laws
pub mod Splitting
pub mod SplitAt
use jevmachopp.Base.{
  ℕ, zero, suc, ◌+◌, ◌-◌, ◌%◌, ◌^◌, List, [], ◌∷◌, ◌++◌, length, take, get_elem?, Option, none,
  some, Bool, true, false, ◌&&◌, ◌||◌, not, ◌==◌, leb, ltb, if◌then◌else◌,
}
use mathlib.Core.Option
use Prim.Native.Char.{code}
use Prim.Native.String.{String}

-- The bytes of a text of ASCII.
abbrev pub codes : String → List ℕ
codes String.[] = []
codes (String.◌∷◌ c s) = code c ∷ codes s

-- `==` on string views.
unfoldable pub text_eq : List ℕ → List ℕ → Bool
text_eq [] [] = true
text_eq [] (b ∷ bs) = false
text_eq (a ∷ as') [] = false
text_eq (a ∷ as') (b ∷ bs) = a == b && text_eq as' bs

module _ {ℓ} {A : Type ℓ} where
  -- `find_if_or_nullptr`
  unfoldable pub find_if_or_nullptr : (A → Bool) → List A → Option A
  find_if_or_nullptr pred [] = none
  find_if_or_nullptr pred (x ∷ rng) =
      let rest = find_if_or_nullptr pred rng in if pred x then some x else rest

  unfoldable pub get_index_in : (A → Bool) → List A → Option ℕ
  get_index_in pred [] = none
  get_index_in pred (x ∷ rng) =
      let rest = Option.map suc (get_index_in pred rng) in if pred x then some 0 else rest

  -- `ranges::get`
  unfoldable pub get : List A → ℕ → Option A
  get rng idx = if leb (length rng) idx then none else get_elem? rng idx

  unfoldable pub set_if_null : Option A → Option A → Option A
  set_if_null none getter = getter
  set_if_null (some ptr) getter = some ptr

-- The loop of `ranges::join`, over the elements from index `i` on.
unfoldable pub join_loop : List ℕ → ℕ → ℕ → List ℕ → List (List ℕ) → List ℕ
join_loop del last_idx i res [] = res
join_loop del last_idx i res (el ∷ rng) =
    join_loop del last_idx (i + 1) (if i == last_idx then res ++ el else (res ++ el) ++ del) rng

unfoldable pub join : List (List ℕ) → List ℕ → List ℕ
unfolding join_loop
join rng del = join_loop del ((length rng + 2 ^ 64 - 1) % 2 ^ 64) 0 [] rng

unfoldable pub range_contains_str : List (List ℕ) → List ℕ → Bool
unfolding text_eq
range_contains_str [] str_to_find = false
range_contains_str (str ∷ rng) str_to_find =
    text_eq str str_to_find || range_contains_str rng str_to_find

-- `memchr(cstr, '\0', buf_sz)` on the bytes from a pointer on: the bytes before the terminator, if
-- there is one.
unfoldable pub before_nul : List ℕ → Option (List ℕ)
before_nul [] = none
before_nul (c ∷ cs) =
    let rest = before_nul cs in if c == 0 then some [] else Option.map (λ s. c ∷ s) rest

abbrev or_all : List ℕ → Option (List ℕ) → List ℕ
or_all bytes none = bytes
or_all bytes (some s) = s

-- `readMaybeNullTermCString` on the bytes from a pointer on.
unfoldable pub read_maybe_null_term_cstring : Option (List ℕ) → ℕ → List ℕ
unfolding before_nul
read_maybe_null_term_cstring none buf_sz = []
read_maybe_null_term_cstring (some cstr) buf_sz =
    or_all (take buf_sz cstr) (before_nul (take buf_sz cstr))

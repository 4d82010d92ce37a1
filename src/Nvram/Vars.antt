-- ===== src/Nvram/Vars.antt =====
-- lib/jevmachopp/NVRAM.cpp: `varName` and `varValue` on text of the form `name=value`.
use jevmachopp.Base.{ℕ, ◌≡◌, refl, List, [], ◌∷◌, ◌++◌, none, some, All, ◌≢◌, ==-false}
use jevmachopp.Nvram.{split_at_eq, var_name, var_value}

split_at_eq-append :
    (name value : List ℕ)
    → All (λ c. c ≢ b'=') name
    → split_at_eq (name ++ (b'=' ∷ value)) ≡ some (name, value)
unfolding split_at_eq
split_at_eq-append [] value h = refl
split_at_eq-append (c ∷ name) value h = rw (==-false c b'=' h.0, split_at_eq-append name value h.1)

split_at_eq-none : (name : List ℕ) → All (λ c. c ≢ b'=') name → split_at_eq name ≡ none
unfolding split_at_eq
split_at_eq-none [] h = refl
split_at_eq-none (c ∷ name) h = rw (==-false c b'=' h.0, split_at_eq-none name h.1)

-- Of `name=value`, where the name has no `=`, `varName` gives the name and `varValue` the value,
-- whatever the value has; of text without `=`, `varName` gives an empty view and `varValue` none.
pub var_name-var_value :
    (name value : List ℕ)
    → All (λ c. c ≢ b'=') name
    → (var_name (some (name ++ (b'=' ∷ value))) ≡ name)
      × (var_value (some (name ++ (b'=' ∷ value))) ≡ some value)
      × (var_name (some name) ≡ [])
      × (var_value (some name) ≡ none)
unfolding var_name var_value
var_name-var_value name value h = (
  rw (split_at_eq-append name value h),
  rw (split_at_eq-append name value h),
  rw (split_at_eq-none name h),
  rw (split_at_eq-none name h),
)

-- ===== src/DeviceTree/Paths.antt =====
-- lib/jevmachopp/DeviceTree.cpp: where `lookupNode` leads.
use jevmachopp.Base.{
  ℕ, suc, arith, ==-false, List, [], ◌∷◌, ◌++◌, length, drop, ◌≡◌, refl, ap, ◌∙◌, All, Option, some,
  none, Outcome, done, aborted, overrun, ◌>>=◌,
}
use jevmachopp.Text.Laws.{joined}
use jevmachopp.Text.Splitting.{IsName, Splits}
use jevmachopp.DeviceTree.Node.{child_named, lookup_loop, lookup_node}

bind_option {ℓ} :
    {A : Type ℓ} (m : Outcome (Option A)) (f : Option A → Outcome (Option A))
    → ((o : Option A) → f o ≡ done o)
    → m >>= f ≡ m
bind_option (done o) f h = h o
bind_option aborted f h = refl
bind_option overrun f h = refl

module _ (mem : List ℕ) (split : List ℕ → ℕ → List (List ℕ)) (this : ℕ) where
  abbrev pub IsChild : List ℕ → Type 0
  IsChild name = (q : ℕ) × (child_named mem this name ≡ done (some q))

  lookup_loop-last :
      (res : ℕ) (names : List (List ℕ)) (name : List ℕ)
      → All IsChild names
      → lookup_loop mem split this res (names ++ (name ∷ [])) ≡ child_named mem this name
  unfolding lookup_loop
  lookup_loop-last res [] name ok = bind_option (child_named mem this name) _ same
    where
      same :
          (o : Option ℕ)
          → (elim o as (λ _. Outcome (Option ℕ)) [
            | none ↦ done none
            | some child ↦ lookup_loop mem split this child []
          ])
            ≡ done o
      same none = refl
      same (some child) = refl
  lookup_loop-last res (m ∷ names) name ok = rw ok.0.1 (lookup_loop-last ok.0.0 names name ok.1)

  rooted_lookup :
      (rest : List ℕ)
      → lookup_node mem split this (b'/' ∷ rest)
        ≡ lookup_loop mem split this this (drop 1 (split (b'/' ∷ rest) b'/'))
  unfolding lookup_node
  rooted_lookup rest = rw (==-false (suc (length rest)) 0 (omega arith))

  -- `lookupNode` of a path whose names before the last one are all names of children of the node of
  -- the call, in its sense of children, gives the child of the last name of that same node, where
  -- the splitting of strings takes apart what delimiters join.
  pub lookup_node-child_named :
      (names : List (List ℕ)) (name : List ℕ)
      → Splits split
      → All (IsName b'/') (names ++ (name ∷ []))
      → All IsChild names
      → lookup_node mem split this (b'/' ∷ joined (b'/' ∷ []) (names ++ (name ∷ [])))
        ≡ child_named mem this name
  lookup_node-child_named [] name good ok found =
      rooted_lookup (joined (b'/' ∷ []) (name ∷ []))
      ∙ (ap (λ l. lookup_loop mem split this this (drop 1 l)) (good.split_rooted b'/' name [] ok)
          ∙ lookup_loop-last this [] name tt)
  lookup_node-child_named (m ∷ names) name good ok found =
      rooted_lookup (joined (b'/' ∷ []) (m ∷ (names ++ (name ∷ []))))
      ∙ (ap (λ l. lookup_loop mem split this this (drop 1 l))
            (good.split_rooted b'/' m (names ++ (name ∷ [])) ok)
          ∙ lookup_loop-last this (m ∷ names) name found)

-- ===== src/DeviceTree/Node.antt =====
-- lib/jevmachopp/DeviceTree.cpp: nodes, their properties and children, and the lookup of paths. The
-- splitting of strings is nanorange's and the vector of fixed capacity a library's: parameters.
use jevmachopp.Base.{
  ℕ, zero, suc, ◌+◌, ◌%◌, ◌^◌, List, [], ◌∷◌, length, drop, get_or, Option, none, some, Bool, false,
  ◌||◌, not, ◌==◌, if◌then◌else◌, Outcome, done, aborted, ◌>>=◌,
}
use jevmachopp.Text.{text_eq}
use jevmachopp.DeviceTree.{
  asserted, DtIterator, end_iterator, make_iterator, prop_name, size_padded, data_at, next_prop,
  iterator_find, iterator_sum, iterator_fold,
}
use jevmachopp.Memory.{loaded_uint, c_string}

abbrev pub is_named : List ℕ → Option (List ℕ) → Bool
is_named name none = false
is_named name (some s) = text_eq s name

module _ (mem : List ℕ) where
  -- `properties_size`
  unfoldable pub properties_size : ℕ → Outcome ℕ
  properties_size p = loaded_uint 4 mem p

  -- `children_size`
  unfoldable pub children_size : ℕ → Outcome ℕ
  children_size p = loaded_uint 4 mem (p + 4)

  unfoldable pub properties_cbegin : ℕ → Outcome DtIterator
  unfolding properties_size
  properties_cbegin p = properties_size p >>= λ n. done (make_iterator (p + 8) n)

  unfoldable pub properties : ℕ → Outcome DtIterator
  unfolding properties_size properties_cbegin
  properties p =
      properties_size p >>= λ n. if n == 0 then done end_iterator else properties_cbegin p

  unfoldable pub properties_sizeof : ℕ → Outcome ℕ
  unfolding properties_cbegin
  properties_sizeof p = properties_cbegin p >>= λ it.
      iterator_sum (next_prop mem) (λ q. size_padded mem q >>= λ s. done (36 + s)) (suc it.m_sz) it
        0

  unfoldable pub property_named : ℕ → List ℕ → Outcome (Option ℕ)
  unfolding properties
  property_named p name = properties p >>= λ it.
      iterator_find (next_prop mem) (λ q. prop_name mem q >>= λ n. done (text_eq n name))
        (suc it.m_sz) it

  -- The position after a node: after its properties.
  unfoldable pub next_node : ℕ → Outcome ℕ
  unfolding properties_sizeof
  next_node p = properties_sizeof p >>= λ s. done (p + 8 + s)

  unfoldable pub children_cbegin : ℕ → Outcome DtIterator
  unfolding children_size properties_sizeof
  children_cbegin p = children_size p >>= λ child_sz.
      if child_sz == 0
      then done end_iterator
      else (properties_sizeof p >>= λ s. done (make_iterator (p + 8 + s) child_sz))

  unfoldable pub children : ℕ → Outcome DtIterator
  unfolding children_size
  children p = children_size p >>= λ n. if n == 0 then done end_iterator else children_cbegin p

  -- `node_sizeof` and `children_sizeof`, with fuel for the depth of the calls.
  unfoldable pub node_sizeof : ℕ → ℕ → Outcome ℕ
  node_sizeof zero p = aborted
  node_sizeof (suc fuel) p = do
    ps ← properties_sizeof p
    it ← children_cbegin p
    cs ← iterator_sum next_node (node_sizeof fuel) (suc it.m_sz) it 0
    done ((8 + ps + cs) % 2 ^ 32)

  -- `name_or_nullptr`, the string it points to.
  unfoldable pub name_or_nullptr : ℕ → Outcome (Option (List ℕ))
  unfolding property_named
  name_or_nullptr p = property_named p (b'n' ∷ b'a' ∷ b'm' ∷ b'e' ∷ []) >>= λ o. elim o [
    | none ↦ done none
    | some q ↦ c_string mem (data_at q) >>= λ s. done (some s)
  ]

  -- `DTNode::name`
  unfoldable pub node_name : ℕ → Outcome (List ℕ)
  unfolding name_or_nullptr
  node_name p = name_or_nullptr p >>= asserted

  unfoldable pub child_named : ℕ → List ℕ → Outcome (Option ℕ)
  unfolding children
  child_named p name = children p >>= λ it.
      iterator_find next_node (λ q. name_or_nullptr q >>= λ o. done (is_named name o)) (suc it.m_sz)
        it

  module _ (split : List ℕ → ℕ → List (List ℕ)) where
    -- The loop of `lookupNode`: every name is looked up in the node of the call.
    unfoldable pub lookup_loop : ℕ → ℕ → List (List ℕ) → Outcome (Option ℕ)
    unfolding child_named
    lookup_loop this res [] = done (some res)
    lookup_loop this res (name ∷ names) = child_named this name >>= λ o. elim o [
      | none ↦ done none
      | some child ↦ lookup_loop this child names
    ]

    unfoldable pub lookup_node : ℕ → List ℕ → Outcome (Option ℕ)
    unfolding lookup_loop
    lookup_node this node_path =
        if length node_path == 0 || not (get_or node_path 0 0 == b'/')
        then done none
        else lookup_loop this this (drop 1 (split node_path b'/'))

    unfoldable pub lookup_property : ℕ → List ℕ → Outcome (Option ℕ)
    unfolding lookup_node property_named
    lookup_property this property_path =
        let parts = split property_path b'#' in
        if not (length parts == 2)
        then done none
        else (lookup_node this (get_or parts 0 []) >>= λ o. elim o [
          | none ↦ done none
          | some node ↦ property_named node (get_or parts 1 [])
        ])

  -- `DT::getCPUImplRegAddrs`, into a vector that `emplace_back` extends.
  module _ (emplace_back : List ℕ → ℕ → Outcome (List ℕ)) where
    abbrev cpu_impl_reg : List ℕ
    cpu_impl_reg =
        b'c' ∷ b'p' ∷ b'u' ∷ b'-' ∷ b'i' ∷ b'm' ∷ b'p' ∷ b'l' ∷ b'-' ∷ b'r' ∷ b'e' ∷ b'g' ∷ []

    unfoldable pub get_cpu_impl_reg_addrs : ℕ → Outcome (List ℕ)
    get_cpu_impl_reg_addrs root = child_named root (b'c' ∷ b'p' ∷ b'u' ∷ b's' ∷ []) >>= λ o.
        elim o [
          | none ↦ done []
          | some cpus_node ↦ children cpus_node >>= λ it.
              iterator_fold next_node
                (λ cpu_node regs. property_named cpu_node cpu_impl_reg >>= λ prop. elim prop [
                  | none ↦ done regs
                  | some q ↦ loaded_uint 8 mem (data_at q) >>= emplace_back regs
                ])
                (suc it.m_sz) it []
        ]

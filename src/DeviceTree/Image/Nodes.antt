-- ===== src/DeviceTree/Image/Nodes.antt =====
-- A node of a device tree in memory: what `DTNode` reads of its properties.
use jevmachopp.Base.{
  ℕ, zero, suc, ◌+◌, ◌^◌, ◌<◌, List, [], ◌∷◌, ◌++◌, length, ◌≡◌, refl, true, Bool-cases, inl, inr,
  ◌==◌, ap, subst, ◌∙◌, arith, ==-false, All, Option, some, none, done, ◌>>=◌, length-append,
}
use mathlib.Core.Option
use jevmachopp.Text.{find_if_or_nullptr, before_nul, text_eq}
use jevmachopp.DeviceTree.{make_iterator, data_at, next_prop, prop_name, size_padded}
use jevmachopp.Memory.{bytes_le}
use jevmachopp.DeviceTree.Node.{
  properties_size, children_size, properties_cbegin, properties, properties_sizeof, property_named,
  next_node, name_or_nullptr,
}
use jevmachopp.DeviceTree.Image.{
  Prop, Flat, IsReadable, prop_image, props_image, flat_image, padded_size,
}
use jevmachopp.Memory.Reads.{
  IsAt, IsAt-left, IsAt-right, loaded_uint-IsAt, length-bytes_le, c_string-IsAt,
}
use jevmachopp.DeviceTree.Image.Props.{
  prop_name-IsAt, next_prop-IsAt, size_padded-IsAt, data-IsAt, length-prop_image,
}
use jevmachopp.DeviceTree.Image.Steps.{total, iterator_find-place, iterator_sum-place}
use jevmachopp.Memory.Place.{place, place-find}

abbrev pub prop_size : Prop → ℕ
prop_size x = length (prop_image x)

abbrev pub name_key : List ℕ
name_key = b'n' ∷ b'a' ∷ b'm' ∷ b'e' ∷ []

-- The string at the start of a property's data.
abbrev pub data_string : Option Prop → Option (List ℕ)
data_string none = none
data_string (some x) = before_nul x.data_bytes

-- A node's name.
abbrev pub flat_name : Flat → Option (List ℕ)
flat_name n = data_string (find_if_or_nullptr (λ x. text_eq x.name name_key) n.props)

-- A node that the code can read; its name, if it has one, is a C string.
pub record IsReadableNode (n : Flat) : Type 0 where
  pub readable : All IsReadable n.props
  pub few_props : length n.props < 2 ^ 32
  pub few_kids : n.kids < 2 ^ 32
  pub bounded : length (props_image n.props) < 2 ^ 32
  pub named :
      All
        (λ x. text_eq x.name name_key ≡ true → (s : List ℕ) × (before_nul x.data_bytes ≡ some s))
        n.props

-- A property at its position.
abbrev pub IsPropAt : List ℕ → ℕ × Prop → Type 0
IsPropAt mem e = IsAt mem e.0 (prop_image e.1) × IsReadable e.1

pub placed_props :
    (mem : List ℕ) (p : ℕ) (xs : List Prop)
    → All IsReadable xs
    → IsAt mem p (props_image xs)
    → All (IsPropAt mem) (place prop_size p xs)
placed_props mem p [] ok at = tt
placed_props mem p (x ∷ xs) ok at = (
  (IsAt-left mem p (prop_image x) (props_image xs) at, ok.0),
  placed_props mem (p + prop_size x) xs ok.1 (IsAt-right mem p (prop_image x) (props_image xs) at),
)

pub All-map {ℓ κ μ} :
    {A : Type ℓ} {P : A → Type κ} {Q : A → Type μ} (f : (a : A) → P a → Q a) (xs : List A)
    → All P xs
    → All Q xs
All-map f [] h = tt
All-map f (x ∷ xs) h = (f x h.0, All-map f xs h.1)

pub All-both {ℓ κ μ} :
    {A : Type ℓ} (P : A → Type κ) (Q : A → Type μ) (xs : List A)
    → All P xs
    → All Q xs
    → All (λ a. P a × Q a) xs
All-both P Q [] h k = tt
All-both P Q (x ∷ xs) h k = ((h.0, k.0), All-both P Q xs h.1 k.1)

pub All-place :
    {E : Type 0} (P : E → Type 0) (size : E → ℕ) (p : ℕ) (xs : List E)
    → All P xs
    → All (λ e. P e.1) (place size p xs)
All-place P size p [] h = tt
All-place P size p (x ∷ xs) h = (h.0, All-place P size (p + size x) xs h.1)

pub make_iterator-m_sz : (p n : ℕ) → (make_iterator p n).m_sz ≡ n
make_iterator-m_sz p zero = refl
make_iterator-m_sz p (suc n) = rw (==-false (suc n) 0 (omega arith))

total-props_image :
    (xs : List Prop)
    → All IsReadable xs
    → total prop_size (λ x. 36 + padded_size (length x.data_bytes)) xs ≡ length (props_image xs)
total-props_image [] ok = refl
total-props_image (x ∷ xs) ok = omega (
  arith,
  length-append (prop_image x) (props_image xs),
  total-props_image xs ok.1,
  length-prop_image x ok.0,
)

pub length-flat_image : (n : Flat) → length (flat_image n) ≡ 8 + length (props_image n.props)
length-flat_image n = omega (
  arith,
  length-append (bytes_le 4 (length n.props) ++ bytes_le 4 n.kids) (props_image n.props),
  length-append (bytes_le 4 (length n.props)) (bytes_le 4 n.kids),
  length-bytes_le 4 (length n.props),
  length-bytes_le 4 n.kids,
)

module _ (mem : List ℕ) (p : ℕ) (n : Flat) (ok : IsReadableNode n)
    (at : IsAt mem p (flat_image n)) where
  abbrev counts : List ℕ
  counts = bytes_le 4 (length n.props) ++ bytes_le 4 n.kids

  length-counts : length counts ≡ 8
  length-counts = omega (
    arith,
    length-append (bytes_le 4 (length n.props)) (bytes_le 4 n.kids),
    length-bytes_le 4 (length n.props),
    length-bytes_le 4 n.kids,
  )

  pub properties_size-IsAt : properties_size mem p ≡ done (length n.props)
  unfolding properties_size
  properties_size-IsAt = loaded_uint-IsAt mem p 4 (length n.props) ok.few_props (
      IsAt-left mem p (bytes_le 4 (length n.props)) (bytes_le 4 n.kids)
        (IsAt-left mem p counts (props_image n.props) at))

  pub children_size-IsAt : children_size mem p ≡ done n.kids
  unfolding children_size
  children_size-IsAt = loaded_uint-IsAt mem (p + 4) 4 n.kids ok.few_kids (
      subst (λ k. IsAt mem (p + k) (bytes_le 4 n.kids)) (length-bytes_le 4 (length n.props))
        (IsAt-right mem p (bytes_le 4 (length n.props)) (bytes_le 4 n.kids)
          (IsAt-left mem p counts (props_image n.props) at)))

  pub props-IsAt : IsAt mem (p + 8) (props_image n.props)
  props-IsAt =
      subst (λ k. IsAt mem (p + k) (props_image n.props)) length-counts
        (IsAt-right mem p counts (props_image n.props) at)

  each_prop : All (IsPropAt mem) (place prop_size (p + 8) n.props)
  each_prop = placed_props mem (p + 8) n.props ok.readable props-IsAt

  properties-IsAt : properties mem p ≡ done (make_iterator (p + 8) (length n.props))
  unfolding properties properties_cbegin
  properties-IsAt = rw properties_size-IsAt (elim (Bool-cases (length n.props == 0)) [
    | inl zeros ↦ rw zeros refl
    | inr some_props ↦ rw some_props refl
  ])

  pub properties_sizeof-IsAt : properties_sizeof mem p ≡ done (length (props_image n.props))
  unfolding properties_sizeof properties_cbegin
  properties_sizeof-IsAt =
      rw (properties_size-IsAt, make_iterator-m_sz (p + 8) (length n.props))
        (iterator_sum-place prop_size (next_prop mem) _
            (λ x. 36 + padded_size (length x.data_bytes)) (p + 8) n.props 0
            (All-map (λ e h. (next_prop-IsAt mem e.0 e.1 h.1 h.0, measured e h))
              (place prop_size (p + 8) n.props) each_prop)
            ok.few_props (omega arith)
          ∙ ap (λ k. done k) (omega (arith, total-props_image n.props ok.readable, ok.bounded)))
    where
      measured :
          (e : ℕ × Prop)
          → IsPropAt mem e
          → size_padded mem e.0 >>= (λ s. done (36 + s))
            ≡ done (36 + padded_size (length e.1.data_bytes))
      measured e h = rw (size_padded-IsAt mem e.0 e.1 h.1 h.0)

  pub next_node-IsAt : next_node mem p ≡ done (p + length (flat_image n))
  unfolding next_node
  next_node-IsAt =
      rw properties_sizeof-IsAt (
        ap (λ k. done k) (omega (arith, length-append counts (props_image n.props), length-counts)))

  -- For a readable node in memory, `propertyNamed` returns the position of the first of its
  -- properties that has the name, or null where there is none.
  pub property_named-place :
      (name : List ℕ)
      → property_named mem p name
        ≡ done (
            Option.map
              (λ e. e.0)
              (find_if_or_nullptr (λ e. text_eq e.1.name name) (place prop_size (p + 8) n.props)))
  unfolding property_named
  property_named-place name =
      rw (properties-IsAt, make_iterator-m_sz (p + 8) (length n.props))
        (iterator_find-place prop_size (next_prop mem) _ (λ x. text_eq x.name name) (p + 8) n.props
          (All-map (λ e h. (next_prop-IsAt mem e.0 e.1 h.1 h.0, tested e h))
            (place prop_size (p + 8) n.props) each_prop)
          ok.few_props)
    where
      tested :
          (e : ℕ × Prop)
          → IsPropAt mem e
          → prop_name mem e.0 >>= (λ s. done (text_eq s name)) ≡ done (text_eq e.1.name name)
      tested e h = rw (prop_name-IsAt mem e.0 e.1 h.1 h.0)

  abbrev IsNamed : ℕ × Prop → Type 0
  IsNamed e =
      IsPropAt mem e
      × (text_eq e.1.name name_key ≡ true → (s : List ℕ) × (before_nul e.1.data_bytes ≡ some s))

  each-IsNamed : All IsNamed (place prop_size (p + 8) n.props)
  each-IsNamed =
      All-both _ _ (place prop_size (p + 8) n.props) each_prop
        (All-place _ prop_size (p + 8) n.props ok.named)

  pub name_or_nullptr-IsAt : name_or_nullptr mem p ≡ done (flat_name n)
  unfolding name_or_nullptr
  name_or_nullptr-IsAt =
      rw (property_named-place name_key)
        (elim (place-find prop_size (λ x. text_eq x.name name_key) IsNamed (p + 8) n.props
          each-IsNamed) [
            | inl (placed, plain) ↦ rw (placed, plain) refl
            | inr (q, x, placed, plain, good, hit) ↦
                let (s, e) = good.1 hit in
                rw
                  (
                    placed,
                    plain,
                    e,
                    c_string-IsAt mem (data_at q) x.data_bytes s
                        (data-IsAt mem q x good.0.1 good.0.0) e,
                  )
                  refl
          ])

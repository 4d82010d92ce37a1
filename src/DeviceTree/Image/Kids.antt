-- ===== src/DeviceTree/Image/Kids.antt =====
-- The children of a node of a device tree in memory. The iterator of the code goes from a node to
-- the position after its properties: to the node that is next in memory.
use jevmachopp.Base.{
  ℕ, suc, ◌+◌, ◌%◌, ◌^◌, ◌<◌, ◌≤◌, List, [], ◌∷◌, ◌++◌, length, take, drop, ◌≡◌, refl, Bool-cases,
  inl, inr, ◌==◌, ap, subst, sym, ◌∙◌, arith, All, some, done, ◌>>=◌, length-append, append_assoc,
  take-append-drop, length-take, All-take,
}
use mathlib.Core.Option
use jevmachopp.Text.{find_if_or_nullptr}
use jevmachopp.DeviceTree.{make_iterator, iterator_sum}
use jevmachopp.DeviceTree.Node.{
  children_cbegin, children, next_node, name_or_nullptr, is_named, child_named, node_sizeof,
}
use jevmachopp.DeviceTree.Image.{
  Prop, Flat, Tree, Forest, node, end, tree, width, preorder, preorders, tree_image, forest_image,
  flat_image, flats_image, props_image,
}
use jevmachopp.Memory.Reads.{IsAt, IsAt-left, IsAt-right}
use jevmachopp.DeviceTree.Image.Steps.{total, iterator_find-place, iterator_sum-place}
use jevmachopp.Memory.Place.{place}
use jevmachopp.DeviceTree.Image.Nodes.{
  IsReadableNode, flat_name, All-map, All-both, length-flat_image, make_iterator-m_sz,
  children_size-IsAt, properties_sizeof-IsAt, next_node-IsAt, name_or_nullptr-IsAt,
}

abbrev pub flat_size : Flat → ℕ
flat_size n = length (flat_image n)

flats_image-append : (ns ms : List Flat) → flats_image (ns ++ ms) ≡ flats_image ns ++ flats_image ms
flats_image-append [] ms = refl
flats_image-append (n ∷ ns) ms =
    ap (λ l. flat_image n ++ l) (flats_image-append ns ms)
    ∙ sym (append_assoc (flat_image n) (flats_image ns) (flats_image ms))

mutual
  unfolding tree_image preorder

  -- A tree in memory is its nodes one after the other.
  pub tree_image-preorder : (t : Tree) → tree_image t ≡ flats_image (preorder t)
  tree_image-preorder (node xs ts) =
      ap (λ l. flat_image (record { props = xs; kids = width ts }) ++ l) (forest_image-preorders ts)

  pub forest_image-preorders : (ts : Forest) → forest_image ts ≡ flats_image (preorders ts)
  forest_image-preorders end = refl
  forest_image-preorders (tree t ts) =
      ap (λ l. l ++ forest_image ts) (tree_image-preorder t)
      ∙ (ap (λ l. flats_image (preorder t) ++ l) (forest_image-preorders ts)
          ∙ sym (flats_image-append (preorder t) (preorders ts)))

pub width-preorders : (ts : Forest) → width ts ≤ length (preorders ts)
unfolding preorders preorder
width-preorders end = omega arith
width-preorders (tree (node xs us) ts) =
    omega (arith, width-preorders ts, length-append (preorders us) (preorders ts))

-- A node at its position.
abbrev pub IsNodeAt : List ℕ → ℕ × Flat → Type 0
IsNodeAt mem e = IsAt mem e.0 (flat_image e.1) × IsReadableNode e.1

pub placed_nodes :
    (mem : List ℕ) (p : ℕ) (ns : List Flat)
    → All IsReadableNode ns
    → IsAt mem p (flats_image ns)
    → All (IsNodeAt mem) (place flat_size p ns)
placed_nodes mem p [] ok at = tt
placed_nodes mem p (n ∷ ns) ok at = (
  (IsAt-left mem p (flat_image n) (flats_image ns) at, ok.0),
  placed_nodes mem (p + flat_size n) ns ok.1 (IsAt-right mem p (flat_image n) (flats_image ns) at),
)

-- A node whose next nodes in memory are those that its iterator visits.
module _ (mem : List ℕ) (p : ℕ) (n : Flat) (ns : List Flat) (many : length ns ≡ n.kids)
    (ok : All IsReadableNode (n ∷ ns)) (at : IsAt mem p (flats_image (n ∷ ns))) where
  abbrev pub first : ℕ
  first = p + flat_size n

  here : IsAt mem p (flat_image n)
  here = IsAt-left mem p (flat_image n) (flats_image ns) at

  pub each_node : All (IsNodeAt mem) (place flat_size first ns)
  each_node = placed_nodes mem first ns ok.1 (IsAt-right mem p (flat_image n) (flats_image ns) at)

  children_cbegin-IsAt : children_cbegin mem p ≡ done (make_iterator first n.kids)
  unfolding children_cbegin
  children_cbegin-IsAt =
      rw (children_size-IsAt mem p n ok.0 here, properties_sizeof-IsAt mem p n ok.0 here)
        (elim (Bool-cases (n.kids == 0)) [
          | inl zeros ↦ rw zeros refl
          | inr others ↦ rw others (
              ap (λ q. done (record { m_ptr = some q; m_sz = n.kids }))
                (omega (arith, length-flat_image n)))
        ])

  children-IsAt : children mem p ≡ done (make_iterator first (length ns))
  unfolding children
  children-IsAt =
      rw (children_size-IsAt mem p n ok.0 here, children_cbegin-IsAt, many)
        (elim (Bool-cases (n.kids == 0)) [
          | inl zeros ↦ rw zeros refl
          | inr others ↦ rw others refl
        ])

  pub child_named-place :
      (name : List ℕ)
      → child_named mem p name
        ≡ done (
            Option.map
              (λ e. e.0)
              (find_if_or_nullptr (λ e. is_named name (flat_name e.1)) (place flat_size first ns)))
  unfolding child_named
  child_named-place name =
      rw (children-IsAt, make_iterator-m_sz first (length ns))
        (iterator_find-place flat_size (next_node mem) _ (λ m. is_named name (flat_name m)) first ns
          (All-map (λ e h. (next_node-IsAt mem e.0 e.1 h.1 h.0, tested e h))
            (place flat_size first ns) each_node)
          few)
    where
      tested :
          (e : ℕ × Flat)
          → IsNodeAt mem e
          → name_or_nullptr mem e.0 >>= (λ o. done (is_named name o))
            ≡ done (is_named name (flat_name e.1))
      tested e h = rw (name_or_nullptr-IsAt mem e.0 e.1 h.1 h.0)

      few : length ns < 2 ^ 32
      few = omega (arith, many, ok.0.few_kids)

zero_left : (k : ℕ) → 0 + k ≡ k
zero_left k = omega arith

-- The size that the code computes, from the sizes of the nodes that are visited.
module _ (mem : List ℕ) (p : ℕ) (n : Flat) (ns : List Flat) (many : length ns ≡ n.kids)
    (ok : All IsReadableNode (n ∷ ns)) (at : IsAt mem p (flats_image (n ∷ ns))) where
  pub node_sizeof-place :
      (fuel : ℕ) (f : Flat → ℕ)
      → All (λ e. node_sizeof mem fuel e.0 ≡ done (f e.1)) (place flat_size (p + flat_size n) ns)
      → node_sizeof mem (suc fuel) p
        ≡ done ((8 + length (props_image n.props) + total flat_size f ns % 2 ^ 32) % 2 ^ 32)
  unfolding node_sizeof
  node_sizeof-place fuel f sizes = rw (
    properties_sizeof-IsAt mem p n ok.0 (IsAt-left mem p (flat_image n) (flats_image ns) at),
    children_cbegin-IsAt mem p n ns many ok at,
    make_iterator-m_sz (p + flat_size n) n.kids,
    summed,
  )
    where
      summed :
          iterator_sum
            (next_node mem)
            (node_sizeof mem fuel)
            (suc n.kids)
            (make_iterator (p + flat_size n) n.kids)
            0
          ≡ done (total flat_size f ns % 2 ^ 32)
      summed =
          subst
            (λ k.
              iterator_sum (next_node mem) (node_sizeof mem fuel) (suc k)
                (make_iterator (p + flat_size n) k) 0
              ≡ done (total flat_size f ns % 2 ^ 32))
            many
            (iterator_sum-place flat_size (next_node mem) (node_sizeof mem fuel) f (p + flat_size n)
                ns 0
                (All-map (λ e h. (next_node-IsAt mem e.0 e.1 h.0.1 h.0.0, h.1))
                  (place flat_size (p + flat_size n) ns)
                  (All-both _ _ (place flat_size (p + flat_size n) ns)
                    (each_node mem p n ns many ok at) sizes))
                (omega (arith, many, ok.0.few_kids)) (omega arith)
              ∙ ap (λ k. done (k % 2 ^ 32)) (zero_left (total flat_size f ns)))

-- The nodes that the iterator visits: as many as there are children, in the order of memory.
abbrev pub visited : Forest → List Flat
visited ts = take (width ts) (preorders ts)

length-visited : (ts : Forest) → length (visited ts) ≡ width ts
length-visited ts = omega (arith, length-take (width ts) (preorders ts), width-preorders ts)

abbrev pub root_flat : List Prop → Forest → Flat
root_flat xs ts = record { props = xs; kids = width ts }

visited-IsAt :
    (mem : List ℕ) (p : ℕ) (xs : List Prop) (ts : Forest)
    → IsAt mem p (tree_image (node xs ts))
    → IsAt mem p (flats_image (root_flat xs ts ∷ visited ts))
unfolding tree_image
visited-IsAt mem p xs ts at =
    IsAt-left mem p (flats_image (root_flat xs ts ∷ visited ts))
      (flats_image (drop (width ts) (preorders ts))) (subst (λ l. IsAt mem p l) whole at)
  where
    whole :
        flat_image (root_flat xs ts) ++ forest_image ts
        ≡ flats_image (root_flat xs ts ∷ visited ts) ++ flats_image (drop (width ts) (preorders ts))
    whole =
        ap (λ l. flat_image (root_flat xs ts) ++ l)
          (forest_image-preorders ts
            ∙ (ap (λ l. flats_image l) (sym (take-append-drop (width ts) (preorders ts)))
                ∙ flats_image-append (visited ts) (drop (width ts) (preorders ts))))
        ∙ sym (
            append_assoc (flat_image (root_flat xs ts)) (flats_image (visited ts))
              (flats_image (drop (width ts) (preorders ts))))

abbrev pub Readable : Tree → Type 0
Readable t = All IsReadableNode (preorder t)

module _ (mem : List ℕ) (p : ℕ) (xs : List Prop) (ts : Forest) where
  -- For the bytes of a readable tree in memory, `childNamed` finds the first node of the name among
  -- as many nodes as the root has children, taken in the order of memory, where every node stands
  -- before those below it: these need not be its children.
  pub child_named-visited :
      (name : List ℕ)
      → Readable (node xs ts)
      → IsAt mem p (tree_image (node xs ts))
      → child_named mem p name
        ≡ done (
            Option.map
              (λ e. e.0)
              (find_if_or_nullptr
                (λ e. is_named name (flat_name e.1))
                (place flat_size (p + flat_size (root_flat xs ts)) (visited ts))))
  unfolding preorder
  child_named-visited name ok at =
      child_named-place mem p (root_flat xs ts) (visited ts) (length-visited ts)
        (ok.0, All-take _ (width ts) (preorders ts) ok.1) (visited-IsAt mem p xs ts at) name

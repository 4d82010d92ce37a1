-- ===== src/DeviceTree/Image/Shallow.antt =====
-- Nodes of a device tree whose children have no children: there the iterator of the code visits
-- the children.
use jevmachopp.Base.{
  ℕ, suc, ◌+◌, ◌^◌, ◌<◌, List, [], ◌∷◌, length, take, ◌≡◌, refl, ap, subst, sym, ◌∙◌, arith, All,
  done, length-append, append-nil, take-append_length,
}
use mathlib.Core.Option
use jevmachopp.Text.{find_if_or_nullptr}
use jevmachopp.DeviceTree.Node.{is_named, child_named, node_sizeof}
use jevmachopp.DeviceTree.Image.{
  Prop, Flat, Forest, node, end, tree, width, preorder, preorders, tree_image, flat_image,
  flats_image, roots,
}
use jevmachopp.Memory.Reads.{IsAt, IsAt-left, IsAt-right}
use jevmachopp.DeviceTree.Image.Steps.{total}
use jevmachopp.Memory.Place.{place}
use jevmachopp.DeviceTree.Image.Nodes.{IsReadableNode, flat_name, length-flat_image}
use jevmachopp.DeviceTree.Image.Kids.{
  Readable, flat_size, root_flat, visited, child_named-visited, tree_image-preorder,
  node_sizeof-place,
}

-- No child has children.
abbrev pub IsShallow : Forest → Type 0
IsShallow ts = All (λ n. n.kids ≡ 0) (roots ts)

preorders-roots : (ts : Forest) → IsShallow ts → preorders ts ≡ roots ts
unfolding preorders preorder roots
preorders-roots end h = refl
preorders-roots (tree (node xs end) ts) h = ap (λ l. root_flat xs end ∷ l) (preorders-roots ts h.1)
preorders-roots (tree (node xs (tree u us)) ts) h = absurd (omega (arith, h.0))

length-roots : (ts : Forest) → length (roots ts) ≡ width ts
unfolding roots
length-roots end = refl
length-roots (tree (node xs us) ts) = ap suc (length-roots ts)

visited-roots : (ts : Forest) → IsShallow ts → visited ts ≡ roots ts
visited-roots ts h =
    ap (λ l. take (width ts) l) (preorders-roots ts h)
    ∙ (ap (λ k. take k (roots ts)) (sym (length-roots ts))
        ∙ (ap (λ l. take (length (roots ts)) l) (sym (append-nil (roots ts)))
            ∙ take-append_length (roots ts) []))

module _ (mem : List ℕ) (p : ℕ) (xs : List Prop) (ts : Forest) where
  pub child_named-roots :
      (name : List ℕ)
      → IsShallow ts
      → Readable (node xs ts)
      → IsAt mem p (tree_image (node xs ts))
      → child_named mem p name
        ≡ done (
            Option.map
              (λ e. e.0)
              (find_if_or_nullptr
                (λ e. is_named name (flat_name e.1))
                (place flat_size (p + flat_size (root_flat xs ts)) (roots ts))))
  child_named-roots name shallow ok at =
      child_named-visited mem p xs ts name ok at
      ∙ ap
          (λ l. done (
            Option.map (λ e. e.0)
              (find_if_or_nullptr (λ e. is_named name (flat_name e.1))
                (place flat_size (p + flat_size (root_flat xs ts)) l))))
          (visited-roots ts shallow)

leaf-node_sizeof :
    (mem : List ℕ) (q fuel : ℕ) (n : Flat)
    → n.kids ≡ 0
    → IsReadableNode n
    → flat_size n < 2 ^ 32
    → IsAt mem q (flat_image n)
    → node_sizeof mem (suc fuel) q ≡ done (flat_size n)
leaf-node_sizeof mem q fuel n leaf ok small at =
    node_sizeof-place mem q n [] (sym leaf) (ok, tt)
      (subst (λ l. IsAt mem q l) (sym (append-nil (flat_image n))) at) fuel (λ m. 0) tt
    ∙ ap (λ k. done k) (omega (arith, length-flat_image n))

total-flats_image : (ns : List Flat) → total flat_size flat_size ns ≡ length (flats_image ns)
total-flats_image [] = refl
total-flats_image (n ∷ ns) =
    omega (arith, length-append (flat_image n) (flats_image ns), total-flats_image ns)

roots_sizes :
    (mem : List ℕ) (p fuel : ℕ) (ns : List Flat)
    → All (λ n. n.kids ≡ 0) ns
    → All IsReadableNode ns
    → length (flats_image ns) < 2 ^ 32
    → IsAt mem p (flats_image ns)
    → All (λ e. node_sizeof mem (suc fuel) e.0 ≡ done (flat_size e.1)) (place flat_size p ns)
roots_sizes mem p fuel [] leaf ok small at = tt
roots_sizes mem p fuel (n ∷ ns) leaf ok small at = (
  leaf-node_sizeof mem p fuel n leaf.0 ok.0
      (omega (arith, small, length-append (flat_image n) (flats_image ns)))
      (IsAt-left mem p (flat_image n) (flats_image ns) at),
  roots_sizes mem (p + flat_size n) fuel ns leaf.1 ok.1
      (omega (arith, small, length-append (flat_image n) (flats_image ns)))
      (IsAt-right mem p (flat_image n) (flats_image ns) at),
)

module _ (mem : List ℕ) (p : ℕ) (xs : List Prop) (ts : Forest) where
  shallow_image : IsShallow ts → tree_image (node xs ts) ≡ flats_image (root_flat xs ts ∷ roots ts)
  unfolding preorder
  shallow_image shallow =
      tree_image-preorder (node xs ts)
      ∙ ap (λ l. flats_image (root_flat xs ts ∷ l)) (preorders-roots ts shallow)

  -- For the bytes in memory of a readable tree below 2^32 bytes whose root's children have no
  -- children, `node_sizeof` of the root is their number.
  pub node_sizeof-tree_image :
      (fuel : ℕ)
      → IsShallow ts
      → Readable (node xs ts)
      → length (tree_image (node xs ts)) < 2 ^ 32
      → IsAt mem p (tree_image (node xs ts))
      → node_sizeof mem (suc (suc fuel)) p ≡ done (length (tree_image (node xs ts)))
  unfolding preorder
  node_sizeof-tree_image fuel shallow ok small at =
      node_sizeof-place mem p (root_flat xs ts) (roots ts) (length-roots ts) (ok.0, below) there
        (suc fuel) flat_size
        (roots_sizes mem (p + flat_size (root_flat xs ts)) fuel (roots ts) shallow below
          (omega (arith, small, long))
          (IsAt-right mem p (flat_image (root_flat xs ts)) (flats_image (roots ts)) there))
      ∙ ap (λ k. done k)
          (omega
            (arith, small, long, total-flats_image (roots ts), length-flat_image (root_flat xs ts)))
    where
      below : All IsReadableNode (roots ts)
      below = subst (λ l. All IsReadableNode l) (preorders-roots ts shallow) ok.1

      there : IsAt mem p (flats_image (root_flat xs ts ∷ roots ts))
      there = subst (λ l. IsAt mem p l) (shallow_image shallow) at

      long :
          length (tree_image (node xs ts))
          ≡ flat_size (root_flat xs ts) + length (flats_image (roots ts))
      long =
          ap (λ l. length l) (shallow_image shallow)
          ∙ length-append (flat_image (root_flat xs ts)) (flats_image (roots ts))

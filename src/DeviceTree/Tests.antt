-- ===== src/DeviceTree/Tests.antt =====
-- Tests of lib/jevmachopp/DeviceTree.cpp: a root with a child `a`, and below it a child `b`.
use jevmachopp.Base.{
  ℕ, ◌+◌, ◌^◌, ◌<◌, List, [], ◌∷◌, ◌++◌, length, replicate, none, some, true, false, ◌≡◌, refl, sym,
  arith, append-nil, done,
}
use mathlib.Core.Option
use jevmachopp.Text.{text_eq, find_if_or_nullptr, before_nul}
use jevmachopp.Text.Laws.{joined}
use jevmachopp.Text.SplitAt.{split_at, split_at-Splits}
use jevmachopp.Hex.{sv2int}
use jevmachopp.DeviceTree.{
  iterator_find, iterator_sum, increment, next_prop, size_padded, size_raw, prop_name,
}
use jevmachopp.Memory.{bytes_le, load}
use jevmachopp.DeviceTree.Node.{
  children, children_size, children_cbegin, properties_sizeof, properties_cbegin, properties_size,
  properties, name_or_nullptr, next_node, child_named, property_named, node_sizeof, is_named,
  lookup_node, children, children_size, children_cbegin, properties_sizeof, properties_cbegin,
  properties_size, properties, name_or_nullptr,
}
use jevmachopp.DeviceTree.Patch.{patch_property}
use jevmachopp.DeviceTree.Paths.{lookup_node-child_named}
use jevmachopp.DeviceTree.Image.{
  Prop, Flat, Tree, Forest, node, end, tree, IsReadable, prop_image, preorder, tree_image, roots,
}
use jevmachopp.Memory.Reads.{IsAt}
use jevmachopp.Memory.Place.{place}
use jevmachopp.DeviceTree.Image.Nodes.{IsReadableNode, flat_name, name_key}
use jevmachopp.DeviceTree.Image.Kids.{Readable, flat_size, root_flat, visited, child_named-visited}
use jevmachopp.DeviceTree.Image.Shallow.{IsShallow, node_sizeof-tree_image}
use jevmachopp.DeviceTree.Image.Patching.{memory, patch_property-u64, patch_property-u32}

abbrev name_prop : ℕ → Prop
name_prop c = record { name = name_key; replacement = false; data_bytes = c ∷ 0 ∷ [] }

abbrev wide : Prop
wide = record { name = b'w' ∷ []; replacement = true; data_bytes = bytes_le 8 77 }

abbrev narrow : Prop
narrow = record { name = b'n' ∷ []; replacement = false; data_bytes = bytes_le 4 77 }

abbrev kids_of_a : Forest
kids_of_a = tree (node (name_prop b'b' ∷ []) end) end

abbrev kids_of_root : Forest
kids_of_root = tree (node (name_prop b'a' ∷ wide ∷ []) kids_of_a) end

name_prop-IsReadable : (c : ℕ) → IsReadable (name_prop c)
name_prop-IsReadable c = record {
  short = omega arith;
  no_nul = (
    (λ h. absurd (omega arith)),
    ((λ h. absurd (omega arith)), ((λ h. absurd (omega arith)), ((λ h. absurd (omega arith)), tt))),
  );
  small = omega arith;
}

wide-IsReadable : IsReadable wide
unfolding bytes_le
wide-IsReadable = record {
  short = omega arith;
  no_nul = ((λ h. absurd (omega arith)), tt);
  small = omega arith;
}

narrow-IsReadable : IsReadable narrow
unfolding bytes_le
narrow-IsReadable = record {
  short = omega arith;
  no_nul = ((λ h. absurd (omega arith)), tt);
  small = omega arith;
}

abbrev flat_b : Flat
flat_b = record { props = name_prop b'b' ∷ []; kids = 0 }

abbrev flat_a : Flat
flat_a = record { props = name_prop b'a' ∷ wide ∷ []; kids = 1 }

abbrev flat_root : Flat
flat_root = record { props = name_prop b'r' ∷ []; kids = 1 }

flat_b-IsReadableNode : IsReadableNode flat_b
unfolding bytes_le before_nul text_eq
flat_b-IsReadableNode = record {
  readable = (name_prop-IsReadable b'b', tt);
  few_props = omega arith;
  few_kids = omega arith;
  bounded = omega arith;
  named = ((λ h. (b'b' ∷ [], refl)), tt);
}

flat_a-IsReadableNode : IsReadableNode flat_a
unfolding bytes_le before_nul text_eq
flat_a-IsReadableNode = record {
  readable = (name_prop-IsReadable b'a', (wide-IsReadable, tt));
  few_props = omega arith;
  few_kids = omega arith;
  bounded = omega arith;
  named = ((λ h. (b'a' ∷ [], refl)), ((λ h. (b'M' ∷ [], refl)), tt));
}

flat_root-IsReadableNode : IsReadableNode flat_root
unfolding bytes_le before_nul text_eq
flat_root-IsReadableNode = record {
  readable = (name_prop-IsReadable b'r', tt);
  few_props = omega arith;
  few_kids = omega arith;
  bounded = omega arith;
  named = ((λ h. (b'r' ∷ [], refl)), tt);
}

IsAt-start : (bytes : List ℕ) → IsAt bytes 0 bytes
IsAt-start bytes = ([], sym (append-nil bytes))

seven_u64 : sv2int 8 (b'7' ∷ []) ≡ some (some 7)
unfolding sv2int
seven_u64 = refl

seven_u32 : sv2int 4 (b'7' ∷ []) ≡ some (some 7)
unfolding sv2int
seven_u32 = refl

wide_8 : length wide.data_bytes ≡ 8
unfolding bytes_le
wide_8 = refl

narrow_4 : length narrow.data_bytes ≡ 4
unfolding bytes_le
narrow_4 = refl

abbrev whole : Tree
whole = node flat_root.props kids_of_root

whole-Readable : Readable whole
unfolding preorder
whole-Readable = (flat_root-IsReadableNode, (flat_a-IsReadableNode, (flat_b-IsReadableNode, tt)))

abbrev tree_a : Tree
tree_a = node flat_a.props kids_of_a

tree_a-Readable : Readable tree_a
unfolding preorder
tree_a-Readable = (flat_a-IsReadableNode, (flat_b-IsReadableNode, tt))

kids_of_a-IsShallow : IsShallow kids_of_a
unfolding roots
kids_of_a-IsShallow = (refl, tt)

child_named-visited_example :
    child_named (tree_image whole) 0 (b'a' ∷ [])
    ≡ done (
        Option.map
          (λ e. e.0)
          (find_if_or_nullptr
            (λ e. is_named (b'a' ∷ []) (flat_name e.1))
            (place flat_size
              (0 + flat_size (root_flat flat_root.props kids_of_root))
              (visited kids_of_root))))
child_named-visited_example =
    child_named-visited (tree_image whole) 0 flat_root.props kids_of_root (b'a' ∷ []) whole-Readable
      (IsAt-start (tree_image whole))

tree_a_small : length (tree_image tree_a) < 2 ^ 32
unfolding tree_image bytes_le
tree_a_small = omega arith

node_sizeof-tree_image_example :
    node_sizeof (tree_image tree_a) 2 0 ≡ done (length (tree_image tree_a))
node_sizeof-tree_image_example =
    node_sizeof-tree_image (tree_image tree_a) 0 flat_a.props kids_of_a 0 kids_of_a-IsShallow
      tree_a-Readable tree_a_small (IsAt-start (tree_image tree_a))

-- `a` is a child of the root; `b` is not, but stands below it.
a_found : child_named (tree_image whole) 0 (b'a' ∷ []) ≡ done (some 48)
unfolding child_named children children_size children_cbegin properties_sizeof properties_cbegin
    properties_size properties property_named name_or_nullptr next_node iterator_find iterator_sum
    increment next_prop size_padded size_raw prop_name load bytes_le tree_image text_eq before_nul
a_found = refl

-- So the path `/a/b` leads to no node.
b_missed : child_named (tree_image whole) 0 (b'b' ∷ []) ≡ done none
unfolding child_named children children_size children_cbegin properties_sizeof properties_cbegin
    properties_size properties property_named name_or_nullptr next_node iterator_find iterator_sum
    increment next_prop size_padded size_raw prop_name load bytes_le tree_image text_eq before_nul
b_missed = refl

-- Of two children `a` and `c` of the root, the second is not found: the iterator visits `b`.
abbrev two_kids : Tree
two_kids = node flat_root.props (tree tree_a (tree (node (name_prop b'c' ∷ []) end) end))

c_missed : child_named (tree_image two_kids) 0 (b'c' ∷ []) ≡ done none
unfolding child_named children children_size children_cbegin properties_sizeof properties_cbegin
    properties_size properties property_named name_or_nullptr next_node iterator_find iterator_sum
    increment next_prop size_padded size_raw prop_name load bytes_le tree_image text_eq before_nul
c_missed = refl

lookup_node-child_named_example :
    lookup_node
      (tree_image whole)
      split_at
      0
      (b'/' ∷ joined (b'/' ∷ []) ((b'a' ∷ []) ∷ (b'b' ∷ []) ∷ []))
    ≡ child_named (tree_image whole) 0 (b'b' ∷ [])
lookup_node-child_named_example =
    lookup_node-child_named (tree_image whole) split_at 0 ((b'a' ∷ []) ∷ []) (b'b' ∷ [])
      split_at-Splits
      (
        (λ h. cc, ((λ h. absurd (omega arith)), tt)),
        ((λ h. cc, ((λ h. absurd (omega arith)), tt)), tt),
      )
      ((48, a_found), tt)

patch_property-u64_example :
    patch_property (memory (0 ∷ []) (9 ∷ []) wide) 1 (b'7' ∷ [])
    ≡ done (true, memory (0 ∷ []) (9 ∷ []) (record wide { data_bytes = bytes_le 8 7 }))
patch_property-u64_example =
    patch_property-u64 (0 ∷ []) (9 ∷ []) wide wide-IsReadable (b'7' ∷ []) 7 wide_8 seven_u64

patch_property-u32_example :
    patch_property (memory (0 ∷ []) (1 ∷ 2 ∷ 3 ∷ 4 ∷ 5 ∷ []) narrow) 1 (b'7' ∷ [])
    ≡ done (
      true,
      (0 ∷ [])
          ++ (prop_image (record narrow { data_bytes = bytes_le 4 7 })
              ++ (replicate 4 0 ++ (5 ∷ []))),
    )
patch_property-u32_example =
    patch_property-u32 (0 ∷ []) (1 ∷ 2 ∷ 3 ∷ 4 ∷ 5 ∷ []) narrow narrow-IsReadable (b'7' ∷ []) 7
      narrow_4 seven_u32 (omega arith) (omega arith)

-- ===== src/DeviceTree/Image.antt =====
-- Device trees, and the bytes of a tree in memory: what lib/jevmachopp/DeviceTree.cpp reads.

pub mod Steps
pub mod Props
pub mod Nodes
pub mod Kids
pub mod Shallow
pub mod Patching
use jevmachopp.Base.{
  ℕ, zero, suc, ◌+◌, ◌-◌, ◌*◌, ◌/◌, ◌%◌, ◌^◌, ◌<◌, List, [], ◌∷◌, ◌++◌, length, replicate, Option,
  none, some, Bool, true, false, if◌then◌else◌, ◌≡◌, ◌≢◌, All,
}
use jevmachopp.Text.{text_eq, before_nul, find_if_or_nullptr}
use jevmachopp.Memory.{bytes_le}

-- A property: the bytes of its name, its tag and its data.
pub record Prop : Type 0 where
  pub name : List ℕ
  pub replacement : Bool
  pub data_bytes : List ℕ

abbrev pub padded_size : ℕ → ℕ
padded_size n = (n + 3) / 4 * 4

abbrev pub tag_of : Bool → ℕ
tag_of b = if b then 2 ^ 31 else 0

abbrev pub name_buf : List ℕ → List ℕ
name_buf s = s ++ replicate (32 - length s) 0

abbrev pub prop_header : Prop → List ℕ
prop_header x = name_buf x.name ++ bytes_le 4 (length x.data_bytes + tag_of x.replacement)

abbrev pub padding : Prop → List ℕ
padding x = replicate (padded_size (length x.data_bytes) - length x.data_bytes) 0

abbrev pub prop_image : Prop → List ℕ
prop_image x = prop_header x ++ (x.data_bytes ++ padding x)

abbrev pub props_image : List Prop → List ℕ
props_image [] = []
props_image (x ∷ xs) = prop_image x ++ props_image xs

-- A tree of nodes.
mutual
  pub data Tree : Type 0 where
    node : List Prop → Forest → Tree

  pub data Forest : Type 0 where
    end : Forest
    tree : Tree → Forest → Forest

abbrev pub width : Forest → ℕ
width end = 0
width (tree t ts) = suc (width ts)

-- A node by itself: its properties and the number of its children.
pub record Flat : Type 0 where
  pub props : List Prop
  pub kids : ℕ

abbrev pub flat_image : Flat → List ℕ
flat_image n = (bytes_le 4 (length n.props) ++ bytes_le 4 n.kids) ++ props_image n.props

abbrev pub flats_image : List Flat → List ℕ
flats_image [] = []
flats_image (n ∷ ns) = flat_image n ++ flats_image ns

-- The nodes of a tree, every node before those below it.
unfoldable mutual
  pub preorder : Tree → List Flat
  preorder (node xs ts) = record { props = xs; kids = width ts } ∷ preorders ts

  pub preorders : Forest → List Flat
  preorders end = []
  preorders (tree t ts) = preorder t ++ preorders ts

-- The bytes of a tree: every node, then its children.
unfoldable mutual
  pub tree_image : Tree → List ℕ
  tree_image (node xs ts) = flat_image (record { props = xs; kids = width ts }) ++ forest_image ts

  pub forest_image : Forest → List ℕ
  forest_image end = []
  forest_image (tree t ts) = tree_image t ++ forest_image ts

-- A property that the code can read: a C string of less than 32 bytes as its name.
pub record IsReadable (x : Prop) : Type 0 where
  pub short : length x.name < 32
  pub no_nul : All (λ c. c ≢ 0) x.name
  pub small : length x.data_bytes + 3 < 2 ^ 31

-- The children of a node, as trees.
unfoldable pub roots : Forest → List Flat
roots end = []
roots (tree (node xs ts) rest) = record { props = xs; kids = width ts } ∷ roots rest

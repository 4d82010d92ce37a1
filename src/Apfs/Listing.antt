-- ===== src/Apfs/Listing.antt =====
-- lib/jevmachopp/UBootAPFS.cpp: what a listing and the reading of a directory give.
use jevmachopp.Base.{
  ℕ, suc, ◌+◌, List, [], ◌∷◌, ◌++◌, map, length, length-append, Bool-cases, inl, inr, zero, le→leb,
  leb-false, Option, none, some, ◌||◌, not, check, ◌>>◌, Ensures, Bool, true, false, ◌≡◌, refl, ◌∙◌,
  sym, if◌then◌else◌, Outcome, done, aborted, overrun, ◌>>=◌, arith, append_assoc, append-nil, leb,
  get-middle,
}
use jevmachopp.Text.{text_eq, find_if_or_nullptr}
use jevmachopp.Apfs.{
  Libraries, Container, Volume, DirRec, ApfsNode, node_name, uboot_type, volume_node, volume_loop,
  child_named, container_node, is_dir_uboot, is_link, rec_is_dir, check, rec_is_link, not,
}
use jevmachopp.Apfs.Lookup.{list_volumes, list_node}
use jevmachopp.Apfs.Stream.{
  FsDirent, DirStream, entry, no_entry, name_field, apfs_readdir, read_all,
}

leb-middle :
    (xs : List ApfsNode) (y : ApfsNode) (ys : List ApfsNode)
    → leb (length (xs ++ (y ∷ ys))) (length xs) ≡ false
leb-middle xs y ys =
    leb-false (length (xs ++ (y ∷ ys))) (length xs) (omega (arith, length-append xs (y ∷ ys)))

module _ (l : Libraries) where
  -- The type that U-Boot is told.
  abbrev pub type_of : ApfsNode → ℕ
  type_of n = if is_dir_uboot l n then 4 else (if is_link l n then 10 else 8)

  abbrev pub dirent_of : ApfsNode → FsDirent
  dirent_of n = record { type = type_of n; name = name_field (node_name n) }

  type_of_bools :
      (dir link : Bool)
      → ◌≡◌ {A = Outcome ℕ}
          (if dir
            then done 4
            else (if link then done 10 else (check (not (dir || link)) >> done 8)))
          (done (if dir then 4 else (if link then 10 else 8)))
  type_of_bools true link = refl
  type_of_bools false true = refl
  type_of_bools false false = refl

  type_of_parts :
      (v : Option Volume) (r : Option DirRec)
      → uboot_type l (record { m_volume = v; m_dirrec = r })
        ≡ done (type_of (record { m_volume = v; m_dirrec = r }))
  unfolding uboot_type
  type_of_parts none none = refl
  type_of_parts (some v) none = refl
  type_of_parts none (some r) = type_of_bools (rec_is_dir l r) (rec_is_link l r)
  type_of_parts (some v) (some r) = type_of_bools (rec_is_dir l r) (rec_is_link l r)

  -- A node that U-Boot takes for no directory and no link is a file: the `assert` holds.
  pub uboot_type_lem : (n : ApfsNode) → uboot_type l n ≡ done (type_of n)
  uboot_type_lem n = type_of_parts n.m_volume n.m_dirrec

  readdir-end :
      (xs : List ApfsNode)
      → apfs_readdir l (record { nodes = xs; idx = length xs })
        ≡ done (no_entry, record { nodes = xs; idx = length xs })
  unfolding apfs_readdir
  readdir-end xs = rw (le→leb (length xs) (length xs) (omega arith))

  readdir-middle :
      (xs : List ApfsNode) (y : ApfsNode) (ys : List ApfsNode)
      → apfs_readdir l (record { nodes = xs ++ (y ∷ ys); idx = length xs })
        ≡ done (entry (dirent_of y), record { nodes = xs ++ (y ∷ ys); idx = length xs + 1 })
  unfolding apfs_readdir
  readdir-middle xs y ys = rw (leb-middle xs y ys, get-middle xs y ys, uboot_type_lem y)

  read_all-entry :
      (fuel : ℕ) (dir dir' : DirStream) (e : FsDirent)
      → apfs_readdir l dir ≡ done (entry e, dir')
      → read_all l (suc fuel) dir ≡ read_all l fuel dir' >>= λ r. done (e ∷ r.0, r.1)
  unfolding read_all
  read_all-entry fuel dir dir' e h = rw h

  read_all-no_entry :
      (fuel : ℕ) (dir dir' : DirStream)
      → apfs_readdir l dir ≡ done (no_entry, dir')
      → read_all l (suc fuel) dir ≡ done ([], dir')
  unfolding read_all
  read_all-no_entry fuel dir dir' h = rw h

  read_all_from :
      (xs ys : List ApfsNode)
      → read_all l (suc (length ys)) (record { nodes = xs ++ ys; idx = length xs })
        ≡ done (map dirent_of ys, record { nodes = xs ++ ys; idx = length (xs ++ ys) })
  read_all_from xs [] = rw (append-nil xs, read_all-no_entry 0 _ _ (readdir-end xs))
  read_all_from xs (y ∷ ys) =
      read_all-entry (suc (length ys)) _ _ (dirent_of y) (readdir-middle xs y ys)
      ∙ rw (
        sym (length-append xs (y ∷ [])),
        sym (append_assoc xs (y ∷ []) ys),
        read_all_from (xs ++ (y ∷ [])) ys,
      )

  -- From the start of a directory of any nodes, one call of `apfs_readdir` more than there are
  -- nodes is enough: the calls return an entry for each node in order, with its type and its name
  -- cut or filled to 256 bytes, and then that there is no entry, and no `assert` fails.
  pub read_all_lem :
      (nodes : List ApfsNode)
      → read_all l (suc (length nodes)) (record { nodes = nodes; idx = 0 })
        ≡ done (map dirent_of nodes, record { nodes = nodes; idx = length nodes })
  read_all_lem nodes = read_all_from [] nodes

  module _ (c : Container) where
    abbrev pub with_name : List ℕ → ApfsNode → Bool
    with_name name n = text_eq (node_name n) name

    volume_loop-list_volumes :
        (name : List ℕ) (volidx left : ℕ)
        → Ensures
            (λ nodes.
              volume_loop l c name volidx left ≡ done (find_if_or_nullptr (with_name name) nodes))
            (list_volumes l c volidx left)
    unfolding list_volumes volume_loop node_name find_if_or_nullptr
    volume_loop-list_volumes name volidx zero = refl
    volume_loop-list_volumes name volidx (suc left) =
        step (c.get_volume volidx) (volume_loop l c name (volidx + 1) left)
          (list_volumes l c (volidx + 1) left) (volume_loop-list_volumes name (volidx + 1) left)
      where
        step :
            (o : Option Volume) (found : Outcome (Option ApfsNode))
            (nodes : Outcome (List ApfsNode))
            → Ensures (λ ns. found ≡ done (find_if_or_nullptr (with_name name) ns)) nodes
            → Ensures
                (λ ns.
                  (elim o as (λ _. Outcome (Option ApfsNode)) [
                    | none ↦ aborted
                    | some vol ↦
                        if text_eq vol.name name then done (some (volume_node vol)) else found
                  ])
                  ≡ done (find_if_or_nullptr (with_name name) ns))
                (elim o as (λ _. Outcome (List ApfsNode)) [
                  | none ↦ aborted
                  | some vol ↦ nodes >>= λ children. done (volume_node vol ∷ children)
                ])
        step none found nodes h = tt
        step (some vol) found aborted h = tt
        step (some vol) found overrun h = tt
        step (some vol) found (done ns) h = rw h (elim (Bool-cases (text_eq vol.name name)) [
          | inl same ↦ rw same refl
          | inr other ↦ rw other refl
        ])

    -- If the listing of a container returns, `childNamed` on the container returns the first node
    -- of the listing that has the name, or none where there is none.
    pub child_named-list_node :
        (name : List ℕ)
        → Ensures
            (λ nodes.
              child_named l c container_node name
              ≡ done (find_if_or_nullptr (with_name name) nodes))
            (list_node l c container_node)
    unfolding child_named list_node
    child_named-list_node name = volume_loop-list_volumes name 0 c.volume_cnt

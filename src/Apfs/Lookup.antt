-- ===== src/Apfs/Lookup.antt =====
-- lib/jevmachopp/UBootAPFS.cpp: `lookupVolume`, `lookup`, the listing of a node, and the lookup of
-- directories by their records.
use jevmachopp.Base.{
  ℕ, zero, suc, ◌+◌, List, [], ◌∷◌, map, drop, get_or, Option, none, some, ◌||◌, not, ◌==◌,
  if◌then◌else◌, Outcome, done, aborted, overrun, ◌>>=◌, ◌>>◌, check,
}
use jevmachopp.Text.{text_eq}
use jevmachopp.Apfs.{
  Libraries, Container, Volume, DirRec, ApfsPath, ApfsNode, container_node, volume_node, path_node,
  child_named, is_empty, is_container, is_volume, is_dir, parent_ino,
}

module _ (l : Libraries) (c : Container) where
  -- The loop of `lookupVolume` over the volumes from `volidx` on, `left` of them.
  unfoldable pub lookup_volume_loop : List ℕ → ℕ → ℕ → Outcome (Option Volume)
  lookup_volume_loop vol_name volidx zero = done none
  lookup_volume_loop vol_name volidx (suc left) =
      let rest = lookup_volume_loop vol_name (volidx + 1) left in
      let found : Outcome (Option Volume) = elim (c.get_volume volidx) [
        | none ↦ aborted
        | some vol ↦ done (some vol)
      ] in
      elim (c.get_volume_info volidx) [
        | none ↦ aborted
        | some apfs_volname ↦ if text_eq vol_name apfs_volname then found else rest
      ]

  unfoldable pub lookup_volume : List ℕ → Outcome (Option Volume)
  unfolding lookup_volume_loop
  lookup_volume vol_name = lookup_volume_loop vol_name 0 c.volume_cnt

  -- The loop of `lookup` over the names of a path.
  unfoldable pub walk : ApfsNode → List (List ℕ) → Outcome (Option ApfsNode)
  unfolding child_named
  walk res [] = done (some res)
  walk res (child_name ∷ names) = child_named l c res child_name >>= λ o. elim o [
    | none ↦ done none
    | some child ↦ walk child names
  ]

  -- The names that `lookup` walks along, for the path in the volume.
  abbrev pub names_of : List ℕ → List (List ℕ)
  names_of path = if is_empty path then [] else drop 1 (l.split path b'/')

  unfoldable pub lookup : ApfsPath → Outcome (Option ApfsNode)
  unfolding lookup_volume walk
  lookup path =
      if is_empty path.volume
      then done (some container_node)
      else (lookup_volume path.volume >>= λ o. elim o [
        | none ↦ done none
        | some vol ↦ walk (volume_node vol) (names_of path.path)
      ])

  -- The loop of `list` over the volumes.
  unfoldable pub list_volumes : ℕ → ℕ → Outcome (List ApfsNode)
  list_volumes volidx zero = done []
  list_volumes volidx (suc left) =
      let rest = list_volumes (volidx + 1) left in
      elim (c.get_volume volidx) [
        | none ↦ aborted
        | some vol ↦ rest >>= λ children. done (volume_node vol ∷ children)
      ]

  abbrev list_in : Option Volume → Option DirRec → Outcome (List ApfsNode)
  list_in none r = overrun
  list_in (some v) r = elim (v.list_directory (parent_ino l r)) [
    | none ↦ aborted
    | some res_drs ↦ done (map (path_node v) res_drs)
  ]

  -- `APFSNode::list`
  unfoldable pub list_node : ApfsNode → Outcome (List ApfsNode)
  unfolding list_volumes
  list_node n = do
    check (is_container n || is_volume n || is_dir l n)
    (if is_container n then list_volumes 0 c.volume_cnt else list_in n.m_volume n.m_dirrec)

  -- `list` of a path; `none` where there is no node.
  unfoldable pub list : ApfsPath → Outcome (Option (List ApfsNode))
  unfolding lookup list_node
  list path = lookup path >>= λ o. elim o [
    | none ↦ done none
    | some node ↦ list_node node >>= λ children. done (some children)
  ]

module _ (l : Libraries) (v : Volume) where
  -- `childDirNamed`
  unfoldable pub child_dir_named : DirRec → List ℕ → Option DirRec
  child_dir_named parent_dir child_dir_name = v.lookup_name parent_dir.file_id child_dir_name

  -- The loop of `lookupDir`.
  unfoldable pub walk_dir : DirRec → List (List ℕ) → Option DirRec
  unfolding child_dir_named
  walk_dir res [] = some res
  walk_dir res (child_name ∷ names) = elim (child_dir_named res child_name) [
    | none ↦ none
    | some child ↦ walk_dir child names
  ]

  abbrev root_name : List ℕ
  root_name = b'r' ∷ b'o' ∷ b'o' ∷ b't' ∷ []

  -- `lookupDir`
  unfoldable pub lookup_dir : List ℕ → Outcome (Option DirRec)
  unfolding walk_dir
  lookup_dir dir_path =
      if is_empty dir_path || not (get_or dir_path 0 0 == b'/')
      then done none
      else elim (v.lookup_name l.root_dir_parent root_name) [
        | none ↦ aborted
        | some res ↦ done (walk_dir res (drop 1 (l.split dir_path b'/')))
      ]

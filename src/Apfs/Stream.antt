-- ===== src/Apfs/Stream.antt =====
-- lib/jevmachopp/UBootAPFS.cpp: `apfs_opendir`, `apfs_readdir` and `apfs_closedir`.
use jevmachopp.Base.{
  ℕ, zero, suc, ◌+◌, ◌-◌, List, [], ◌∷◌, ◌++◌, length, take, replicate, get_elem?, Option, none,
  some, leb, if◌then◌else◌, Outcome, done, aborted, overrun, ◌>>=◌,
}
use jevmachopp.Apfs.{Libraries, Container, ApfsNode, path_from, uboot_type, node_name}
use jevmachopp.Apfs.Lookup.{list}

-- `fs_dirent`, the fields that are written.
pub record FsDirent : Type 0 where
  pub type : ℕ
  pub name : List ℕ

-- `APFSDirStream`
pub record DirStream : Type 0 where
  pub nodes : List ApfsNode
  pub idx : ℕ

-- What `apfs_readdir` returns: 0 with an entry, or -ENOENT.
pub data Reading : Type 0 where
  entry : FsDirent → Reading
  no_entry : Reading

-- `strncpy` into 256 bytes.
abbrev pub name_field : List ℕ → List ℕ
name_field s = take 256 s ++ replicate (256 - length s) 0

abbrev non_null : Option (List ApfsNode) → Outcome DirStream
non_null none = aborted
non_null (some nodes) = done (record { nodes = nodes; idx = 0 })

module _ (l : Libraries) where
  unfoldable pub apfs_opendir : Container → List ℕ → Outcome DirStream
  unfolding path_from list
  apfs_opendir c filename = do path ← path_from l filename; nodes ← list l c path; non_null nodes

  unfoldable pub apfs_readdir : DirStream → Outcome (Reading × DirStream)
  unfolding uboot_type node_name
  apfs_readdir dir =
      if leb (length dir.nodes) dir.idx
      then done (no_entry, dir)
      else elim (get_elem? dir.nodes dir.idx) [
        | none ↦ overrun
        | some node ↦ uboot_type l node >>= λ t. done (
          entry (record { type = t; name = name_field (node_name node) }),
          record dir { idx = dir.idx + 1 },
        )
      ]

  -- A client that reads until there is no entry, with fuel for its calls.
  unfoldable pub read_all : ℕ → DirStream → Outcome (List FsDirent × DirStream)
  unfolding apfs_readdir
  read_all zero dir = aborted
  read_all (suc fuel) dir = apfs_readdir dir >>= λ p. elim p.0 [
    | no_entry ↦ done ([], p.1)
    | entry e ↦ read_all fuel p.1 >>= λ r. done (e ∷ r.0, r.1)
  ]

-- ===== src/Apfs.antt =====
-- lib/jevmachopp/UBootAPFS.cpp: nodes of an APFS container and the lookup of paths. ApfsLib, which
-- reads the disk, and nanorange, which splits strings, are parameters: what a container, a volume
-- and a directory of a volume answer.
pub mod Lookup
pub mod Stream
pub mod Ctx
pub mod Opened
pub mod Paths
pub mod Listing
mod Tests
use jevmachopp.Base.{
  ℕ, zero, suc, ◌+◌, ◌%◌, ◌^◌, List, [], ◌∷◌, ◌++◌, map, length, drop, get_or, Option, none, some,
  Bool, true, false, ◌&&◌, ◌||◌, not, ◌==◌, if◌then◌else◌, bit_and, Outcome, done, aborted, overrun,
  ◌>>=◌, ◌>>◌, check,
}
use mathlib.Core.Option
use jevmachopp.Text.{text_eq, get, join}

-- `ApfsDir::DirRec`
pub record DirRec : Type 0 where
  pub name : List ℕ
  pub file_id : ℕ
  pub flags : ℕ

-- `ApfsVolume`, and `ApfsDir` on it: `LookupName` and `ListDirectory` under a parent's id.
pub record Volume : Type 0 where
  pub name : List ℕ
  pub lookup_name : ℕ → List ℕ → Option DirRec
  pub list_directory : ℕ → Option (List DirRec)

-- `ApfsContainer`
pub record Container : Type 0 where
  pub volume_cnt : ℕ
  pub get_volume : ℕ → Option Volume
  -- the name in the superblock, where there is one
  pub get_volume_info : ℕ → Option (List ℕ)

-- The constants of ApfsLib, and `stringSplitViewDelimitedBy`, which nanorange does.
pub record Libraries : Type 0 where
  pub root_dir_parent : ℕ
  pub drec_type_mask : ℕ
  pub split : List ℕ → ℕ → List (List ℕ)

abbrev pub is_some {ℓ} : {A : Type ℓ} → Option A → Bool
is_some none = false
is_some (some a) = true

abbrev pub is_empty : List ℕ → Bool
is_empty [] = true
is_empty (c ∷ cs) = false

-- `APFSPath`
pub record ApfsPath : Type 0 where
  pub volume : List ℕ
  pub path : List ℕ

unfoldable pub path_of : List ℕ → List ℕ → Outcome ApfsPath
path_of volume volume_path = do
  check (not (is_empty volume))
  done (record { volume = volume; path = if is_empty volume_path then b'/' ∷ [] else volume_path })

abbrev or_nothing : Option (List ℕ) → List ℕ
or_nothing none = []
or_nothing (some s) = s

-- `APFSNode`; its container is the same throughout, and not null.
pub record ApfsNode : Type 0 where
  pub m_volume : Option Volume
  pub m_dirrec : Option DirRec

abbrev pub container_node : ApfsNode
container_node = record { m_volume = none; m_dirrec = none }

abbrev pub volume_node : Volume → ApfsNode
volume_node v = record { m_volume = some v; m_dirrec = none }

abbrev pub path_node : Volume → DirRec → ApfsNode
path_node v r = record { m_volume = some v; m_dirrec = some r }

abbrev pub is_container : ApfsNode → Bool
is_container n = not (is_some n.m_volume) && not (is_some n.m_dirrec)

abbrev pub is_volume : ApfsNode → Bool
is_volume n = is_some n.m_volume && not (is_some n.m_dirrec)

abbrev pub is_path : ApfsNode → Bool
is_path n = is_some n.m_dirrec

abbrev pub has_type : (DirRec → Bool) → Option DirRec → Bool
has_type test none = false
has_type test (some r) = test r

abbrev name_of : Option Volume → Option DirRec → List ℕ
name_of v (some r) = r.name
name_of (some v) none = v.name
name_of none none = b'/' ∷ []

unfoldable pub node_name : ApfsNode → List ℕ
node_name n = name_of n.m_volume n.m_dirrec

module _ (l : Libraries) where
  -- The constructor from a full path.
  unfoldable pub path_from : List ℕ → Outcome ApfsPath
  unfolding get join
  path_from full_path =
      let fp =
        if is_empty full_path || not (get_or full_path 0 0 == b'/')
        then b'/' ∷ full_path
        else full_path in
      let sv = drop 1 (l.split fp b'/') in
      let volume = or_nothing (get sv 0) in
      let path = join (drop 1 sv) (b'/' ∷ []) in
      do
        check (is_empty path || not (is_empty volume))
        done (record { volume = volume; path = path })

  abbrev pub drec_type : DirRec → ℕ
  drec_type r = bit_and r.flags l.drec_type_mask % 2 ^ 8

  abbrev pub rec_is_dir : DirRec → Bool
  rec_is_dir r = drec_type r == 4

  abbrev pub rec_is_file : DirRec → Bool
  rec_is_file r = drec_type r == 8

  abbrev pub rec_is_link : DirRec → Bool
  rec_is_link r = drec_type r == 10

  abbrev pub is_dir : ApfsNode → Bool
  is_dir n = is_path n && has_type rec_is_dir n.m_dirrec

  abbrev pub is_dir_uboot : ApfsNode → Bool
  is_dir_uboot n = is_container n || is_volume n || is_dir n

  abbrev pub is_file : ApfsNode → Bool
  is_file n = is_path n && has_type rec_is_file n.m_dirrec

  abbrev pub is_link : ApfsNode → Bool
  is_link n = is_path n && has_type rec_is_link n.m_dirrec

  abbrev pub is_file_uboot : ApfsNode → Bool
  is_file_uboot n = is_path n && not (is_dir n || is_link n)

  -- `FS_DT_DIR`, `FS_DT_LNK` and `FS_DT_REG` of U-Boot.
  unfoldable pub uboot_type : ApfsNode → Outcome ℕ
  uboot_type n =
      if is_dir_uboot n
      then done 4
      else (if is_link n then done 10 else do check (is_file_uboot n); done 8)

  -- The id under which a node's entries are looked up.
  abbrev parent_ino : Option DirRec → ℕ
  parent_ino none = l.root_dir_parent
  parent_ino (some r) = if rec_is_dir r then r.file_id else l.root_dir_parent

  module _ (c : Container) where
    -- The loop of `childNamed` over the volumes from `volidx` on, `left` of them.
    unfoldable pub volume_loop : List ℕ → ℕ → ℕ → Outcome (Option ApfsNode)
    volume_loop name volidx zero = done none
    volume_loop name volidx (suc left) =
        let rest = volume_loop name (volidx + 1) left in
        elim (c.get_volume volidx) [
          | none ↦ aborted
          | some vol ↦ if text_eq vol.name name then done (some (volume_node vol)) else rest
        ]

    -- `childNamed` below a volume.
    abbrev child_in : Option Volume → Option DirRec → List ℕ → Outcome (Option ApfsNode)
    child_in none r name = overrun
    child_in (some v) r name = done (Option.map (path_node v) (v.lookup_name (parent_ino r) name))

    unfoldable pub child_named : ApfsNode → List ℕ → Outcome (Option ApfsNode)
    unfolding volume_loop
    child_named n name =
        if not (is_container n || is_volume n || is_dir n)
        then done none
        else (if is_container n
            then volume_loop name 0 c.volume_cnt
            else child_in n.m_volume n.m_dirrec name)

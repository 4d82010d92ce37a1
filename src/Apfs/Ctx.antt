-- ===== src/Apfs/Ctx.antt =====
-- lib/jevmachopp/UBootAPFS.cpp: `APFSCtx` for a block device, and the calls of U-Boot on it. The
-- device and the container are those of ApfsLib, as parameters: whether a device opens, and what
-- the container is on a range of it, or none where its `Init` fails.
use jevmachopp.Base.{
  ◌==◌, ◌++◌, ◌-◌, not, ℕ, ◌*◌, ◌%◌, ◌^◌, List, [], ◌∷◌, Option, none, some, Bool, true, false,
  if◌then◌else◌, Outcome, done, aborted, overrun, ◌>>=◌, ◌>>◌, check,
}
use jevmachopp.Text.{get}
use jevmachopp.Apfs.{Container, is_some, not}

-- `disk_partition`, the fields that are read.
pub record DiskPartition : Type 0 where
  pub start : ℕ
  pub size : ℕ
  pub blksz : ℕ

-- What `std::stoi` gives: it throws, or an `int`.
pub data Stoi : Type 0 where
  throws : Stoi
  negative : Stoi
  natural : ℕ → Stoi

-- What the libraries answer: of devices also which one a name opens, whether its partition table
-- verifies, and the start and the size of a partition.
pub record Devices : Type 1 where
  pub Desc : Type 0
  pub opens : Desc → Bool
  pub named : List ℕ → Option Desc
  pub verifies : Desc → Bool
  pub partition_at : Desc → ℕ → Option (ℕ × ℕ)
  pub stoi : List ℕ → Stoi
  pub split : List ℕ → ℕ → List (List ℕ)
  pub container_on : Desc → ℕ → ℕ → Option Container

module _ (d : Devices) where
  -- `m_container` is none for a null pointer, and points to none where `Init` failed.
  pub record ApfsCtx : Type 0 where
    pub m_dev : Option d.Desc
    pub m_blk_off_blks : ℕ
    pub m_blk_sz_bytes : ℕ
    pub m_container : Option (Option Container)
    pub m_opened : Bool

  -- The context at the start: the memory of a global is zero.
  abbrev pub start_ctx : ApfsCtx
  start_ctx = record {
    m_dev = none;
    m_blk_off_blks = 0;
    m_blk_sz_bytes = 0;
    m_container = none;
    m_opened = false;
  }

  abbrev pub install : ApfsCtx → Option Container → Bool × ApfsCtx
  install ctx none = (false, record ctx { m_container = some none })
  install ctx (some c) = (true, record ctx { m_container = some (some c); m_opened = true })

  unfoldable pub open_common : ApfsCtx → d.Desc → Bool × ApfsCtx
  open_common ctx dev = install ctx (d.container_on dev ctx.m_blk_off_blks ctx.m_blk_sz_bytes)

  unfoldable pub open_device : ApfsCtx → d.Desc → DiskPartition → Bool × ApfsCtx
  unfolding open_common
  open_device ctx fs_dev_desc fs_partition =
      let opened =
        open_common
          (record ctx {
            m_dev = some fs_dev_desc;
            m_blk_off_blks = fs_partition.start * fs_partition.blksz % 2 ^ 64;
            m_blk_sz_bytes = fs_partition.size * fs_partition.blksz % 2 ^ 64;
          })
          fs_dev_desc in
      if d.opens fs_dev_desc then opened else (false, ctx)

  -- A part of a name that is asserted to be there.
  abbrev pub part_of : Option (List ℕ) → Outcome (List ℕ)
  part_of none = aborted
  part_of (some s) = done s

  -- The partition's number from 0 on; without a number it is 0. An exception ends the program.
  unfoldable pub part_num : Option (List ℕ) → Outcome ℕ
  part_num none = done 0
  part_num (some s) = elim (d.stoi s) [
    | throws ↦ aborted
    | negative ↦ aborted
    | natural n ↦ do check (not (n == 0)); done (n - 1)
  ]

  abbrev pub open_partition : ApfsCtx → d.Desc → Option (ℕ × ℕ) → Outcome (Bool × ApfsCtx)
  open_partition ctx dev none = aborted
  open_partition ctx dev (some (start, size)) = done (
      open_common (record ctx { m_dev = some dev; m_blk_off_blks = start; m_blk_sz_bytes = size })
        dev)

  -- `open` of a name such as `virtio:1:2`.
  unfoldable pub open_named : ApfsCtx → List ℕ → Outcome (Bool × ApfsCtx)
  unfolding open_common part_num
  open_named ctx name =
      let sv = d.split name b':' in
      part_of (get sv 0) >>= λ type. part_of (get sv 1) >>= λ dev_num_str.
      part_num (get sv 2) >>= λ n. elim (d.named (type ++ (b':' ∷ dev_num_str))) [
        | none ↦ done (false, ctx)
        | some dev ↦ do check (d.verifies dev); open_partition ctx dev (d.partition_at dev n)
      ]

  -- `close`; destroying a null container is undefined.
  unfoldable pub close : ApfsCtx → Outcome ApfsCtx
  close ctx =
      if is_some ctx.m_container
      then done (record ctx { m_dev = none; m_container = none; m_opened = false })
      else overrun

  abbrev pub the_container : Option (Option Container) → Outcome (Option Container)
  the_container none = aborted
  the_container (some c) = done c

  unfoldable pub container : ApfsCtx → Outcome (Option Container)
  container ctx = if ctx.m_opened then the_container ctx.m_container else aborted

  unfoldable pub apfs_probe : ApfsCtx → d.Desc → DiskPartition → Bool × ApfsCtx
  unfolding open_device
  apfs_probe ctx fs_dev_desc fs_partition = open_device ctx fs_dev_desc fs_partition

  unfoldable pub apfs_close : ApfsCtx → Outcome ApfsCtx
  unfolding close
  apfs_close ctx = do check ctx.m_opened; close ctx

  -- `~APFSCtx`
  unfoldable pub destroy : ApfsCtx → Outcome ApfsCtx
  unfolding close
  destroy ctx = elim ctx.m_opened [ true ↦ close ctx | false ↦ done ctx ]

  -- The calls on a context, of U-Boot and of the demonstration, which opens by a name.
  pub data CtxCall : Type 0 where
    opens_named : List ℕ → CtxCall
    probes : d.Desc → DiskPartition → CtxCall
    closes : CtxCall
    uses_container : CtxCall

  unfoldable pub ctx_call : ApfsCtx → CtxCall → Outcome ApfsCtx
  unfolding open_named apfs_probe apfs_close container
  ctx_call ctx (opens_named name) = open_named ctx name >>= λ r. done r.1
  ctx_call ctx (probes desc partition) = done (apfs_probe ctx desc partition).1
  ctx_call ctx closes = apfs_close ctx
  ctx_call ctx uses_container = container ctx >>= λ c. done ctx

  unfoldable pub ctx_calls : ApfsCtx → List CtxCall → Outcome ApfsCtx
  unfolding ctx_call
  ctx_calls ctx [] = done ctx
  ctx_calls ctx (call ∷ calls) = ctx_call ctx call >>= λ ctx'. ctx_calls ctx' calls

-- ===== src/Apfs/Opened.antt =====
-- lib/jevmachopp/UBootAPFS.cpp: when the context of the file system is open.
use jevmachopp.Text.{get}
use jevmachopp.Base.{
  Ensures-always, check, ◌>>◌, ◌++◌, ℕ, Bool, ◌*◌, ◌%◌, ◌^◌, Ensures, Ensures-weaken, Ensures-bind,
  Bool-cases, inl, inr, List, [], ◌∷◌, Option, none, some, true, false, ◌≡◌, refl, Outcome, done,
  aborted, Ensures-weaken, ◌*◌,
}
use jevmachopp.Apfs.{Container, is_some}
use jevmachopp.Apfs.Ctx.{
  Devices, DiskPartition, ApfsCtx, CtxCall, opens_named, open_named, open_partition, part_of,
  part_num, probes, closes, uses_container, start_ctx, install, open_common, open_device, close,
  the_container, container, apfs_probe, apfs_close, ctx_call, ctx_calls,
}

module _ (d : Devices) where
  -- An open context has a container.
  abbrev pub IsOpen : ApfsCtx d → Type 0
  IsOpen ctx = ctx.m_opened ≡ true → is_some ctx.m_container ≡ true

  install-IsOpen : (ctx : ApfsCtx d) (o : Option Container) → IsOpen (install d ctx o).1
  install-IsOpen ctx none = λ h. refl
  install-IsOpen ctx (some c) = λ h. refl

  open_device-IsOpen :
      (ctx : ApfsCtx d) (desc : d.Desc) (partition : DiskPartition)
      → IsOpen ctx
      → IsOpen (open_device d ctx desc partition).1
  unfolding open_device open_common
  open_device-IsOpen ctx desc partition safe = elim (Bool-cases (d.opens desc)) [
    | inl opens ↦ rw opens (
        install-IsOpen
          (record ctx {
            m_dev = some desc;
            m_blk_off_blks = partition.start * partition.blksz % 2 ^ 64;
            m_blk_sz_bytes = partition.size * partition.blksz % 2 ^ 64;
          })
          (d.container_on desc (partition.start * partition.blksz % 2 ^ 64)
            (partition.size * partition.blksz % 2 ^ 64)))
    | inr fails ↦ rw fails safe
  ]

  open_partition-IsOpen :
      (ctx : ApfsCtx d) (dev : d.Desc) (o : Option (ℕ × ℕ))
      → Ensures (λ r. IsOpen r.1) (open_partition d ctx dev o)
  unfolding open_common
  open_partition-IsOpen ctx dev none = tt
  open_partition-IsOpen ctx dev (some (start, size)) =
      install-IsOpen
        (record ctx { m_dev = some dev; m_blk_off_blks = start; m_blk_sz_bytes = size })
        (d.container_on dev start size)

  open_named-IsOpen :
      (ctx : ApfsCtx d) (name : List ℕ)
      → IsOpen ctx
      → Ensures (λ r. IsOpen r.1) (open_named d ctx name)
  unfolding open_named
  open_named-IsOpen ctx name safe =
      Ensures-always {A = List ℕ} (λ r. IsOpen r.1) (part_of d (get (d.split name b':') 0)) _
        λ type.
          Ensures-always {A = List ℕ} (λ r. IsOpen r.1) (part_of d (get (d.split name b':') 1)) _
            λ dev_num.
              Ensures-always {A = ℕ} (λ r. IsOpen r.1) (part_num d (get (d.split name b':') 2)) _
                λ n. by_device (d.named (type ++ (b':' ∷ dev_num))) n
    where
      by_device :
          (o : Option d.Desc) (n : ℕ)
          → Ensures
              (λ r. IsOpen r.1)
              (elim o as (λ x. Outcome (Bool × ApfsCtx d)) [
                | none ↦ done (false, ctx)
                | some dev ↦
                    check (d.verifies dev) >> open_partition d ctx dev (d.partition_at dev n)
              ])
      by_device none n = safe
      by_device (some dev) n =
          Ensures-always {A = Unit {0}} (λ r. IsOpen r.1) (check (d.verifies dev)) _
            λ _. open_partition-IsOpen ctx dev (d.partition_at dev n)

  close-IsOpen : (ctx : ApfsCtx d) → Ensures IsOpen (close d ctx)
  unfolding close
  close-IsOpen ctx = elim (Bool-cases (is_some ctx.m_container)) [
    | inl there ↦ rw there (λ h. cc)
    | inr null ↦ rw null tt
  ]

  ctx_call-IsOpen :
      (ctx : ApfsCtx d) (call : CtxCall d) → IsOpen ctx → Ensures IsOpen (ctx_call d ctx call)
  unfolding ctx_call apfs_probe apfs_close container
  ctx_call-IsOpen ctx (opens_named name) safe =
      Ensures-bind (λ r. IsOpen r.1) IsOpen (open_named d ctx name) _
        (open_named-IsOpen ctx name safe) (λ r safe'. safe')
  ctx_call-IsOpen ctx (probes desc partition) safe = open_device-IsOpen ctx desc partition safe
  ctx_call-IsOpen ctx closes safe = elim (Bool-cases ctx.m_opened) [
    | inl opened ↦ rw opened (close-IsOpen ctx)
    | inr shut ↦ rw shut tt
  ]
  ctx_call-IsOpen ctx uses_container safe =
      Ensures-always {A = Option Container} IsOpen (container d ctx) _ (λ c. safe)

  ctx_calls-IsOpen :
      (ctx : ApfsCtx d) (calls : List (CtxCall d))
      → IsOpen ctx
      → Ensures IsOpen (ctx_calls d ctx calls)
  unfolding ctx_calls
  ctx_calls-IsOpen ctx [] safe = safe
  ctx_calls-IsOpen ctx (call ∷ calls) safe =
      Ensures-bind IsOpen IsOpen (ctx_call d ctx call) _ (ctx_call-IsOpen ctx call safe)
        (λ ctx' safe'. ctx_calls-IsOpen ctx' calls safe')

  -- What the calls on a context do.
  pub record Usable (ctx : ApfsCtx d) : Type 0 where
    pub while_open :
        ctx.m_opened ≡ true
        → (c : Option Container) × (ctx' : ApfsCtx d) × (container d ctx ≡ done c)
          × (apfs_close d ctx ≡ done ctx')
          × (ctx'.m_opened ≡ false)
    pub while_shut :
        ctx.m_opened ≡ false → (container d ctx ≡ aborted) × (apfs_close d ctx ≡ aborted)

  the_container-done :
      (m : Option (Option Container))
      → is_some m ≡ true
      → (c : Option Container) × (the_container d m ≡ done c)
  the_container-done none h = cc
  the_container-done (some c) h = (c, refl)

  IsOpen-Usable : (ctx : ApfsCtx d) → IsOpen ctx → Usable ctx
  unfolding container apfs_close close
  IsOpen-Usable ctx safe = record {
    while_open = λ opened.
        let (c, found) = the_container-done ctx.m_container (safe opened) in
        (
          c,
          record ctx { m_dev = none; m_container = none; m_opened = false },
          rw opened found,
          rw opened (rw (safe opened) refl),
          refl,
        );
    while_shut = λ shut. rw shut (refl, refl);
  }

  -- After any calls of U-Boot, and of opening by a name, on a context that begins with the memory
  -- of zeros, if they return: while the context is open, `container` returns and `apfs_close`
  -- returns a context that is not open; while it is not, both fail an `assert`.
  pub ctx_calls-Usable :
      (calls : List (CtxCall d)) → Ensures Usable (ctx_calls d (start_ctx d) calls)
  ctx_calls-Usable calls =
      Ensures-weaken IsOpen Usable (ctx_calls d (start_ctx d) calls)
        (ctx_calls-IsOpen (start_ctx d) calls (λ h. cc)) IsOpen-Usable

-- ===== src/XnuBoot/Copied.antt =====
-- What `load_and_prep_xnu_kernelcache` of lib/jevmachopp/XNUBoot.cpp puts behind the kernel.
use jevmachopp.Base.{
  ℕ, suc, ◌+◌, ◌-◌, ◌%◌, ◌^◌, ◌<◌, List, ◌++◌, length, Option, none, some, Outcome, done, ◌>>=◌,
  ◌≡◌, refl, ap, ◌∙◌, Ensures, Ensures-bind, ◌≤◌, arith,
}
use jevmachopp.Text.{codes}
use jevmachopp.Memory.{load, store}
use jevmachopp.Memory.Reads.{IsAt}
use jevmachopp.DeviceTree.{as_reg, DtRegister}
use jevmachopp.DeviceTree.Node.{property_named}
use jevmachopp.XnuBoot.Prepare.{KernelImage, CopyPlaces, stub_end, make_copies}
use jevmachopp.XnuBoot.StubEnd.{stub_end-found}
use jevmachopp.Memory.{loaded_uint}
use jevmachopp.XnuBoot.Moved.{
  at_result, HasMoved, memcpy-HasMoved, three_stores, Ensures-knowing, Ensures-property,
}

module _ (xnu_jump_stub memory_map : ℕ) (mem : List ℕ) (k : KernelImage) where
  -- Behind the kernel stand the firmware, the boot arguments and the stub, one behind the other: the
  -- bytes that their registers and the stub's end mark, each as it was before its own copy.
  pub record HasCopies (copied : List ℕ) (c : CopyPlaces) : Type 0 where
    pub sepfw : List ℕ
    pub ba : List ℕ
    pub stub : List ℕ
    pub with_sepfw : List ℕ
    pub with_ba : List ℕ
    pub sepfw_place : c.sepfw_copy_base ≡ (k.payload_base + k.vm_size) % 2 ^ 64
    pub ba_place : c.ba_copy_base ≡ c.sepfw_copy_base + length sepfw
    pub stub_place : c.stub_copy_base ≡ c.ba_copy_base + length ba
    pub sepfw_found : property_named mem memory_map (codes "SEPFW") ≡ done (some c.sepfw_reg)
    pub sepfw_from : (as_reg mem c.sepfw_reg >>= λ r. load mem r.base r.size) ≡ done sepfw
    pub sepfw_copied : store mem c.sepfw_copy_base sepfw ≡ done with_sepfw
    pub ba_found : property_named with_sepfw memory_map (codes "BootArgs") ≡ done (some c.ba_reg)
    pub ba_from : (as_reg with_sepfw c.ba_reg >>= λ r. load with_sepfw r.base r.size) ≡ done ba
    pub ba_copied : store with_sepfw c.ba_copy_base ba ≡ done with_ba
    pub stub_from : load with_ba xnu_jump_stub (length stub) ≡ done stub
    pub stub_ends : loaded_uint 4 with_ba (xnu_jump_stub + length stub) ≡ done 0xdeadbeef
    pub in_order : IsAt copied c.sepfw_copy_base (sepfw ++ ba ++ stub)

  abbrev pub IsCopied : List ℕ × Option CopyPlaces → Type 0
  IsCopied (copied, none) = Unit
  IsCopied (copied, some c) = HasCopies copied c

  -- The three copies, one after the other.
  copied_behind :
      (sepfw ba last : ℕ) (with_sepfw with_ba with_stub : List ℕ) (sepfw_reg ba_reg : DtRegister)
      → length mem < 2 ^ 64
      → property_named mem memory_map (codes "SEPFW") ≡ done (some sepfw)
      → as_reg mem sepfw ≡ done sepfw_reg
      → HasMoved mem
          ((k.payload_base + k.vm_size) % 2 ^ 64)
          sepfw_reg.base
          sepfw_reg.size
          with_sepfw
      → property_named with_sepfw memory_map (codes "BootArgs") ≡ done (some ba)
      → as_reg with_sepfw ba ≡ done ba_reg
      → HasMoved with_sepfw
          (((k.payload_base + k.vm_size) % 2 ^ 64 + sepfw_reg.size) % 2 ^ 64)
          ba_reg.base
          ba_reg.size
          with_ba
      → stub_end with_ba (suc (length with_ba)) xnu_jump_stub ≡ done last
      → HasMoved with_ba
          ((((k.payload_base + k.vm_size) % 2 ^ 64 + sepfw_reg.size) % 2 ^ 64 + ba_reg.size)
            % 2 ^ 64)
          xnu_jump_stub
          (last - xnu_jump_stub)
          with_stub
      → HasCopies with_stub (record {
        sepfw_reg = sepfw;
        ba_reg = ba;
        sepfw_copy_base = (k.payload_base + k.vm_size) % 2 ^ 64;
        ba_copy_base = ((k.payload_base + k.vm_size) % 2 ^ 64 + sepfw_reg.size) % 2 ^ 64;
        stub_copy_base =
            (((k.payload_base + k.vm_size) % 2 ^ 64 + sepfw_reg.size) % 2 ^ 64 + ba_reg.size)
            % 2 ^ 64;
      })
  copied_behind sepfw ba last with_sepfw with_ba with_stub sepfw_reg ba_reg fits sepfw_found
        sepfw_as one ba_found ba_as two last_at three =
      let (ba_at, stub_at, behind) =
        three_stores mem ((k.payload_base + k.vm_size) % 2 ^ 64) one.bytes two.bytes three.bytes
          sepfw_reg.size ba_reg.size with_sepfw with_ba with_stub fits one.size_eq two.size_eq
          one.stored two.stored three.stored in
      let end_found : (xnu_jump_stub ≤ last) × (loaded_uint 4 with_ba last ≡ done 0xdeadbeef) =
        at_result (λ q. (xnu_jump_stub ≤ q) × (loaded_uint 4 with_ba q ≡ done 0xdeadbeef))
          (stub_end with_ba (suc (length with_ba)) xnu_jump_stub) last last_at
          (stub_end-found with_ba (suc (length with_ba)) xnu_jump_stub) in
      record {
        sepfw = one.bytes;
        ba = two.bytes;
        stub = three.bytes;
        with_sepfw = with_sepfw;
        with_ba = with_ba;
        sepfw_place = refl;
        ba_place = ba_at;
        stub_place = stub_at;
        sepfw_found = sepfw_found;
        sepfw_from = ap (λ m. m >>= λ r. load mem r.base r.size) sepfw_as ∙ one.from;
        sepfw_copied = one.stored;
        ba_found = ba_found;
        ba_from = ap (λ m. m >>= λ r. load with_sepfw r.base r.size) ba_as ∙ two.from;
        ba_copied = two.stored;
        stub_from = ap (λ n. load with_ba xnu_jump_stub n) three.size_eq ∙ three.from;
        stub_ends =
            ap (λ q. loaded_uint 4 with_ba q) {x = xnu_jump_stub + length three.bytes} {y = last}
              (omega (arith, end_found.0, three.size_eq))
            ∙ end_found.1;
        in_order = behind;
      }

  module _ (split : List ℕ → ℕ → List (List ℕ)) (decimal : ℕ → List ℕ)
      (emplace_back : List ℕ → ℕ → Outcome (List ℕ)) (dt : ℕ) (fits : length mem < 2 ^ 64) where
    -- For a memory shorter than 2^64, if the copies behind the kernel return and nothing was
    -- missing: the firmware, the boot arguments and the stub up to its end mark stand one right
    -- behind the other in the memory that they leave, from the end of the kernel on, modulo 2^64,
    -- each being the bytes that its register, or the stub, has in the memory before its own copy;
    -- and the places recorded are where they begin.
    pub make_copies-IsCopied :
        Ensures IsCopied (make_copies split decimal emplace_back xnu_jump_stub dt memory_map mem k)
    unfolding make_copies
    make_copies-IsCopied =
        Ensures-property IsCopied (property_named mem memory_map (codes "SEPFW")) (mem, none) _ tt
          λ sepfw sepfw_found.
            Ensures-knowing {A = DtRegister} IsCopied (as_reg mem sepfw) _ λ sepfw_reg sepfw_as.
              Ensures-bind (HasMoved mem _ sepfw_reg.base sepfw_reg.size) IsCopied _ _
                (memcpy-HasMoved mem _ sepfw_reg.base sepfw_reg.size)
                λ with_sepfw one.
                  Ensures-property IsCopied
                    (property_named with_sepfw memory_map (codes "BootArgs")) (with_sepfw, none) _
                    tt
                    λ ba ba_found.
                      Ensures-knowing {A = DtRegister} IsCopied (as_reg with_sepfw ba) _
                        λ ba_reg ba_as.
                          Ensures-bind (HasMoved with_sepfw _ ba_reg.base ba_reg.size) IsCopied _ _
                            (memcpy-HasMoved with_sepfw _ ba_reg.base ba_reg.size)
                            λ with_ba two.
                              Ensures-knowing {A = ℕ} IsCopied
                                (stub_end with_ba (suc (length with_ba)) xnu_jump_stub) _
                                λ last last_at.
                                  Ensures-bind
                                    (HasMoved with_ba _ xnu_jump_stub (last - xnu_jump_stub))
                                    IsCopied _ _
                                    (memcpy-HasMoved with_ba _ xnu_jump_stub (last - xnu_jump_stub))
                                    λ with_stub three.
                                      copied_behind sepfw ba last with_sepfw with_ba with_stub
                                        sepfw_reg ba_reg fits sepfw_found sepfw_as one ba_found
                                        ba_as two last_at three

-- ===== src/XnuBoot/Copies.antt =====
-- What `xnu_jump_stub` of lib/jevmachopp/m1n1.cpp copies.
use jevmachopp.Base.{
  ℕ, zero, suc, ◌+◌, ◌-◌, ◌*◌, ◌%◌, ◌^◌, ◌<◌, ◌≤◌, List, [], ◌++◌, length, take, drop, ◌≡◌, ◌≢◌,
  refl, ap, ap₂, sym, ◌∙◌, arith, done, append_assoc, append-nil, length-append, drop-append_length,
  take-append-drop, length-take, length-drop,
}
use jevmachopp.Memory.{load, store}
use jevmachopp.Memory.Reads.{IsAt, load-IsAt, store-append}
use jevmachopp.XnuBoot.{stub_loop, xnu_jump_stub}
use jevmachopp.XnuBoot.Stub.{stub_loop-next, stub_loop-last}

-- Memory with a place to copy to, what lies between, and what is copied.
abbrev pub before_copy : List ℕ → List ℕ → List ℕ → List ℕ → List ℕ → List ℕ
before_copy a old mid img post = a ++ (old ++ (mid ++ (img ++ post)))

module _ (a mid post c o : List ℕ) (len_c : length c ≡ 16) (len_o : length o ≡ 16) where
  chunk-load :
      (old img : List ℕ)
      → load
          (before_copy a (o ++ old) mid (c ++ img) post)
          (length a + length (o ++ old) + length mid)
          16
        ≡ done c
  chunk-load old img =
      ap
        (λ n.
          load (before_copy a (o ++ old) mid (c ++ img) post)
            (length a + length (o ++ old) + length mid) n)
        (sym len_c)
      ∙ load-IsAt _ _ c there
    where
      front : List ℕ
      front = a ++ ((o ++ old) ++ mid)

      count : length a + length (o ++ old) + length mid ≡ length front
      count = omega (arith, length-append a ((o ++ old) ++ mid), length-append (o ++ old) mid)

      shape : before_copy a (o ++ old) mid (c ++ img) post ≡ front ++ (c ++ (img ++ post))
      shape = simp append_assoc

      there :
          IsAt
            (before_copy a (o ++ old) mid (c ++ img) post)
            (length a + length (o ++ old) + length mid)
            c
      there = (
        img ++ post,
        ap₂ (λ n m. drop n m) count shape ∙ drop-append_length front (c ++ (img ++ post)),
      )

  chunk-store :
      (old img : List ℕ)
      → store (before_copy a (o ++ old) mid (c ++ img) post) (length a) c
        ≡ done (before_copy (a ++ c) old (mid ++ c) img post)
  chunk-store old img =
      store-append a ((o ++ old) ++ rest) c
        (omega (arith, length-append (o ++ old) rest, length-append o old))
      ∙ ap (λ m. done m) (ap (λ l. a ++ (c ++ l)) behind ∙ regroup)
    where
      rest : List ℕ
      rest = mid ++ ((c ++ img) ++ post)

      behind : drop (length c) ((o ++ old) ++ rest) ≡ old ++ rest
      behind =
          ap₂ (λ n l. drop n l) (len_c ∙ sym len_o) (append_assoc o old rest)
          ∙ drop-append_length o (old ++ rest)

      regroup : a ++ (c ++ (old ++ rest)) ≡ before_copy (a ++ c) old (mid ++ c) img post
      regroup = simp append_assoc

  -- The first chunk, before the rounds for the rest.
  copies-next :
      (fuel : ℕ) (old img : List ℕ)
      → length img ≢ 0
      → length (c ++ img) < 2 ^ 64
      → stub_loop fuel
          (before_copy (a ++ c) old (mid ++ c) img post)
          (length (a ++ c) + length old + length (mid ++ c))
          (length (a ++ c))
          (length img)
        ≡ done (before_copy (a ++ c) img (mid ++ c) img post)
      → stub_loop
          (suc fuel)
          (before_copy a (o ++ old) mid (c ++ img) post)
          (length a + length (o ++ old) + length mid)
          (length a)
          (length (c ++ img))
        ≡ done (before_copy a (c ++ img) mid (c ++ img) post)
  copies-next fuel old img more small rest =
      stub_loop-next fuel _ _ c _ _ _ (chunk-load old img) (chunk-store old img)
        (λ e. more (omega (arith, len)))
      ∙ (ap₂
            (λ x y.
              stub_loop fuel (before_copy (a ++ c) old (mid ++ c) img post) x y
                ((length (c ++ img) + 2 ^ 64 - 16) % 2 ^ 64))
            from to
          ∙ (ap
                (λ z.
                  stub_loop fuel (before_copy (a ++ c) old (mid ++ c) img post)
                    (length (a ++ c) + length old + length (mid ++ c)) (length (a ++ c)) z)
                left
              ∙ (rest ∙ ap (λ m. done m) (simp append_assoc))))
    where
      len : length (c ++ img) ≡ 16 + length img
      len = omega (arith, length-append c img)

      from :
          length a + length (o ++ old) + length mid + 16
          ≡ length (a ++ c) + length old + length (mid ++ c)
      from = omega (arith, length-append a c, length-append o old, length-append mid c)

      to : length a + 16 ≡ length (a ++ c)
      to = omega (arith, length-append a c)

      left : (length (c ++ img) + 2 ^ 64 - 16) % 2 ^ 64 ≡ length img
      left = omega (arith, len)

  -- The last chunk.
  copies-last :
      (fuel : ℕ)
      → stub_loop
          (suc fuel)
          (before_copy a (o ++ []) mid (c ++ []) post)
          (length a + length (o ++ []) + length mid)
          (length a)
          16
        ≡ done (before_copy a (c ++ []) mid (c ++ []) post)
  copies-last fuel =
      stub_loop-last fuel _ _ c _ _ (chunk-load [] []) (chunk-store [] [])
      ∙ ap (λ m. done m) (simp (append_assoc, append-nil))

-- The rounds over an image of `suc n` times 16 bytes.
stub_loop-copies :
    (n fuel : ℕ) (a old mid img post : List ℕ)
    → n < fuel
    → length img ≡ 16 * suc n
    → length old ≡ length img
    → length img < 2 ^ 64
    → stub_loop fuel
        (before_copy a old mid img post)
        (length a + length old + length mid)
        (length a)
        (length img)
      ≡ done (before_copy a img mid img post)
stub_loop-copies n zero a old mid img post lt len_img len_old small = absurd (omega arith)
stub_loop-copies zero (suc fuel) a old mid img post lt len_img len_old small = rw len_img (
    rw (append-nil old, append-nil img) at
      (copies-last a mid post img old (omega arith) (omega arith) fuel))
stub_loop-copies (suc n) (suc fuel) a old mid img post lt len_img len_old small =
    ap₂
      (λ o' i.
        stub_loop (suc fuel) (before_copy a o' mid i post) (length a + length o' + length mid)
          (length a) (length i))
      (sym (take-append-drop 16 old)) (sym (take-append-drop 16 img))
    ∙ (copies-next a mid post (take 16 img) (take 16 old) (omega (arith, length-take 16 img))
          (omega (arith, length-take 16 old)) fuel (drop 16 old) (drop 16 img)
          (λ e. absurd (omega (arith, length-drop 16 img)))
          (omega (
            arith,
            length-append (take 16 img) (drop 16 img),
            length-take 16 img,
            length-drop 16 img,
          ))
          (stub_loop-copies n fuel (a ++ take 16 img) (drop 16 old) (mid ++ take 16 img)
            (drop 16 img) post (omega arith) (omega (arith, length-drop 16 img))
            (omega (arith, length-drop 16 img, length-drop 16 old))
            (omega (arith, length-drop 16 img)))
        ∙ ap (λ i. done (before_copy a i mid i post)) (take-append-drop 16 img))

-- For an image of a positive number of 16 bytes, below 2^64, and a place of its size before it that
-- the image does not overlap: `xnu_jump_stub` ends, the place has the bytes of the image, no other
-- byte of the memory has changed, and it goes to the entry with the address of the boot arguments.
pub xnu_jump_stub-copies :
    (n : ℕ) (a old mid img post : List ℕ) (new_bootargs_addr image_entry : ℕ)
    → length img ≡ 16 * suc n
    → length old ≡ length img
    → length img < 2 ^ 64
    → xnu_jump_stub
        (before_copy a old mid img post)
        new_bootargs_addr
        (length a + length old + length mid)
        (length a)
        (length img)
        image_entry
      ≡ done (record {
        memory = before_copy a img mid img post;
        target = image_entry;
        x0 = new_bootargs_addr;
      })
unfolding xnu_jump_stub
xnu_jump_stub-copies n a old mid img post args entry len_img len_old small =
    rw
      (stub_loop-copies n (suc (length (before_copy a old mid img post))) a old mid img post
        (omega (arith, total)) len_img len_old small)
      refl
  where
    total : length img ≤ length (before_copy a old mid img post)
    total = omega (
      arith,
      length-append a (old ++ (mid ++ (img ++ post))),
      length-append old (mid ++ (img ++ post)),
      length-append mid (img ++ post),
      length-append img post,
    )

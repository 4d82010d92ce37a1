-- ===== src/DeviceTree/Image/Patching.antt =====
-- The patching of a property of a device tree in memory: what `processPatch` writes.
use jevmachopp.Base.{
  ℕ, ◌+◌, ◌-◌, ◌/◌, ◌^◌, ◌<◌, ◌≤◌, List, [], ◌++◌, length, drop, replicate, ◌≡◌, true, ap, subst,
  sym, ◌∙◌, arith, some, Outcome, done, ◌>>=◌, length-append, append_assoc, drop-append_length, ap₂,
}
use jevmachopp.Hex.{sv2int, little_endian}
use jevmachopp.DeviceTree.{size_raw, as_u32, as_u64, data_at}
use jevmachopp.Memory.{load, store, bytes_le, loaded_uint}
use jevmachopp.DeviceTree.Patch.{patch_property, write_parsed}
use jevmachopp.DeviceTree.Image.{
  Prop, IsReadable, prop_header, prop_image, padding, padded_size, name_buf, tag_of,
}
use jevmachopp.Memory.Reads.{store-append, IsAt, load-IsAt, length-bytes_le, drop-add}
use jevmachopp.DeviceTree.Image.Props.{size_raw-IsAt, data-IsAt, length-prop_header}

parts :
    (pre post : List ℕ) (y : Prop)
    → pre ++ (prop_image y ++ post)
      ≡ (pre ++ prop_header y) ++ (y.data_bytes ++ (padding y ++ post))
parts pre post y =
    ap (λ l. pre ++ l)
      (append_assoc (prop_header y) (y.data_bytes ++ padding y) post
        ∙ ap (λ l. prop_header y ++ l) (append_assoc y.data_bytes (padding y) post))
    ∙ sym (append_assoc pre (prop_header y) (y.data_bytes ++ (padding y ++ post)))

-- Eight bytes of a number of 32 bits.
bytes_le-wide : (v : ℕ) → v < 2 ^ 32 → bytes_le 8 v ≡ bytes_le 4 v ++ replicate 4 0
unfolding bytes_le
bytes_le-wide v h = ap (λ k. bytes_le 4 v ++ bytes_le 4 k) (nothing_left v h)
  where
    nothing_left : (v : ℕ) → v < 2 ^ 32 → v / 2 ^ 8 / 2 ^ 8 / 2 ^ 8 / 2 ^ 8 ≡ 0
    nothing_left v h = omega arith

-- A property in memory, with what stands in front of it and behind it.
abbrev pub memory : List ℕ → List ℕ → Prop → List ℕ
memory pre post y = pre ++ (prop_image y ++ post)

module _ (pre post : List ℕ) (x : Prop) (ok : IsReadable x) where
  -- The part in front of the data.
  abbrev front : List ℕ
  front = pre ++ prop_header x

  there : IsAt (memory pre post x) (length pre) (prop_image x)
  there = (post, drop-append_length pre (prop_image x ++ post))

  length-front : length front ≡ data_at (length pre)
  length-front = omega (arith, length-append pre (prop_header x), length-prop_header x ok)

  patched :
      (new : List ℕ)
      → length new ≤ length (x.data_bytes ++ (padding x ++ post))
      → store (memory pre post x) (data_at (length pre)) new
        ≡ done (front ++ (new ++ drop (length new) (x.data_bytes ++ (padding x ++ post))))
  patched new h =
      ap (λ m. store m (data_at (length pre)) new) (parts pre post x)
      ∙ (ap (λ k. store (front ++ (x.data_bytes ++ (padding x ++ post))) k new) (sym length-front)
          ∙ store-append front (x.data_bytes ++ (padding x ++ post)) new h)

  data_loaded :
      (n : ℕ)
      → length x.data_bytes ≡ n
      → loaded_uint n (memory pre post x) (data_at (length pre)) ≡ done (little_endian x.data_bytes)
  data_loaded n len =
      ap (λ r. r >>= λ bytes. done (little_endian bytes))
        (ap (λ k. load (memory pre post x) (data_at (length pre)) k) (sym len)
          ∙ load-IsAt (memory pre post x) (data_at (length pre)) x.data_bytes
              (data-IsAt (memory pre post x) (length pre) x ok there))

  raw_size : (n : ℕ) → length x.data_bytes ≡ n → size_raw (memory pre post x) (length pre) ≡ done n
  raw_size n len = size_raw-IsAt (memory pre post x) (length pre) x ok there ∙ ap (λ k. done k) len

  as_u64-done :
      length x.data_bytes ≡ 8
      → as_u64 (memory pre post x) (length pre) ≡ done (little_endian x.data_bytes)
  unfolding as_u64
  as_u64-done len = rw (raw_size 8 len) (data_loaded 8 len)

  as_u32-done :
      length x.data_bytes ≡ 4
      → as_u32 (memory pre post x) (length pre) ≡ done (little_endian x.data_bytes)
  unfolding as_u32
  as_u32-done len = rw (raw_size 4 len) (data_loaded 4 len)

  -- A value that is written.
  written :
      (v before : ℕ) (old : Outcome ℕ) (mem' : List ℕ)
      → old ≡ done before
      → store (memory pre post x) (data_at (length pre)) (bytes_le 8 v) ≡ done mem'
      → write_parsed (memory pre post x) (length pre) old (some (some v)) ≡ done (true, mem')
  written v before old mem' h e = rw (h, e)

  -- Other data of the same length.
  abbrev with_data : List ℕ → Prop
  with_data d = record x { data_bytes = d }

  same_header :
      (d : List ℕ) → length d ≡ length x.data_bytes → prop_header x ≡ prop_header (with_data d)
  same_header d h = ap (λ k. name_buf x.name ++ bytes_le 4 (k + tag_of x.replacement)) (sym h)

  same_padding : (d : List ℕ) → length d ≡ length x.data_bytes → padding x ≡ padding (with_data d)
  same_padding d h = ap (λ k. replicate (padded_size k - k) 0) (sym h)

  replaced :
      (d rest : List ℕ)
      → length d ≡ length x.data_bytes
      → front ++ (d ++ (padding x ++ rest)) ≡ pre ++ (prop_image (with_data d) ++ rest)
  replaced d rest h =
      ap₂ (λ l m. (pre ++ l) ++ (d ++ (m ++ rest))) (same_header d h) (same_padding d h)
      ∙ sym (parts pre rest (with_data d))

  rest_of_8 :
      length x.data_bytes ≡ 8 → drop 8 (x.data_bytes ++ (padding x ++ post)) ≡ padding x ++ post
  rest_of_8 len =
      ap (λ k. drop k (x.data_bytes ++ (padding x ++ post))) (sym len)
      ∙ drop-append_length x.data_bytes (padding x ++ post)

  no_padding : length x.data_bytes ≡ 4 → padding x ≡ []
  no_padding len = ap (λ k. replicate (padded_size k - k) 0) len

  rest_of_4 : length x.data_bytes ≡ 4 → drop 8 (x.data_bytes ++ (padding x ++ post)) ≡ drop 4 post
  rest_of_4 len =
      ap (λ l. drop 8 (x.data_bytes ++ (l ++ post))) (no_padding len)
      ∙ (drop-add 4 4 (x.data_bytes ++ post)
          ∙ ap (λ l. drop 4 l)
              (ap (λ k. drop k (x.data_bytes ++ post)) (sym len)
                ∙ drop-append_length x.data_bytes post))

  stored :
      (v : ℕ)
      → 8 ≤ length (x.data_bytes ++ (padding x ++ post))
      → store (memory pre post x) (data_at (length pre)) (bytes_le 8 v)
        ≡ done (front ++ (bytes_le 8 v ++ drop 8 (x.data_bytes ++ (padding x ++ post))))
  stored v room =
      subst
        (λ k.
          store (memory pre post x) (data_at (length pre)) (bytes_le 8 v)
          ≡ done (front ++ (bytes_le 8 v ++ drop k (x.data_bytes ++ (padding x ++ post)))))
        (length-bytes_le 8 v) (patched (bytes_le 8 v) (omega (arith, room, length-bytes_le 8 v)))

  store-u64 :
      (v : ℕ)
      → length x.data_bytes ≡ 8
      → store (memory pre post x) (data_at (length pre)) (bytes_le 8 v)
        ≡ done (memory pre post (with_data (bytes_le 8 v)))
  store-u64 v len =
      stored v (omega (arith, len, length-append x.data_bytes (padding x ++ post)))
      ∙ (ap (λ l. done (front ++ (bytes_le 8 v ++ l))) (rest_of_8 len)
          ∙ ap (λ m. done m)
              (replaced (bytes_le 8 v) post (omega (arith, len, length-bytes_le 8 v))))

  -- The four bytes of the value, and four more.
  split_value :
      (v : ℕ)
      → length x.data_bytes ≡ 4
      → v < 2 ^ 32
      → bytes_le 8 v ++ drop 4 post ≡ bytes_le 4 v ++ (padding x ++ (replicate 4 0 ++ drop 4 post))
  split_value v len small =
      ap (λ l. l ++ drop 4 post) (bytes_le-wide v small)
      ∙ (append_assoc (bytes_le 4 v) (replicate 4 0) (drop 4 post)
          ∙ ap (λ l. bytes_le 4 v ++ (l ++ (replicate 4 0 ++ drop 4 post))) (sym (no_padding len)))

  store-u32 :
      (v : ℕ)
      → length x.data_bytes ≡ 4
      → v < 2 ^ 32
      → 4 ≤ length post
      → store (memory pre post x) (data_at (length pre)) (bytes_le 8 v)
        ≡ done (pre ++ (prop_image (with_data (bytes_le 4 v)) ++ (replicate 4 0 ++ drop 4 post)))
  store-u32 v len small room =
      stored v (
        omega (
          arith,
          len,
          room,
          length-append x.data_bytes (padding x ++ post),
          length-append (padding x) post,
        ))
      ∙ (ap (λ l. done (front ++ (bytes_le 8 v ++ l))) (rest_of_4 len)
          ∙ (ap (λ m. done (front ++ m)) (split_value v len small)
              ∙ ap (λ m. done m)
                  (replaced (bytes_le 4 v) (replicate 4 0 ++ drop 4 post)
                    (omega (arith, len, length-bytes_le 4 v)))))

  -- A property of 8 bytes of data, readable and in memory, is patched with a number that `sv2int`
  -- reads: `processPatch` returns true, the data is the number in little-endian order, and no other
  -- byte of the memory has changed.
  pub patch_property-u64 :
      (str : List ℕ) (v : ℕ)
      → length x.data_bytes ≡ 8
      → sv2int 8 str ≡ some (some v)
      → patch_property (memory pre post x) (length pre) str
        ≡ done (true, memory pre post (record x { data_bytes = bytes_le 8 v }))
  unfolding patch_property
  patch_property-u64 str v len parsed =
      rw (raw_size 8 len, parsed)
        (written v (little_endian x.data_bytes) _ _ (as_u64-done len) (store-u64 v len))

  -- A property of 4 bytes of data, readable and in memory with 4 or more bytes behind it, is
  -- patched with a number below 2^32 that `sv2int` reads: `processPatch` returns true, the data is
  -- the number in little-endian order, and the 4 bytes behind the property are zero.
  pub patch_property-u32 :
      (str : List ℕ) (v : ℕ)
      → length x.data_bytes ≡ 4
      → sv2int 4 str ≡ some (some v)
      → v < 2 ^ 32
      → 4 ≤ length post
      → patch_property (memory pre post x) (length pre) str
        ≡ done (
          true,
          pre
              ++ (prop_image (record x { data_bytes = bytes_le 4 v })
                  ++ (replicate 4 0 ++ drop 4 post)),
        )
  unfolding patch_property
  patch_property-u32 str v len parsed small room =
      rw (raw_size 4 len, parsed)
        (written v (little_endian x.data_bytes) _ _ (as_u32-done len) (store-u32 v len small room))

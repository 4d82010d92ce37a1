-- ===== src/DeviceTree/Image/Props.antt =====
-- The properties of a device tree in memory: what `DTProp` reads of them.
use jevmachopp.Base.{
  ℕ, zero, suc, ◌+◌, ◌-◌, ◌%◌, ◌^◌, ◌<◌, ◌≤◌, List, ◌++◌, length, replicate, ◌≡◌, ◌≢◌, refl, Bool,
  true, false, ap, sym, subst, ◌∙◌, arith, All, some, done, bit_and, bit_and_mask, bit_and_high,
  length-append, length-replicate, not, ◌==◌,
}
use jevmachopp.Text.{before_nul}
use jevmachopp.DeviceTree.{
  asserted, sz, prop_name, size_raw, size_padded, next_prop, is_replacement, data_at,
}
use jevmachopp.Memory.{load, bytes_le}
use jevmachopp.DeviceTree.Image.{
  Prop, IsReadable, name_buf, prop_header, prop_image, padding, padded_size, tag_of,
}
use jevmachopp.Memory.Reads.{
  IsAt, IsAt-left, IsAt-right, load-IsAt, loaded_uint-IsAt, length-bytes_le, before_nul-append,
}

before_nul-replicate :
    (s : List ℕ) (k : ℕ) → 0 < k → All (λ c. c ≢ 0) s → before_nul (s ++ replicate k 0) ≡ some s
before_nul-replicate s zero h ok = absurd (omega arith)
before_nul-replicate s (suc k) h ok = before_nul-append s (replicate k 0) ok

length-name_buf : (s : List ℕ) → length s < 32 → length (name_buf s) ≡ 32
length-name_buf s h = omega (
  arith,
  length-append s (replicate (32 - length s) 0),
  length-replicate {A = ℕ} (32 - length s) 0,
)

tag_of-bound : (b : Bool) → tag_of b ≤ 2 ^ 31
tag_of-bound true = omega arith
tag_of-bound false = omega arith

tag_of-mod : (n : ℕ) (b : Bool) → n < 2 ^ 31 → (n + tag_of b) % 2 ^ 31 ≡ n
tag_of-mod n true h = omega arith
tag_of-mod n false h = omega arith

size_bits : (n : ℕ) (b : Bool) → n < 2 ^ 31 → bit_and (n + tag_of b) 2147483647 ≡ n
size_bits n b h = bit_and_mask 31 (n + tag_of b) ∙ tag_of-mod n b h

tag_bit : (n : ℕ) (b : Bool) → n < 2 ^ 31 → bit_and (n + tag_of b) 2147483648 ≡ tag_of b
tag_bit n b h =
    bit_and_high 31 32 (n + tag_of b) (omega arith) (omega (arith, tag_of-bound b))
    ∙ omega (arith, tag_of-mod n b h)

tag_of-zero : (b : Bool) → not (tag_of b == 0) ≡ b
tag_of-zero true = refl
tag_of-zero false = refl

padded_bits : (n : ℕ) → n + 3 < 2 ^ 31 → bit_and ((n + 3) % 4294967296) 4294967292 ≡ padded_size n
padded_bits n h = bit_and_high 2 32 ((n + 3) % 4294967296) (omega arith) (omega arith) ∙ omega arith

pub length-prop_header : (x : Prop) → IsReadable x → length (prop_header x) ≡ 36
length-prop_header x ok = omega (
  arith,
  length-append (name_buf x.name) (bytes_le 4 (length x.data_bytes + tag_of x.replacement)),
  length-name_buf x.name ok.short,
  length-bytes_le 4 (length x.data_bytes + tag_of x.replacement),
)

pub length-prop_image :
    (x : Prop) → IsReadable x → length (prop_image x) ≡ 36 + padded_size (length x.data_bytes)
length-prop_image x ok = omega (
  arith,
  length-append (prop_header x) (x.data_bytes ++ padding x),
  length-append x.data_bytes (padding x),
  length-replicate {A = ℕ} (padded_size (length x.data_bytes) - length x.data_bytes) 0,
  length-prop_header x ok,
)

module _ (mem : List ℕ) (p : ℕ) (x : Prop) (ok : IsReadable x)
    (at : IsAt mem p (prop_image x)) where
  header-IsAt : IsAt mem p (prop_header x)
  header-IsAt = IsAt-left mem p (prop_header x) (x.data_bytes ++ padding x) at

  name_loaded : load mem p 32 ≡ done (name_buf x.name)
  name_loaded =
      ap (λ k. load mem p k) (sym (length-name_buf x.name ok.short))
      ∙ load-IsAt mem p (name_buf x.name) (
          IsAt-left mem p (name_buf x.name)
            (bytes_le 4 (length x.data_bytes + tag_of x.replacement)) header-IsAt)

  terminator : before_nul (name_buf x.name) ≡ some x.name
  terminator = before_nul-replicate x.name (32 - length x.name) (omega (arith, ok.short)) ok.no_nul

  pub prop_name-IsAt : prop_name mem p ≡ done x.name
  unfolding prop_name
  prop_name-IsAt = rw name_loaded (ap asserted terminator)

  sz-IsAt : sz mem p ≡ done (length x.data_bytes + tag_of x.replacement)
  sz-IsAt =
      loaded_uint-IsAt mem (p + 32) 4 (length x.data_bytes + tag_of x.replacement)
        (omega (arith, tag_of-bound x.replacement, ok.small))
        (subst (λ k. IsAt mem (p + k) (bytes_le 4 (length x.data_bytes + tag_of x.replacement)))
          (length-name_buf x.name ok.short)
          (IsAt-right mem p (name_buf x.name)
            (bytes_le 4 (length x.data_bytes + tag_of x.replacement)) header-IsAt))

  pub size_raw-IsAt : size_raw mem p ≡ done (length x.data_bytes)
  unfolding size_raw
  size_raw-IsAt =
      rw sz-IsAt
        (ap (λ n. done n) (size_bits (length x.data_bytes) x.replacement (omega (arith, ok.small))))

  pub size_padded-IsAt : size_padded mem p ≡ done (padded_size (length x.data_bytes))
  unfolding size_padded
  size_padded-IsAt =
      rw size_raw-IsAt (ap (λ n. done n) (padded_bits (length x.data_bytes) ok.small))

  pub is_replacement-IsAt : is_replacement mem p ≡ done x.replacement
  unfolding is_replacement
  is_replacement-IsAt = rw sz-IsAt (
      ap (λ n. done (not (n == 0)))
        (tag_bit (length x.data_bytes) x.replacement (omega (arith, ok.small)))
      ∙ ap (λ b. done b) (tag_of-zero x.replacement))

  pub next_prop-IsAt : next_prop mem p ≡ done (p + length (prop_image x))
  unfolding next_prop
  next_prop-IsAt = rw size_padded-IsAt (ap (λ n. done n) (omega (arith, length-prop_image x ok)))

  pub data-IsAt : IsAt mem (data_at p) x.data_bytes
  data-IsAt = IsAt-left mem (p + 36) x.data_bytes (padding x) (
      subst (λ k. IsAt mem (p + k) (x.data_bytes ++ padding x)) (length-prop_header x ok)
        (IsAt-right mem p (prop_header x) (x.data_bytes ++ padding x) at))

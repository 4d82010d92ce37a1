-- ===== src/Nvram/Tests.antt =====
-- Variables and escape codings on small inputs.
use jevmachopp.Base.{
  Ensures, ℕ, ◌+◌, ◌≡◌, refl, arith, List, [], ◌∷◌, ◌++◌, length, replicate, some, done, ◌≢◌, Bool,
  true, ◌↔◌,
}
use jevmachopp.Base.{false, some, sym, append-nil, All}
use jevmachopp.Text.{text_eq, find_if_or_nullptr}
use jevmachopp.Memory.Reads.{IsAt}
use jevmachopp.CStr.Packed.{IsCString, strings_image}
use jevmachopp.Text.Laws.{IsAmong}
use jevmachopp.CStr.Delimited.{Parts}
use jevmachopp.Nvram.Partition.{ProxyData, boot_args_name, common_has_boot_arg}
use jevmachopp.Nvram.BootArgs.{has_name, common_has_boot_arg-Parts}
use jevmachopp.Nvram.{
  split_at_eq, var_name, var_value, decoded_data_len, escape_data_to_data, unescape_bytes_to_data,
}
use jevmachopp.Nvram.Coding.{Escapes, decoded_data_len-Escapes}
use jevmachopp.Nvram.Unescape.{unescape_bytes_to_data-Ensures}
use jevmachopp.Nvram.Escape.{escape_data_to_data-Escapes}

-- `sd` and `1=2`
abbrev name : List ℕ
name = b's' ∷ b'd' ∷ []

abbrev value : List ℕ
value = b'1' ∷ b'=' ∷ b'2' ∷ []

abbrev data_bytes : List ℕ
data_bytes = 1 ∷ 0 ∷ 0 ∷ 0 ∷ []

abbrev coding : List ℕ
coding = 1 ∷ 0xff ∷ 3 ∷ []

coding-Escapes : Escapes coding data_bytes
coding-Escapes =
    Escapes.plain 1 (omega arith) (omega arith)
      (Escapes.zeros 3 (omega arith) (omega arith) Escapes.nil)

decoded_data_len-Escapes_example :
    decoded_data_len (coding ++ (0 ∷ [])) ≡ done (length data_bytes + 1)
decoded_data_len-Escapes_example = decoded_data_len-Escapes coding-Escapes (omega arith)

escape_data_to_data-Escapes_example :
    (code : List ℕ) × (left : List ℕ) × (escape_data_to_data data_bytes (replicate 10 7)
      ≡ done (length code + 1, code ++ (0 ∷ left)))
    × Escapes code data_bytes
    × (length code + 1 + length left ≡ length {A = ℕ} (replicate 10 7))
escape_data_to_data-Escapes_example =
    escape_data_to_data-Escapes data_bytes (replicate 10 7) (omega arith) (omega arith)

escaped_run :
    escape_data_to_data data_bytes (replicate 6 7) ≡ done (4, 1 ∷ 0xff ∷ 3 ∷ 0 ∷ 7 ∷ 7 ∷ [])
unfolding escape_data_to_data
escaped_run = refl

-- The code of a run is counted as three bytes, and then read past its end.
abbrev short_code : List ℕ
short_code = 0xff ∷ 3 ∷ []

counted : decoded_data_len short_code ≡ done 3
unfolding decoded_data_len
counted = refl

unescape_bytes_to_data-Ensures_example :
    (◌≡◌ {A = ℕ} 3 0
      → unescape_bytes_to_data short_code (replicate 10 7) ≡ done (0, replicate {A = ℕ} 10 7))
    × (◌≢◌ {A = ℕ} 3 0 → Ensures (λ r. ⊥) (unescape_bytes_to_data short_code (replicate 10 7)))
unescape_bytes_to_data-Ensures_example =
    unescape_bytes_to_data-Ensures short_code (replicate 10 7) 3 (omega arith) (omega arith) counted

-- A partition with `boot-args=-v x`, and one without.
abbrev vars_image : List ℕ
vars_image = strings_image ((boot_args_name ++ (b'=' ∷ b'-' ∷ b'v' ∷ b' ' ∷ b'x' ∷ [])) ∷ [])

abbrev partition : List ℕ
partition = replicate 16 0 ++ vars_image

abbrev proxy : ProxyData
proxy = record { nvram_hdr = 0; common_part = 0; system_part = 0 }

vars-IsCString : All IsCString ((boot_args_name ++ (b'=' ∷ b'-' ∷ b'v' ∷ b' ' ∷ b'x' ∷ [])) ∷ [])
vars-IsCString = (
  (
    λ h. cc,
    (
      (λ h. absurd (omega arith)),
      (
        (λ h. absurd (omega arith)),
        (
          (λ h. absurd (omega arith)),
          (
            (λ h. absurd (omega arith)),
            (
              (λ h. absurd (omega arith)),
              (
                (λ h. absurd (omega arith)),
                (
                  (λ h. absurd (omega arith)),
                  (
                    (λ h. absurd (omega arith)),
                    (
                      (λ h. absurd (omega arith)),
                      (
                        (λ h. absurd (omega arith)),
                        (
                          (λ h. absurd (omega arith)),
                          (
                            (λ h. absurd (omega arith)),
                            ((λ h. absurd (omega arith)), ((λ h. absurd (omega arith)), tt)),
                          ),
                        ),
                      ),
                    ),
                  ),
                ),
              ),
            ),
          ),
        ),
      ),
    ),
  ),
  tt,
)

vars-IsAt : IsAt partition 16 vars_image
vars-IsAt = ([], sym (append-nil vars_image))

found_args :
    var_value (
      find_if_or_nullptr
        (has_name boot_args_name)
        ((boot_args_name ++ (b'=' ∷ b'-' ∷ b'v' ∷ b' ' ∷ b'x' ∷ [])) ∷ []))
    ≡ some (b'-' ∷ b'v' ∷ b' ' ∷ b'x' ∷ [])
unfolding var_value find_if_or_nullptr var_name text_eq split_at_eq
found_args = refl

common_has_boot_arg-Parts_example :
    (p : Parts b' ' (b'-' ∷ b'v' ∷ b' ' ∷ b'x' ∷ [])) × (found : Bool) × (common_has_boot_arg
        partition proxy
        (b'-' ∷ b'v' ∷ [])
      ≡ done found)
    × ((found ≡ true) ↔ IsAmong (b'-' ∷ b'v' ∷ []) (p.first ∷ p.others))
common_has_boot_arg-Parts_example =
    common_has_boot_arg-Parts partition proxy
      (boot_args_name ++ (b'=' ∷ b'-' ∷ b'v' ∷ b' ' ∷ b'x' ∷ [])) [] (b'-' ∷ b'v' ∷ [])
      (b'-' ∷ b'v' ∷ b' ' ∷ b'x' ∷ []) vars-IsCString vars-IsAt found_args

abbrev plain_var : List ℕ
plain_var = name ++ (b'=' ∷ value)

abbrev plain_partition : List ℕ
plain_partition = replicate 16 0 ++ strings_image (plain_var ∷ [])

not_boot_args : has_name boot_args_name plain_var ≡ false
unfolding var_name text_eq split_at_eq
not_boot_args = refl

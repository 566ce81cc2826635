-- ===== src/Wire/Checks.antt =====
-- client/src/wire.ts: the checks that decode and encode share, and the UTF-8 codec of the browser.
use http.Common.{
  ℕ, ◌+◌, ◌≡◌, Bool, true, false, not, ◌&&◌, Option, some, List, [], ◌∷◌, ltb, leb, ◌==◌,
  if◌then◌else◌, length, any, str_eq,
}
use http.Wire.Types.{
  Str, Result, ok, err, u32_max, u64_max, max_meta_value, meta_names, data_bounds, empty_range,
  not_u64, not_u32, not_u8, many_fields, unknown_name, repeated_name, bad_value,
}

-- TextEncoder and `new TextDecoder("utf-8", { fatal: true })`, which are the browser's. By default
-- a TextDecoder drops one leading byte order mark (U+FEFF).
pub record Utf8 : Type 0 where
  pub encode_text : Str → List ℕ
  pub decode_text : List ℕ → Option Str
  pub is_well_formed : Str → Bool

abbrev pub byte_order_mark : ℕ
byte_order_mark = 0xfeff

abbrev pub starts_with_bom : Str → Bool
starts_with_bom [] = false
starts_with_bom (c ∷ s) = c == byte_order_mark

-- What the encoding standard says of the two.
pub record Utf8Laws (u : Utf8) : Type 0 where
  pub decode-encode :
      (s : Str)
      → u.is_well_formed s ≡ true
      → starts_with_bom s ≡ false
      → u.decode_text (u.encode_text s) ≡ some s
  pub decode-encode_bom :
      (s : Str)
      → u.is_well_formed (byte_order_mark ∷ s) ≡ true
      → u.decode_text (u.encode_text (byte_order_mark ∷ s)) ≡ some s

abbrev pub check : Bool → Result (Unit {0}) → Result (Unit {0})
check true r = r
check false r = ok tt

unfoldable pub check_data_bounds : ℕ → List ℕ → ℕ → Result (Unit {0})
check_data_bounds offset payload total_size =
    check (ltb total_size (offset + length payload)) (err data_bounds)

unfoldable pub check_resend_range : ℕ → ℕ → Result (Unit {0})
check_resend_range start stop = check (leb stop start) (err empty_range)

unfoldable pub check_u64 : ℕ → Result (Unit {0})
check_u64 n = check (ltb u64_max n) (err not_u64)

unfoldable pub check_u32 : ℕ → Result (Unit {0})
check_u32 n = check (ltb u32_max n) (err not_u32)

unfoldable pub check_u8 : ℕ → Result (Unit {0})
check_u8 n = check (ltb 0xff n) (err not_u8)

-- The classes [\x21-\x7e] and [\x20-\x7e].
abbrev pub graphic : ℕ → Bool
graphic c = leb 0x21 c && leb c 0x7e

abbrev pub printable : ℕ → Bool
printable c = leb 0x20 c && leb c 0x7e

-- `[\x20-\x7e]*[\x21-\x7e]`, not empty.
unfoldable pub ends_graphic : ℕ → Str → Bool
ends_graphic c [] = graphic c
ends_graphic c (d ∷ s) = printable c && ends_graphic d s

-- `/^[\x21-\x7e](?:[\x20-\x7e]*[\x21-\x7e])?$/`.
unfoldable pub matches_value : Str → Bool
unfolding ends_graphic
matches_value [] = false
matches_value (c ∷ []) = graphic c
matches_value (c ∷ d ∷ s) = graphic c && ends_graphic d s

unfoldable pub valid_meta_value : Str → Bool
valid_meta_value v = ltb 0 (length v) && leb (length v) max_meta_value && matches_value v

-- The loop of checkMeta over the fields not yet seen.
unfoldable pub check_fields : List Str → List (Str × Str) → Result (Unit {0})
check_fields seen [] = ok tt
check_fields seen ((name, value) ∷ rest) =
    let more = check_fields (name ∷ seen) rest in
    if not (any (str_eq name) meta_names)
    then err unknown_name
    else (if any (str_eq name) seen
        then err repeated_name
        else (if valid_meta_value value then more else err bad_value))

unfoldable pub check_meta : List (Str × Str) → Result (Unit {0})
check_meta fields =
    if ltb (length meta_names) (length fields) then err many_fields else check_fields [] fields

-- ===== src/Wire/RoundTrip/Fields.antt =====
-- decode after encode, for META: the fields are written from the front and read back one by one.
use http.Common.{
  ℕ, ◌+◌, ◌<◌, ◌≡◌, refl, ap, ◌∙◌, List, [], ◌∷◌, ◌++◌, arith, length, replicate, length-append,
  append_assoc, All,
}
use http.Wire.Types.{Str}
use http.Wire.Bytes.{bytes_u8, bytes_u16, write}
use http.Wire.Bytes.Writing.{write_next}
use http.Wire.Encode.{fields_len, ascii, write_fields}

-- A field whose lengths and code units fit what is written of them.
pub record Fits (f : Str × Str) : Type 0 where
  pub name_len : length f.0 < 256
  pub value_len : length f.1 < 65536
  pub name_ascii : ascii f.0 ≡ f.0
  pub value_ascii : ascii f.1 ≡ f.1

abbrev pub field_bytes : Str × Str → List ℕ
field_bytes (name, value) = bytes_u8 (length name) ++ (name ++ (bytes_u16 (length value) ++ value))

abbrev pub fields_bytes : List (Str × Str) → List ℕ
fields_bytes [] = []
fields_bytes (f ∷ fields) = field_bytes f ++ fields_bytes fields

pub length-field_bytes :
    (name value : Str) → length (field_bytes (name, value)) ≡ 3 + length name + length value
length-field_bytes name value =
    omega (arith, length-append name (bytes_u16 (length value) ++ value))

-- One field written behind `w`.
write_field :
    (w : List ℕ) (name value : Str) (at n rest : ℕ)
    → Fits (name, value)
    → at ≡ length w
    → n ≡ 3 + length name + length value + rest
    → write
        (write
          (write (write (w ++ replicate n 0) at (bytes_u8 (length name))) (at + 1) (ascii name))
          (at + 1 + length name)
          (bytes_u16 (length value)))
        (at + 3 + length name)
        (ascii value)
      ≡ (w ++ field_bytes (name, value)) ++ replicate rest 0
write_field w name value at n rest fits ha hn =
    rw (fits.name_ascii, fits.value_ascii)
      (ap (λ b. write (write (write b (at + 1) name) (at + 1 + k) mark) (at + 3 + k) value)
          (write_next w size at n (2 + k + l + rest) ha (omega arith))
        ∙ ap (λ b. write (write b (at + 1 + k) mark) (at + 3 + k) value)
            (write_next (w ++ size) name (at + 1) (2 + k + l + rest) (2 + l + rest)
              (omega (arith, length-append w size)) (omega arith))
        ∙ ap (λ b. write b (at + 3 + k) value)
            (write_next ((w ++ size) ++ name) mark (at + 1 + k) (2 + l + rest) (l + rest)
              (omega (arith, length-append w size, length-append (w ++ size) name)) (omega arith))
        ∙ write_next (((w ++ size) ++ name) ++ mark) value (at + 3 + k) (l + rest) rest
            (omega (
              arith,
              length-append w size,
              length-append (w ++ size) name,
              length-append ((w ++ size) ++ name) mark,
            ))
            refl
        ∙ ap (λ b. b ++ replicate rest 0) shape)
  where
    k : ℕ
    k = length name

    l : ℕ
    l = length value

    size : List ℕ
    size = bytes_u8 (length name)

    mark : List ℕ
    mark = bytes_u16 (length value)

    shape : (((w ++ size) ++ name) ++ mark) ++ value ≡ w ++ field_bytes (name, value)
    shape =
        append_assoc ((w ++ size) ++ name) mark value
        ∙ append_assoc (w ++ size) name (mark ++ value)
        ∙ append_assoc w size (name ++ (mark ++ value))

pub write_fields_lem :
    (fields : List (Str × Str)) (w : List ℕ) (at : ℕ)
    → All Fits fields
    → at ≡ length w
    → write_fields (w ++ replicate (fields_len fields) 0) at fields ≡ w ++ fields_bytes fields
unfolding write_fields fields_len
write_fields_lem [] w at fits ha = refl
write_fields_lem ((name, value) ∷ fields) w at fits ha =
    ap (λ b. write_fields b (at + (3 + length name + length value)) fields)
      (write_field w name value at _ (fields_len fields) fits.0 ha refl)
    ∙ write_fields_lem fields (w ++ field_bytes (name, value)) _ fits.1
        (omega (arith, length-append w (field_bytes (name, value)), length-field_bytes name value))
    ∙ append_assoc w (field_bytes (name, value)) (fields_bytes fields)

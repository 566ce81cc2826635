-- ===== src/Wire/RoundTrip/FieldLoop.antt =====
-- decode's loop over the fields of META, on the bytes that encode wrote.
use http.Common.{
  ℕ, suc, ◌+◌, ◌≡◌, refl, sym, ap, ◌∙◌, List, [], ◌∷◌, ◌++◌, arith, length, drop-append, drop_at,
  sub_at, length-append, append_assoc, append-nil, All,
}
use http.Wire.Types.{Str, ok}
use http.Wire.Bytes.{bytes_u8, bytes_u16, get_u8, get_u16, subarray}
use http.Wire.Bytes.Words.{read_u16, read_u8}
use http.Wire.Decode.{meta_loop}
use mathlib.Core.Path.{ap₂}
use http.Wire.RoundTrip.Fields.{Fits, field_bytes, fields_bytes, length-field_bytes}

-- One field read from `at`, where `b` goes on with it behind `w`.
module _ (w tail : List ℕ) (name value : Str) (fits : Fits (name, value)) where
  abbrev whole : List ℕ
  whole = w ++ (field_bytes (name, value) ++ tail)

  abbrev behind_size : List ℕ
  behind_size = w ++ bytes_u8 (length name)

  abbrev behind_name : List ℕ
  behind_name = behind_size ++ name

  abbrev behind_mark : List ℕ
  behind_mark = behind_name ++ bytes_u16 (length value)

  from_name : whole ≡ behind_size ++ (name ++ (bytes_u16 (length value) ++ (value ++ tail)))
  from_name = simp append_assoc

  from_mark : whole ≡ behind_name ++ (bytes_u16 (length value) ++ (value ++ tail))
  from_mark = simp append_assoc

  from_value : whole ≡ behind_mark ++ (value ++ tail)
  from_value = simp append_assoc

  length-behind_name : length behind_name ≡ length w + 1 + length name
  length-behind_name =
      omega (arith, length-append w (bytes_u8 (length name)), length-append behind_size name)

  pub read_size : get_u8 whole (length w) ≡ length name
  read_size =
      read_u8 whole (length w) _ (length name) fits.name_len
        (drop-append (length w) w (field_bytes (name, value) ++ tail) refl)

  pub read_mark : get_u16 whole (length w + 1 + length name) ≡ length value
  read_mark =
      read_u16 whole (length w + 1 + length name) (value ++ tail) (length value) fits.value_len (
        drop_at whole behind_name (bytes_u16 (length value)) (value ++ tail) from_mark _
          (sym length-behind_name))

  pub read_name : subarray whole (length w + 1) (length w + 1 + length name) ≡ name
  read_name =
      sub_at whole behind_size name (bytes_u16 (length value) ++ (value ++ tail)) from_name
        (length w + 1) (length w + 1 + length name)
        (omega (arith, length-append w (bytes_u8 (length name)))) refl

  pub read_value :
      subarray whole (length w + 3 + length name) (length w + 3 + length name + length value)
      ≡ value
  read_value =
      sub_at whole behind_mark value tail from_value (length w + 3 + length name)
        (length w + 3 + length name + length value)
        (omega (arith, length-behind_name, length-append behind_name (bytes_u16 (length value))))
        refl

-- One round of the loop takes one field.
meta_loop_step :
    (left : ℕ) (w tail : List ℕ) (name value : Str) (acc : List (Str × Str)) (b : List ℕ) (at : ℕ)
    → Fits (name, value)
    → b ≡ w ++ (field_bytes (name, value) ++ tail)
    → at ≡ length w
    → meta_loop (suc left) b at acc
      ≡ meta_loop left b (at + 3 + length name + length value) (acc ++ ((name, value) ∷ []))
unfolding meta_loop
meta_loop_step left w tail name value acc b at fits e ha =
    rw (ha, e)
      (rw
        (
          read_size w tail name value fits,
          read_mark w tail name value fits,
          read_name w tail name value fits,
          read_value w tail name value fits,
        )
        (ground (arith, lengths)))
  where
    lengths :
        length (w ++ (field_bytes (name, value) ++ tail))
        ≡ length w + (3 + length name + length value + length tail)
    lengths = omega (
      arith,
      length-append w (field_bytes (name, value) ++ tail),
      length-append (field_bytes (name, value)) tail,
      length-field_bytes name value,
    )

pub meta_loop_lem :
    (fields : List (Str × Str)) (w : List ℕ) (acc : List (Str × Str)) (b : List ℕ) (at : ℕ)
    → All Fits fields
    → b ≡ w ++ fields_bytes fields
    → at ≡ length w
    → meta_loop (length fields) b at acc ≡ ok (length b, acc ++ fields)
meta_loop_lem [] w acc b at fits e ha =
    unfold meta_loop in
    (let n : at ≡ length b = omega (arith, ap length (e ∙ append-nil w)) in
      ap₂ (λ k l. ok (k, l)) n (sym (append-nil acc)))
meta_loop_lem ((name, value) ∷ fields) w acc b at fits e ha =
    meta_loop_step (length fields) w (fields_bytes fields) name value acc b at fits.0 e ha
    ∙ meta_loop_lem fields (w ++ field_bytes (name, value)) (acc ++ ((name, value) ∷ [])) b _ fits.1
        (e ∙ sym (append_assoc w (field_bytes (name, value)) (fields_bytes fields)))
        (omega (arith, length-append w (field_bytes (name, value)), length-field_bytes name value))
    ∙ ap (λ l. ok (length b, l)) (append_assoc acc ((name, value) ∷ []) fields)

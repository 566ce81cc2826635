-- ===== src/Wire/RoundTrip/MetaTrip.antt =====
-- What a passed checkMeta tells, and decode after encode for META.
use http.Common.{
  ℕ, ◌+◌, ◌%◌, ◌≤◌, ◌<◌, ◌≡◌, refl, sym, ap, subst, ◌∙◌, Bool, true, false, not, inl, inr,
  Bool-cases, List, [], ◌∷◌, ◌++◌, arith, length, All, any, str_eq, str_eq→eq, if◌then◌else◌,
}
use http.Wire.Types.{
  Str, Result, ok, err, ◌>>◌, Meta, type_meta, meta_packet, meta_names, unknown_name, repeated_name,
  bad_value,
}
use http.Wire.Bytes.{bytes_u8, write}
use http.Wire.Bytes.Writing.{write_next}
use http.Wire.Checks.{ends_graphic, matches_value, valid_meta_value, check_fields, check_meta}
use http.Wire.Encode.{fields_len, ascii, write_fields, encode_meta}
use http.Wire.Decode.{meta_loop, decode_meta}
use http.Wire.RoundTrip.Layout.{head, header-zeros, Trip, Trip-of}
use http.Wire.RoundTrip.Checked.{ok-injective}
use http.Wire.RoundTrip.Fields.{Fits, fields_bytes, write_fields_lem}
use http.Wire.RoundTrip.FieldLoop.{meta_loop_lem}

-- A name that is found in a list has what all of the list have.
pub any_All {ℓ} :
    (P : Str → Type ℓ) (name : Str) (l : List Str) → any (str_eq name) l ≡ true → All P l → P name
any_All P name [] h a = absurd (ground arith)
any_All P name (x ∷ l) h a = elim (Bool-cases (str_eq name x)) [
  | inl e ↦ subst P (sym (str_eq→eq name x e)) a.0
  | inr e ↦ any_All P name l (ground arith) a.1
]

abbrev IsName : Str → Type 0
IsName name = (length name < 256) × (ascii name ≡ name)

names-IsName : All IsName meta_names
names-IsName =
    ((omega arith, refl), ((omega arith, refl), ((omega arith, refl), ((omega arith, refl), tt))))

ends_graphic-ascii : (c : ℕ) (s : Str) → ends_graphic c s ≡ true → ascii (c ∷ s) ≡ c ∷ s
unfolding ends_graphic
ends_graphic-ascii c [] h = ground arith
ends_graphic-ascii c (d ∷ s) h = ground (arith, ends_graphic-ascii d s)

matches_value-ascii : (v : Str) → matches_value v ≡ true → ascii v ≡ v
unfolding matches_value
matches_value-ascii [] h = refl
matches_value-ascii (c ∷ []) h = ground arith
matches_value-ascii (c ∷ d ∷ s) h = ground (arith, ends_graphic-ascii d s)

valid_value : (v : Str) → valid_meta_value v ≡ true → (length v < 65536) × (ascii v ≡ v)
unfolding valid_meta_value
valid_value v h = ground (arith, matches_value-ascii v)

check_fields_step :
    (seen : List Str) (name value : Str) (rest : List (Str × Str))
    → check_fields seen ((name, value) ∷ rest) ≡ ok tt
    → (any (str_eq name) meta_names ≡ true)
      × (any (str_eq name) seen ≡ false)
      × (valid_meta_value value ≡ true)
      × (check_fields (name ∷ seen) rest ≡ ok tt)
unfolding check_fields
check_fields_step seen name value rest h =
    split (any (str_eq name) meta_names) (any (str_eq name) seen) (valid_meta_value value) _ h
  where
    split :
        (a b c : Bool) (r : Result (Unit {0}))
        → (if not a
            then err unknown_name
            else (if b then err repeated_name else (if c then r else err bad_value)))
          ≡ ok tt
        → (a ≡ true) × (b ≡ false) × (c ≡ true) × (r ≡ ok tt)
    split a b c r e = ground arith

pub check_fields-Fits :
    (seen : List Str) (fields : List (Str × Str))
    → check_fields seen fields ≡ ok tt
    → All Fits fields
check_fields-Fits seen [] h = tt
check_fields-Fits seen ((name, value) ∷ rest) h =
    let (known, new, valid, more) = check_fields_step seen name value rest h in
    let (short, plain) = any_All IsName name meta_names known names-IsName in
    let (fits, ascii_value) = valid_value value valid in
    (
      record { name_len = short; value_len = fits; name_ascii = plain; value_ascii = ascii_value },
      check_fields-Fits (name ∷ seen) rest more,
    )

pub check_meta_passed :
    (fields : List (Str × Str))
    → check_meta fields ≡ ok tt
    → (length fields ≤ 4) × (check_fields [] fields ≡ ok tt)
unfolding check_meta
check_meta_passed fields h = ground arith

Result-unit :
    (r : Result (Unit {0})) {a : List ℕ} (m : Result (List ℕ))
    → (r >> m) ≡ ok a
    → (r ≡ ok tt) × (m ≡ ok a)
Result-unit (ok tt) m h = (refl, h)
Result-unit (err e) m h = cc

abbrev meta_body : Meta → List ℕ
meta_body p = bytes_u8 (length p.fields) ++ fields_bytes p.fields

decode-meta_body :
    (p : Meta)
    → check_meta p.fields ≡ ok tt
    → decode_meta (head type_meta p.rpc_id ++ meta_body p) p.rpc_id ≡ ok (meta_packet p)
unfolding decode_meta
decode-meta_body p h =
    let (few, passed) = check_meta_passed p.fields h in
    let b : List ℕ = head type_meta p.rpc_id ++ meta_body p in
    let count : length p.fields ≡ length p.fields % 256 = omega arith in
    let loop : meta_loop (length p.fields) b 10 [] ≡ ok (length b, p.fields) =
      meta_loop_lem p.fields (head type_meta p.rpc_id ++ bytes_u8 (length p.fields)) [] b 10
        (check_fields-Fits [] p.fields passed) refl refl in
    ground (arith, h, loop, ap (λ n. meta_loop n b 10 []) count)

pub meta-Trip :
    (p : Meta) (b : List ℕ)
    → encode_meta p ≡ ok b
    → Trip type_meta p.rpc_id decode_meta (meta_packet p) b
unfolding encode_meta
meta-Trip p b e =
    let (h, e1) = Result-unit (check_meta p.fields) _ e in
    let (few, passed) = check_meta_passed p.fields h in
    let n : ℕ = length p.fields in
    let size : ℕ = fields_len p.fields in
    let start : List ℕ = head type_meta p.rpc_id ++ bytes_u8 n in
    Trip-of type_meta p.rpc_id decode_meta (meta_packet p) (meta_body p) b (decode-meta_body p h) (
      sym (
        ap (λ c. write_fields (write c 9 (bytes_u8 n)) 10 p.fields)
          (header-zeros type_meta p.rpc_id (10 + size) (1 + size) (omega arith))
        ∙ ap (λ c. write_fields c 10 p.fields)
            (write_next (head type_meta p.rpc_id) (bytes_u8 n) 9 (1 + size) size (omega arith)
              (omega arith))
        ∙ write_fields_lem p.fields start 10 (check_fields-Fits [] p.fields passed) (omega arith))
      ∙ ok-injective e1)

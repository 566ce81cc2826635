-- ===== src/Samples/WireRuns.antt =====
-- client/src/wire.ts at concrete datagrams, with a codec for ASCII text and byte order marks.
use http.Common.{
  ◌↔◌, ℕ, ◌≡◌, refl, Bool, true, false, ◌&&◌, Option, none, some, List, [], ◌∷◌, ◌++◌, ltb, ◌==◌,
  if◌then◌else◌, all, arith,
}
use http.Wire.Types.{
  Str, Packet, Req, Meta, req_packet, meta_packet, grant_packet, ok, err, bad_length,
}
use http.Wire.Bytes.{get_u16, get_u32, get_u64, write}
use http.Wire.Checks.{
  Utf8, Utf8Laws, byte_order_mark, starts_with_bom, check_u64, check_u32, check_meta, check_fields,
  valid_meta_value, matches_value,
}
use http.Wire.Encode.{
  encode, encode_body, encode_req, encode_meta, header, fields_len, write_fields,
}
use http.Wire.Decode.{decode, decode_body, decode_grant}
use http.Wire.RoundTrip.Packets.{decode-encode, decode-encode_bom}
use http.Wire.Validity.{IsValid, is_ok, encode-is_ok}
use http.Wire.Validity.Decoded.{decode-IsValid}

abbrev is_ascii : Str → Bool
is_ascii = all (λ c. ltb c 128)

abbrev text_bytes : Str → List ℕ
text_bytes [] = []
text_bytes (c ∷ s) = if c == byte_order_mark then 0xef ∷ 0xbb ∷ 0xbf ∷ s else c ∷ s

abbrev bytes_text : List ℕ → Option Str
bytes_text [] = some []
bytes_text (b ∷ []) = if is_ascii (b ∷ []) then some (b ∷ []) else none
bytes_text (b ∷ c ∷ []) = if is_ascii (b ∷ c ∷ []) then some (b ∷ c ∷ []) else none
bytes_text (b ∷ c ∷ d ∷ s) =
    if b == 0xef && (c == 0xbb && d == 0xbf)
    then some s
    else (if is_ascii (b ∷ c ∷ d ∷ s) then some (b ∷ c ∷ d ∷ s) else none)

abbrev text_ok : Str → Bool
text_ok [] = true
text_ok (c ∷ s) = if c == byte_order_mark then is_ascii s else is_ascii (c ∷ s)

abbrev pub ascii_utf8 : Utf8
ascii_utf8 = record { encode_text = text_bytes; decode_text = bytes_text; is_well_formed = text_ok }

ascii_utf8_plain :
    (s : Str) → text_ok s ≡ true → starts_with_bom s ≡ false → bytes_text (text_bytes s) ≡ some s
ascii_utf8_plain [] h k = refl
ascii_utf8_plain (b ∷ []) h k = ground arith
ascii_utf8_plain (b ∷ c ∷ []) h k = ground arith
ascii_utf8_plain (b ∷ c ∷ d ∷ s) h k = ground arith

ascii_utf8-Utf8Laws : Utf8Laws ascii_utf8
ascii_utf8-Utf8Laws = record { decode-encode = ascii_utf8_plain; decode-encode_bom = λ s h. refl }

-- "etag" = "a".
abbrev etag_meta : Meta
etag_meta = record { rpc_id = 7; fields = ((101 ∷ 116 ∷ 97 ∷ 103 ∷ []), (97 ∷ [])) ∷ [] }

abbrev etag_bytes : List ℕ
etag_bytes = 6 ∷ 0 ∷ 0 ∷ 0 ∷ 0 ∷ 0 ∷ 0 ∷ 0 ∷ 7 ∷ 1 ∷ 4 ∷ 101 ∷ 116 ∷ 97 ∷ 103 ∷ 0 ∷ 1 ∷ 97 ∷ []

etag_encodes : encode ascii_utf8 (meta_packet etag_meta) ≡ ok etag_bytes
unfolding encode encode_body encode_meta check_u64 check_meta check_fields valid_meta_value
    matches_value header write write_fields fields_len
etag_encodes = refl

decode-encode_example : decode ascii_utf8 etag_bytes ≡ ok (meta_packet etag_meta)
decode-encode_example =
    decode-encode ascii_utf8 ascii_utf8-Utf8Laws (meta_packet etag_meta) etag_bytes tt etag_encodes

-- The asset id "\ufeff" is not empty, and its REQ is read as one for "".
abbrev bom_req : Req
bom_req = record { rpc_id = 1; initial_grant = 5; asset_id = byte_order_mark ∷ [] }

abbrev bom_bytes : List ℕ
bom_bytes = 1 ∷ 0 ∷ 0 ∷ 0 ∷ 0 ∷ 0 ∷ 0 ∷ 0 ∷ 1 ∷ 0 ∷ 0 ∷ 0 ∷ 5 ∷ 0 ∷ 3 ∷ 0xef ∷ 0xbb ∷ 0xbf ∷ []

bom_encodes : encode ascii_utf8 (req_packet bom_req) ≡ ok bom_bytes
unfolding encode encode_body encode_req check_u64 check_u32 header write
bom_encodes = refl

decode-encode_bom_example :
    decode ascii_utf8 bom_bytes
    ≡ ok (req_packet (record { rpc_id = 1; initial_grant = 5; asset_id = [] }))
decode-encode_bom_example =
    decode-encode_bom ascii_utf8 ascii_utf8-Utf8Laws bom_req [] bom_bytes refl bom_encodes

-- A GRANT.
abbrev grant_datagram : List ℕ
grant_datagram = 3 ∷ 0 ∷ 0 ∷ 0 ∷ 0 ∷ 0 ∷ 0 ∷ 0 ∷ 9 ∷ 0 ∷ 1 ∷ 0 ∷ 0 ∷ 2 ∷ []

abbrev some_grant : Packet
some_grant = grant_packet (record { rpc_id = 9; max_offset = 65536; priority = 2 })

grant_decodes : decode ascii_utf8 grant_datagram ≡ ok some_grant
unfolding decode decode_body decode_grant get_u16 get_u32 get_u64
grant_decodes = refl

decode-IsValid_example : IsValid ascii_utf8 some_grant
decode-IsValid_example =
    decode-IsValid ascii_utf8 grant_datagram some_grant (omega arith) tt grant_decodes

encode-is_ok_example :
    (is_ok (encode ascii_utf8 (meta_packet etag_meta)) ≡ true)
    ↔ IsValid ascii_utf8 (meta_packet etag_meta)
encode-is_ok_example = encode-is_ok ascii_utf8 (meta_packet etag_meta)

trailing_byte : decode ascii_utf8 (grant_datagram ++ (0 ∷ [])) ≡ err bad_length
unfolding decode decode_body decode_grant get_u16 get_u32 get_u64
trailing_byte = refl

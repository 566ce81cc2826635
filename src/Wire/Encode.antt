-- ===== src/Wire/Encode.antt =====
-- client/src/wire.ts, encode: one function for each case of the switch. A packet is written field
-- by field into a zero-filled buffer of its final length.
use http.Common.{ℕ, ◌+◌, ◌%◌, List, [], ◌∷◌, map, ltb, ◌==◌, ◌||◌, not, length, replicate}
use http.Wire.Types.{
  Str, Packet, Req, Data, Grant, Resend, ErrorPacket, Meta, Hello, DataSeq, ResendSeq, req_packet,
  data_packet, grant_packet, resend_packet, error_packet, meta_packet, hello_packet,
  data_seq_packet, resend_seq_packet, Result, ok, err, ◌>>◌, bad_unicode, asset_id_length,
  data_header_len, req_fixed_len, grant_len, resend_len, error_len, meta_fixed_len, hello_len,
  data_seq_header_len, resend_seq_len, type_req, type_data, type_grant, type_resend, type_error,
  type_meta, type_hello, type_data_seq, type_resend_seq,
}
use http.Wire.Bytes.{bytes_u8, bytes_u16, bytes_u32, bytes_u64, write}
use http.Wire.Checks.{
  Utf8, check, check_data_bounds, check_resend_range, check_u64, check_u32, check_u8, check_meta,
}

unfoldable pub header : ℕ → ℕ → ℕ → List ℕ
header type rpc_id len = write (write (replicate len 0) 0 (bytes_u8 type)) 1 (bytes_u64 rpc_id)

unfoldable pub encode_req : Utf8 → Req → Result (List ℕ)
encode_req u p = do
  check_u32 p.initial_grant
  check (not (u.is_well_formed p.asset_id)) (err bad_unicode)
  let id = u.encode_text p.asset_id
  check (length id == 0 || ltb 0xffff (length id)) (err asset_id_length)
  let b = header type_req p.rpc_id (req_fixed_len + length id)
  let b = write b 9 (bytes_u32 p.initial_grant)
  let b = write b 13 (bytes_u16 (length id))
  ok (write b req_fixed_len id)

unfoldable pub encode_data : Data → Result (List ℕ)
encode_data p = do
  check_u32 p.total_size
  check_u32 p.offset
  check_data_bounds p.offset p.payload p.total_size
  let b = header type_data p.rpc_id (data_header_len + length p.payload)
  let b = write b 9 (bytes_u32 p.total_size)
  let b = write b 13 (bytes_u32 p.offset)
  ok (write b data_header_len p.payload)

unfoldable pub encode_grant : Grant → Result (List ℕ)
encode_grant p = do
  check_u32 p.max_offset
  check_u8 p.priority
  let b = header type_grant p.rpc_id grant_len
  let b = write b 9 (bytes_u32 p.max_offset)
  ok (write b 13 (bytes_u8 p.priority))

unfoldable pub encode_resend : Resend → Result (List ℕ)
encode_resend p = do
  check_u32 p.start
  check_u32 p.stop
  check_resend_range p.start p.stop
  let b = header type_resend p.rpc_id resend_len
  let b = write b 9 (bytes_u32 p.start)
  ok (write b 13 (bytes_u32 p.stop))

unfoldable pub encode_error : ErrorPacket → Result (List ℕ)
encode_error p = do
  check_u8 p.code
  ok (write (header type_error p.rpc_id error_len) 9 (bytes_u8 p.code))

-- The length of the fields, and the loop that writes them from `at` on. `writeAscii` stores each
-- code unit modulo 256.
unfoldable pub fields_len : List (Str × Str) → ℕ
fields_len [] = 0
fields_len ((name, value) ∷ fields) = 3 + length name + length value + fields_len fields

abbrev pub ascii : Str → List ℕ
ascii = map (λ c. c % 256)

unfoldable pub write_fields : List ℕ → ℕ → List (Str × Str) → List ℕ
write_fields b at [] = b
write_fields b at ((name, value) ∷ fields) =
    let b1 = write b at (bytes_u8 (length name)) in
    let b2 = write b1 (at + 1) (ascii name) in
    let b3 = write b2 (at + 1 + length name) (bytes_u16 (length value)) in
    let b4 = write b3 (at + 3 + length name) (ascii value) in
    write_fields b4 (at + (3 + length name + length value)) fields

unfoldable pub encode_meta : Meta → Result (List ℕ)
encode_meta p = do
  check_meta p.fields
  let b = header type_meta p.rpc_id (meta_fixed_len + fields_len p.fields)
  let b = write b 9 (bytes_u8 (length p.fields))
  ok (write_fields b meta_fixed_len p.fields)

unfoldable pub encode_hello : Hello → Result (List ℕ)
encode_hello p = do
  check_u32 p.caps
  ok (write (header type_hello p.rpc_id hello_len) 9 (bytes_u32 p.caps))

unfoldable pub encode_data_seq : DataSeq → Result (List ℕ)
encode_data_seq p = do
  check_u32 p.total_size
  check_u32 p.offset
  check_u32 p.seq
  check_data_bounds p.offset p.payload p.total_size
  let b = header type_data_seq p.rpc_id (data_seq_header_len + length p.payload)
  let b = write b 9 (bytes_u32 p.total_size)
  let b = write b 13 (bytes_u32 p.offset)
  let b = write b 17 (bytes_u32 p.seq)
  ok (write b data_seq_header_len p.payload)

unfoldable pub encode_resend_seq : ResendSeq → Result (List ℕ)
encode_resend_seq p = do
  check_u32 p.start
  check_u32 p.stop
  check_resend_range p.start p.stop
  let b = header type_resend_seq p.rpc_id resend_seq_len
  let b = write b 9 (bytes_u32 p.start)
  ok (write b 13 (bytes_u32 p.stop))

abbrev pub packet_rpc_id : Packet → ℕ
packet_rpc_id (req_packet p) = p.rpc_id
packet_rpc_id (data_packet p) = p.rpc_id
packet_rpc_id (grant_packet p) = p.rpc_id
packet_rpc_id (resend_packet p) = p.rpc_id
packet_rpc_id (error_packet p) = p.rpc_id
packet_rpc_id (meta_packet p) = p.rpc_id
packet_rpc_id (hello_packet p) = p.rpc_id
packet_rpc_id (data_seq_packet p) = p.rpc_id
packet_rpc_id (resend_seq_packet p) = p.rpc_id

-- The switch on the packet's type.
unfoldable pub encode_body : Utf8 → Packet → Result (List ℕ)
encode_body u (req_packet p) = encode_req u p
encode_body u (data_packet p) = encode_data p
encode_body u (grant_packet p) = encode_grant p
encode_body u (resend_packet p) = encode_resend p
encode_body u (error_packet p) = encode_error p
encode_body u (meta_packet p) = encode_meta p
encode_body u (hello_packet p) = encode_hello p
encode_body u (data_seq_packet p) = encode_data_seq p
encode_body u (resend_seq_packet p) = encode_resend_seq p

unfoldable pub encode : Utf8 → Packet → Result (List ℕ)
encode u p = do check_u64 (packet_rpc_id p); encode_body u p

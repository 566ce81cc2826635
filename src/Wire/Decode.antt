-- ===== src/Wire/Decode.antt =====
-- client/src/wire.ts, decode: one function for each case of the switch.
use http.Common.{
  ℕ, zero, suc, ◌+◌, Option, some, none, List, [], ◌∷◌, ◌++◌, ltb, ◌==◌, if◌then◌else◌, not, length,
}
use http.Wire.Types.{
  Str, Packet, req_packet, data_packet, grant_packet, resend_packet, error_packet, meta_packet,
  hello_packet, data_seq_packet, resend_seq_packet, Result, ok, err, ◌>>=◌, ◌>>◌, short_header,
  bad_length, empty_asset_id, not_utf8, truncated_meta, trailing_meta, unknown_type, header_len,
  data_header_len, req_fixed_len, grant_len, resend_len, error_len, meta_fixed_len, hello_len,
  data_seq_header_len, resend_seq_len, type_req, type_data, type_grant, type_resend, type_error,
  type_meta, type_hello, type_data_seq, type_resend_seq,
}
use http.Wire.Bytes.{get_u8, get_u16, get_u32, get_u64, sub_from, subarray}
use http.Wire.Checks.{Utf8, check, check_data_bounds, check_resend_range, check_meta}

abbrev pub decoded_id : ℕ → ℕ → Option Str → Result Packet
decoded_id rpc_id initial_grant none = err not_utf8
decoded_id rpc_id initial_grant (some id) =
    ok (req_packet (record { rpc_id = rpc_id; initial_grant = initial_grant; asset_id = id }))

unfoldable pub decode_req : Utf8 → List ℕ → ℕ → Result Packet
decode_req u b rpc_id = do
  check (ltb (length b) req_fixed_len) (err bad_length)
  let n = get_u16 b 13
  check (n == 0) (err empty_asset_id)
  check (not (length b == req_fixed_len + n)) (err bad_length)
  decoded_id rpc_id (get_u32 b 9) (u.decode_text (sub_from b req_fixed_len))

unfoldable pub decode_data : List ℕ → ℕ → Result Packet
decode_data b rpc_id = do
  check (ltb (length b) data_header_len) (err bad_length)
  let payload = sub_from b data_header_len
  check_data_bounds (get_u32 b 13) payload (get_u32 b 9)
  ok (
      data_packet (record {
        rpc_id = rpc_id;
        total_size = get_u32 b 9;
        offset = get_u32 b 13;
        payload = payload;
      }))

unfoldable pub decode_grant : List ℕ → ℕ → Result Packet
decode_grant b rpc_id = do
  check (not (length b == grant_len)) (err bad_length)
  ok (grant_packet (record { rpc_id = rpc_id; max_offset = get_u32 b 9; priority = get_u8 b 13 }))

unfoldable pub decode_resend : List ℕ → ℕ → Result Packet
decode_resend b rpc_id = do
  check (not (length b == resend_len)) (err bad_length)
  check_resend_range (get_u32 b 9) (get_u32 b 13)
  ok (resend_packet (record { rpc_id = rpc_id; start = get_u32 b 9; stop = get_u32 b 13 }))

unfoldable pub decode_error : List ℕ → ℕ → Result Packet
decode_error b rpc_id = do
  check (not (length b == error_len)) (err bad_length)
  ok (error_packet (record { rpc_id = rpc_id; code = get_u8 b 9 }))

-- `latin1`: a byte is its own code unit.
abbrev pub latin1 : List ℕ → Str
latin1 b = b

-- The loop over the fields: `left` fields are to be read, from `at` on.
unfoldable pub meta_loop : ℕ → List ℕ → ℕ → List (Str × Str) → Result (ℕ × List (Str × Str))
meta_loop zero b at fields = ok (at, fields)
meta_loop (suc left) b at fields =
    let n = get_u8 b at in
    let next = at + 3 + n in
    let m = get_u16 b (at + 1 + n) in
    let name = latin1 (subarray b (at + 1) (at + 1 + n)) in
    let value = latin1 (subarray b next (next + m)) in
    let rest = meta_loop left b (next + m) (fields ++ ((name, value) ∷ [])) in
    if ltb (length b) (at + 1)
    then err truncated_meta
    else (if ltb (length b) (at + 1 + n + 2)
        then err truncated_meta
        else (if ltb (length b) (next + m) then err truncated_meta else rest))

abbrev pub meta_result : List ℕ → ℕ → ℕ × List (Str × Str) → Result Packet
meta_result b rpc_id (at, fields) = do
  check (not (at == length b)) (err trailing_meta)
  check_meta fields
  ok (meta_packet (record { rpc_id = rpc_id; fields = fields }))

unfoldable pub decode_meta : List ℕ → ℕ → Result Packet
decode_meta b rpc_id = do
  check (ltb (length b) meta_fixed_len) (err bad_length)
  r ← meta_loop (get_u8 b 9) b meta_fixed_len []
  meta_result b rpc_id r

unfoldable pub decode_hello : List ℕ → ℕ → Result Packet
decode_hello b rpc_id = do
  check (not (length b == hello_len)) (err bad_length)
  ok (hello_packet (record { rpc_id = rpc_id; caps = get_u32 b 9 }))

unfoldable pub decode_data_seq : List ℕ → ℕ → Result Packet
decode_data_seq b rpc_id = do
  check (ltb (length b) data_seq_header_len) (err bad_length)
  let payload = sub_from b data_seq_header_len
  check_data_bounds (get_u32 b 13) payload (get_u32 b 9)
  ok (
      data_seq_packet (record {
        rpc_id = rpc_id;
        total_size = get_u32 b 9;
        offset = get_u32 b 13;
        seq = get_u32 b 17;
        payload = payload;
      }))

unfoldable pub decode_resend_seq : List ℕ → ℕ → Result Packet
decode_resend_seq b rpc_id = do
  check (not (length b == resend_seq_len)) (err bad_length)
  check_resend_range (get_u32 b 9) (get_u32 b 13)
  ok (resend_seq_packet (record { rpc_id = rpc_id; start = get_u32 b 9; stop = get_u32 b 13 }))

-- The switch on the type byte.
unfoldable pub decode_body : Utf8 → List ℕ → ℕ → ℕ → Result Packet
decode_body u b rpc_id type =
    if type == type_req
    then decode_req u b rpc_id
    else (if type == type_data
        then decode_data b rpc_id
        else (if type == type_grant
            then decode_grant b rpc_id
            else (if type == type_resend
                then decode_resend b rpc_id
                else (if type == type_error
                    then decode_error b rpc_id
                    else (if type == type_meta
                        then decode_meta b rpc_id
                        else (if type == type_hello
                            then decode_hello b rpc_id
                            else (if type == type_data_seq
                                then decode_data_seq b rpc_id
                                else (if type == type_resend_seq
                                    then decode_resend_seq b rpc_id
                                    else err unknown_type))))))))

unfoldable pub decode : Utf8 → List ℕ → Result Packet
decode u b =
    if ltb (length b) header_len
    then err short_header
    else decode_body u b (get_u64 b 1) (get_u8 b 0)

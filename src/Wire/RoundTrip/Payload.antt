-- ===== src/Wire/RoundTrip/Payload.antt =====
-- decode after encode, for the packets with a body: DATA, DATA_SEQ and REQ.
use http.Common.{
  ℕ, ◌+◌, ◌^◌, ◌≤◌, ◌<◌, ◌≡◌, refl, sym, ap, ◌∙◌, not, ◌||◌, some, List, ◌++◌, arith, length, ltb,
  ◌==◌,
}
use http.Wire.Types.{
  Str, ok, Req, Data, DataSeq, type_req, type_data, type_data_seq, req_packet, data_packet,
  data_seq_packet,
}
use http.Wire.Bytes.{bytes_u16, bytes_u32}
use http.Wire.Bytes.Words.{read_u32, read_u16}
use http.Wire.Checks.{Utf8, check_data_bounds}
use http.Wire.Encode.{encode_req, encode_data, encode_data_seq}
use http.Wire.Decode.{decode_req, decode_data, decode_data_seq, decoded_id}
use http.Wire.RoundTrip.Layout.{head, Trip, Trip-of, three_words, four_words}
use http.Wire.RoundTrip.Checked.{u32_passed, bounds_passed, check_passed, ok-injective}

abbrev data_body : Data → List ℕ
data_body p = bytes_u32 p.total_size ++ (bytes_u32 p.offset ++ p.payload)

decode-data_body :
    (p : Data)
    → p.total_size < 2 ^ 32
    → p.offset < 2 ^ 32
    → p.offset + length p.payload ≤ p.total_size
    → decode_data (head type_data p.rpc_id ++ data_body p) p.rpc_id ≡ ok (data_packet p)
unfolding decode_data check_data_bounds
decode-data_body p ht ho h =
    let b : List ℕ = head type_data p.rpc_id ++ data_body p in
    ground (
      arith,
      read_u32 b 9 (bytes_u32 p.offset ++ p.payload) p.total_size ht refl,
      read_u32 b 13 p.payload p.offset ho refl,
    )

pub data-Trip :
    (p : Data) (b : List ℕ)
    → encode_data p ≡ ok b
    → Trip type_data p.rpc_id decode_data (data_packet p) b
unfolding encode_data
data-Trip p b e =
    let (ht, e1) = u32_passed _ p.total_size e in
    let (ho, e2) = u32_passed _ p.offset e1 in
    let (h, e3) = bounds_passed _ p.offset p.payload p.total_size e2 in
    Trip-of type_data p.rpc_id decode_data (data_packet p) (data_body p) b
      (decode-data_body p ht ho h)
      (sym (three_words type_data p.rpc_id (bytes_u32 p.total_size) refl _ 17 _ _ refl refl)
        ∙ ok-injective e3)

abbrev data_seq_body : DataSeq → List ℕ
data_seq_body p = bytes_u32 p.total_size ++ (bytes_u32 p.offset ++ (bytes_u32 p.seq ++ p.payload))

decode-data_seq_body :
    (p : DataSeq)
    → p.total_size < 2 ^ 32
    → p.offset < 2 ^ 32
    → p.seq < 2 ^ 32
    → p.offset + length p.payload ≤ p.total_size
    → decode_data_seq (head type_data_seq p.rpc_id ++ data_seq_body p) p.rpc_id
      ≡ ok (data_seq_packet p)
unfolding decode_data_seq check_data_bounds
decode-data_seq_body p ht ho hs h =
    let b : List ℕ = head type_data_seq p.rpc_id ++ data_seq_body p in
    ground (
      arith,
      read_u32 b 9 (bytes_u32 p.offset ++ (bytes_u32 p.seq ++ p.payload)) p.total_size ht refl,
      read_u32 b 13 (bytes_u32 p.seq ++ p.payload) p.offset ho refl,
      read_u32 b 17 p.payload p.seq hs refl,
    )

pub data_seq-Trip :
    (p : DataSeq) (b : List ℕ)
    → encode_data_seq p ≡ ok b
    → Trip type_data_seq p.rpc_id decode_data_seq (data_seq_packet p) b
unfolding encode_data_seq
data_seq-Trip p b e =
    let (ht, e1) = u32_passed _ p.total_size e in
    let (ho, e2) = u32_passed _ p.offset e1 in
    let (hs, e3) = u32_passed _ p.seq e2 in
    let (h, e4) = bounds_passed _ p.offset p.payload p.total_size e3 in
    Trip-of type_data_seq p.rpc_id decode_data_seq (data_seq_packet p) (data_seq_body p) b
      (decode-data_seq_body p ht ho hs h)
      (sym (four_words type_data_seq p.rpc_id (bytes_u32 p.total_size) refl _ _ _ _ refl refl refl)
        ∙ ok-injective e4)

-- The asset id comes back as the browser's decoder reads its bytes.
module _ (u : Utf8) where
  abbrev req_body : Req → List ℕ
  req_body p =
      let id = u.encode_text p.asset_id in
      bytes_u32 p.initial_grant ++ (bytes_u16 (length id) ++ id)

  decode-req_body :
      (p : Req) (id : Str)
      → p.initial_grant < 2 ^ 32
      → length (u.encode_text p.asset_id) < 65536
      → 0 < length (u.encode_text p.asset_id)
      → u.decode_text (u.encode_text p.asset_id) ≡ some id
      → decode_req u (head type_req p.rpc_id ++ req_body p) p.rpc_id
        ≡ ok (req_packet (record p { asset_id = id }))
  unfolding decode_req
  decode-req_body p id hg hn hz e =
      let b : List ℕ = head type_req p.rpc_id ++ req_body p in
      let bytes : List ℕ = u.encode_text p.asset_id in
      ground (
        arith,
        read_u32 b 9 (bytes_u16 (length bytes) ++ bytes) p.initial_grant hg refl,
        read_u16 b 13 bytes (length bytes) hn refl,
        ap (decoded_id p.rpc_id p.initial_grant) e,
      )

  pub req-Trip :
      (p : Req) (id : Str) (b : List ℕ)
      → u.decode_text (u.encode_text p.asset_id) ≡ some id
      → encode_req u p ≡ ok b
      → Trip type_req p.rpc_id (decode_req u) (req_packet (record p { asset_id = id })) b
  unfolding encode_req
  req-Trip p id b r e =
      let (hg, e1) = u32_passed _ p.initial_grant e in
      let (hw, e2) = check_passed _ (not (u.is_well_formed p.asset_id)) _ e1 in
      let bytes : List ℕ = u.encode_text p.asset_id in
      let (hn, e3) = check_passed _ (length bytes == 0 || ltb 0xffff (length bytes)) _ e2 in
      Trip-of type_req p.rpc_id (decode_req u) (req_packet (record p { asset_id = id }))
        (req_body p) b (decode-req_body p id hg (ground arith) (ground arith) r)
        (sym (three_words type_req p.rpc_id (bytes_u32 p.initial_grant) refl _ 15 _ _ refl refl)
          ∙ ok-injective e3)

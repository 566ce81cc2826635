-- ===== src/Wire/RoundTrip/Fixed.antt =====
-- decode after encode, for the packets of fixed length.
use http.Common.{ℕ, ◌^◌, ◌<◌, ◌≡◌, refl, sym, ◌∙◌, List, [], ◌++◌, arith}
use http.Wire.Types.{
  ok, Grant, Resend, ErrorPacket, Hello, ResendSeq, type_grant, type_resend, type_error, type_hello,
  type_resend_seq, grant_packet, resend_packet, error_packet, hello_packet, resend_seq_packet,
}
use http.Wire.Bytes.{bytes_u8, bytes_u32}
use http.Wire.Bytes.Words.{read_u32, read_u8}
use http.Wire.Checks.{check_resend_range}
use http.Wire.Encode.{encode_grant, encode_resend, encode_error, encode_hello, encode_resend_seq}
use http.Wire.Decode.{decode_grant, decode_resend, decode_error, decode_hello, decode_resend_seq}
use http.Wire.RoundTrip.Layout.{head, Trip, Trip-of, one_word, two_words}
use http.Wire.RoundTrip.Checked.{u32_passed, u8_passed, range_passed, ok-injective}

abbrev grant_body : Grant → List ℕ
grant_body p = bytes_u32 p.max_offset ++ bytes_u8 p.priority

decode-grant_body :
    (p : Grant)
    → p.max_offset < 2 ^ 32
    → p.priority < 256
    → decode_grant (head type_grant p.rpc_id ++ grant_body p) p.rpc_id ≡ ok (grant_packet p)
unfolding decode_grant
decode-grant_body p ho hp =
    let b : List ℕ = head type_grant p.rpc_id ++ grant_body p in
    ground (
      arith,
      read_u32 b 9 (bytes_u8 p.priority) p.max_offset ho refl,
      read_u8 b 13 [] p.priority hp refl,
    )

pub grant-Trip :
    (p : Grant) (b : List ℕ)
    → encode_grant p ≡ ok b
    → Trip type_grant p.rpc_id decode_grant (grant_packet p) b
unfolding encode_grant
grant-Trip p b e =
    let (ho, e1) = u32_passed _ p.max_offset e in
    let (hp, e2) = u8_passed _ p.priority e1 in
    Trip-of type_grant p.rpc_id decode_grant (grant_packet p) (grant_body p) b
      (decode-grant_body p ho hp)
      (sym (two_words type_grant p.rpc_id (bytes_u32 p.max_offset) refl 14 _ refl)
        ∙ ok-injective e2)

abbrev range_body : ℕ → ℕ → List ℕ
range_body start stop = bytes_u32 start ++ bytes_u32 stop

decode-resend_body :
    (p : Resend)
    → p.start < 2 ^ 32
    → p.stop < 2 ^ 32
    → p.start < p.stop
    → decode_resend (head type_resend p.rpc_id ++ range_body p.start p.stop) p.rpc_id
      ≡ ok (resend_packet p)
unfolding decode_resend check_resend_range
decode-resend_body p hs he h =
    let b : List ℕ = head type_resend p.rpc_id ++ range_body p.start p.stop in
    ground (arith, read_u32 b 9 (bytes_u32 p.stop) p.start hs refl, read_u32 b 13 [] p.stop he refl)

pub resend-Trip :
    (p : Resend) (b : List ℕ)
    → encode_resend p ≡ ok b
    → Trip type_resend p.rpc_id decode_resend (resend_packet p) b
unfolding encode_resend
resend-Trip p b e =
    let (hs, e1) = u32_passed _ p.start e in
    let (he, e2) = u32_passed _ p.stop e1 in
    let (h, e3) = range_passed _ p.start p.stop e2 in
    Trip-of type_resend p.rpc_id decode_resend (resend_packet p) (range_body p.start p.stop) b
      (decode-resend_body p hs he h)
      (sym (two_words type_resend p.rpc_id (bytes_u32 p.start) refl 17 _ refl) ∙ ok-injective e3)

decode-resend_seq_body :
    (p : ResendSeq)
    → p.start < 2 ^ 32
    → p.stop < 2 ^ 32
    → p.start < p.stop
    → decode_resend_seq (head type_resend_seq p.rpc_id ++ range_body p.start p.stop) p.rpc_id
      ≡ ok (resend_seq_packet p)
unfolding decode_resend_seq check_resend_range
decode-resend_seq_body p hs he h =
    let b : List ℕ = head type_resend_seq p.rpc_id ++ range_body p.start p.stop in
    ground (arith, read_u32 b 9 (bytes_u32 p.stop) p.start hs refl, read_u32 b 13 [] p.stop he refl)

pub resend_seq-Trip :
    (p : ResendSeq) (b : List ℕ)
    → encode_resend_seq p ≡ ok b
    → Trip type_resend_seq p.rpc_id decode_resend_seq (resend_seq_packet p) b
unfolding encode_resend_seq
resend_seq-Trip p b e =
    let (hs, e1) = u32_passed _ p.start e in
    let (he, e2) = u32_passed _ p.stop e1 in
    let (h, e3) = range_passed _ p.start p.stop e2 in
    Trip-of type_resend_seq p.rpc_id decode_resend_seq (resend_seq_packet p)
      (range_body p.start p.stop) b (decode-resend_seq_body p hs he h)
      (sym (two_words type_resend_seq p.rpc_id (bytes_u32 p.start) refl 17 _ refl)
        ∙ ok-injective e3)

decode-error_body :
    (p : ErrorPacket)
    → p.code < 256
    → decode_error (head type_error p.rpc_id ++ bytes_u8 p.code) p.rpc_id ≡ ok (error_packet p)
unfolding decode_error
decode-error_body p h =
    ground (arith, read_u8 (head type_error p.rpc_id ++ bytes_u8 p.code) 9 [] p.code h refl)

pub error-Trip :
    (p : ErrorPacket) (b : List ℕ)
    → encode_error p ≡ ok b
    → Trip type_error p.rpc_id decode_error (error_packet p) b
unfolding encode_error
error-Trip p b e =
    let (h, e1) = u8_passed _ p.code e in
    Trip-of type_error p.rpc_id decode_error (error_packet p) (bytes_u8 p.code) b
      (decode-error_body p h) (sym (one_word type_error p.rpc_id 10 _ refl) ∙ ok-injective e1)

decode-hello_body :
    (p : Hello)
    → p.caps < 2 ^ 32
    → decode_hello (head type_hello p.rpc_id ++ bytes_u32 p.caps) p.rpc_id ≡ ok (hello_packet p)
unfolding decode_hello
decode-hello_body p h =
    ground (arith, read_u32 (head type_hello p.rpc_id ++ bytes_u32 p.caps) 9 [] p.caps h refl)

pub hello-Trip :
    (p : Hello) (b : List ℕ)
    → encode_hello p ≡ ok b
    → Trip type_hello p.rpc_id decode_hello (hello_packet p) b
unfolding encode_hello
hello-Trip p b e =
    let (h, e1) = u32_passed _ p.caps e in
    Trip-of type_hello p.rpc_id decode_hello (hello_packet p) (bytes_u32 p.caps) b
      (decode-hello_body p h) (sym (one_word type_hello p.rpc_id 13 _ refl) ∙ ok-injective e1)

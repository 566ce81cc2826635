-- ===== src/Wire/Types.antt =====
-- client/src/wire.ts: constants, packets, and the reasons of MalformedPacketError.
-- Numbers are natural numbers, so `Number.isInteger` and the tests for negative values have no
-- counterpart. A string is the list of its UTF-16 code units, an array of bytes a list of numbers.
use http.Common.{ℕ, ◌-◌, List, [], ◌∷◌}

abbrev pub Str : Type 0
Str = List ℕ

-- PacketType.
abbrev pub type_req : ℕ
type_req = 0x01

abbrev pub type_data : ℕ
type_data = 0x02

abbrev pub type_grant : ℕ
type_grant = 0x03

abbrev pub type_resend : ℕ
type_resend = 0x04

abbrev pub type_error : ℕ
type_error = 0x05

abbrev pub type_meta : ℕ
type_meta = 0x06

abbrev pub type_hello : ℕ
type_hello = 0x07

abbrev pub type_data_seq : ℕ
type_data_seq = 0x08

abbrev pub type_resend_seq : ℕ
type_resend_seq = 0x09

-- ErrorCode.
abbrev pub not_found : ℕ
not_found = 0x01

abbrev pub bad_request : ℕ
bad_request = 0x02

abbrev pub unknown_rpc : ℕ
unknown_rpc = 0x03

-- Lengths.
abbrev pub header_len : ℕ
header_len = 9

abbrev pub data_header_len : ℕ
data_header_len = 17

abbrev pub req_fixed_len : ℕ
req_fixed_len = 15

abbrev pub grant_len : ℕ
grant_len = 14

abbrev pub resend_len : ℕ
resend_len = 17

abbrev pub error_len : ℕ
error_len = 10

abbrev pub meta_fixed_len : ℕ
meta_fixed_len = 10

abbrev pub hello_len : ℕ
hello_len = 13

abbrev pub data_seq_header_len : ℕ
data_seq_header_len = 21

abbrev pub resend_seq_len : ℕ
resend_seq_len = 17

abbrev pub max_meta_value : ℕ
max_meta_value = 0xffff

abbrev pub u32_max : ℕ
u32_max = 0xffff_ffff

abbrev pub u64_max : ℕ
u64_max = 0xffff_ffff_ffff_ffff

-- META_NAMES: "content-type", "etag", "last-modified", "cache-control".
abbrev pub meta_names : List Str
meta_names =
    (99 ∷ 111 ∷ 110 ∷ 116 ∷ 101 ∷ 110 ∷ 116 ∷ 45 ∷ 116 ∷ 121 ∷ 112 ∷ 101 ∷ [])
    ∷ (101 ∷ 116 ∷ 97 ∷ 103 ∷ [])
    ∷ (108 ∷ 97 ∷ 115 ∷ 116 ∷ 45 ∷ 109 ∷ 111 ∷ 100 ∷ 105 ∷ 102 ∷ 105 ∷ 101 ∷ 100 ∷ [])
    ∷ (99 ∷ 97 ∷ 99 ∷ 104 ∷ 101 ∷ 45 ∷ 99 ∷ 111 ∷ 110 ∷ 116 ∷ 114 ∷ 111 ∷ 108 ∷ [])
    ∷ []

pub record Req : Type 0 where
  pub rpc_id : ℕ
  pub initial_grant : ℕ
  pub asset_id : Str

pub record Data : Type 0 where
  pub rpc_id : ℕ
  pub total_size : ℕ
  pub offset : ℕ
  pub payload : List ℕ

pub record Grant : Type 0 where
  pub rpc_id : ℕ
  pub max_offset : ℕ
  pub priority : ℕ

pub record Resend : Type 0 where
  pub rpc_id : ℕ
  pub start : ℕ
  pub stop : ℕ

pub record ErrorPacket : Type 0 where
  pub rpc_id : ℕ
  pub code : ℕ

pub record Meta : Type 0 where
  pub rpc_id : ℕ
  pub fields : List (Str × Str)

pub record Hello : Type 0 where
  pub rpc_id : ℕ
  pub caps : ℕ

pub record DataSeq : Type 0 where
  pub rpc_id : ℕ
  pub total_size : ℕ
  pub offset : ℕ
  pub seq : ℕ
  pub payload : List ℕ

pub record ResendSeq : Type 0 where
  pub rpc_id : ℕ
  pub start : ℕ
  pub stop : ℕ

pub data Packet : Type 0 where
  req_packet : Req → Packet
  data_packet : Data → Packet
  grant_packet : Grant → Packet
  resend_packet : Resend → Packet
  error_packet : ErrorPacket → Packet
  meta_packet : Meta → Packet
  hello_packet : Hello → Packet
  data_seq_packet : DataSeq → Packet
  resend_seq_packet : ResendSeq → Packet

-- Why MalformedPacketError was thrown, one constructor for each kind of message.
pub data Malformed : Type 0 where
  short_header bad_length empty_asset_id not_utf8 truncated_meta trailing_meta : Malformed
  unknown_type data_bounds empty_range not_u64 not_u32 not_u8 bad_unicode : Malformed
  asset_id_length many_fields unknown_name repeated_name bad_value : Malformed

pub data Result {ℓ} (A : Type ℓ) : Type ℓ where
  ok : A → Result A
  err : Malformed → Result A

infixl 5 ◌>>=◌ ◌>>◌
-- A thrown error skips the rest.
abbrev pub ◌>>=◌ {ℓ κ} : {X : Type ℓ} {Y : Type κ} → Result X → (X → Result Y) → Result Y
err why >>= next = err why
ok x >>= next = next x

abbrev pub ◌>>◌ {κ} : {Y : Type κ} → Result (Unit {0}) → Result Y → Result Y
err why >> next = err why
ok x >> next = next

-- maxPayload: `Math.max(0, maxDatagramSize - DATA_HEADER_LEN)`.
unfoldable pub max_payload : ℕ → ℕ
max_payload max_datagram_size = max_datagram_size - data_header_len

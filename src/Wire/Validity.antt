-- ===== src/Wire/Validity.antt =====
-- The layout's rules for packets: encode accepts exactly the packets that keep them.
pub mod Decoded
use http.Common.{
  ℕ, zero, suc, ◌+◌, ◌*◌, ◌^◌, ◌≤◌, ◌<◌, ◌≡◌, refl, ap, sym, ◌∙◌, Bool, true, false, not, ◌||◌,
  List, ◌↔◌, Option, none, some, subst, Bool-cases, inl, inr, [], ◌∷◌, ◌++◌, arith, length, get_or,
  All, ltb, leb, ◌==◌, if◌then◌else◌,
}
use http.Wire.Types.{
  Str, Packet, Req, req_packet, data_packet, grant_packet, resend_packet, error_packet, meta_packet,
  hello_packet, data_seq_packet, resend_seq_packet, Result, ok, err, ◌>>=◌, ◌>>◌, Malformed,
  bad_length, data_bounds, empty_range, empty_asset_id, trailing_meta,
}
use http.Wire.Bytes.{get_u8, get_u16, get_u32, get_u64, sub_from}
use http.Wire.Checks.{
  Utf8, check, check_data_bounds, check_resend_range, check_meta, check_u64, check_u32, check_u8,
}
use http.Wire.MetaRules.{IsMeta, check_meta_lem}
use http.Wire.Encode.{
  encode, encode_body, packet_rpc_id, encode_req, encode_data, encode_grant, encode_resend,
  encode_error, encode_meta, encode_hello, encode_data_seq, encode_resend_seq,
}
use http.Wire.Decode.{
  decode, decode_body, decode_req, decode_data, decode_grant, decode_resend, decode_error,
  decode_meta, decode_hello, decode_data_seq, decode_resend_seq, decoded_id, meta_result, meta_loop,
}

abbrev pub IsByte : ℕ → Type 0
IsByte b = b < 256

abbrev pub IsU32 : ℕ → Type 0
IsU32 n = n < 2 ^ 32

-- The layout's rules for each type of packet.
abbrev pub IsBody : Utf8 → Packet → Type 0
IsBody u (req_packet p) =
    IsU32 p.initial_grant
    × (u.is_well_formed p.asset_id ≡ true)
    × (0 < length (u.encode_text p.asset_id))
    × (length (u.encode_text p.asset_id) < 2 ^ 16)
IsBody u (data_packet p) =
    IsU32 p.total_size × IsU32 p.offset × (p.offset + length p.payload ≤ p.total_size)
IsBody u (grant_packet p) = IsU32 p.max_offset × IsByte p.priority
IsBody u (resend_packet p) = IsU32 p.start × IsU32 p.stop × (p.start < p.stop)
IsBody u (error_packet p) = IsByte p.code
IsBody u (meta_packet p) = IsMeta p.fields
IsBody u (hello_packet p) = IsU32 p.caps
IsBody u (data_seq_packet p) =
    IsU32 p.total_size × IsU32 p.offset × IsU32 p.seq × (p.offset + length p.payload ≤ p.total_size)
IsBody u (resend_seq_packet p) = IsU32 p.start × IsU32 p.stop × (p.start < p.stop)

abbrev pub IsValid : Utf8 → Packet → Type 0
IsValid u p = (packet_rpc_id p < 2 ^ 64) × IsBody u p

abbrev pub is_ok {ℓ} : {A : Type ℓ} → Result A → Bool
is_ok (ok a) = true
is_ok (err e) = false

checked-is_ok : (r : Result (Unit {0})) (b : List ℕ) → (is_ok (r >> ok b) ≡ true) ↔ (r ≡ ok tt)
checked-is_ok (ok tt) b = ((λ h. refl), (λ h. refl))
checked-is_ok (err e) b = ((λ h. cc), (λ h. cc))

module _ (u : Utf8) where
  encode_body-is_ok : (p : Packet) → (is_ok (encode_body u p) ≡ true) ↔ IsBody u p
  unfolding encode_body encode_req encode_data encode_grant encode_resend encode_error encode_meta
      encode_hello encode_data_seq encode_resend_seq check_u32 check_u8 check_data_bounds
      check_resend_range
  encode_body-is_ok (req_packet p) = ground arith
  encode_body-is_ok (data_packet p) = ground arith
  encode_body-is_ok (grant_packet p) = ground arith
  encode_body-is_ok (resend_packet p) = ground arith
  encode_body-is_ok (error_packet p) = ground arith
  encode_body-is_ok (meta_packet p) =
      let checked = checked-is_ok (check_meta p.fields) _ in
      let rules = check_meta_lem p.fields in
      ((λ h. rules.0 (checked.0 h)), (λ h. checked.1 (rules.1 h)))
  encode_body-is_ok (hello_packet p) = ground arith
  encode_body-is_ok (data_seq_packet p) = ground arith
  encode_body-is_ok (resend_seq_packet p) = ground arith

  -- encode accepts exactly the packets that keep the layout's rules. Those of a META: only
  -- names that the layout lists, no name twice, and values of printable ASCII that neither begin
  -- nor end with a space, not too long.
  pub encode-is_ok : (p : Packet) → (is_ok (encode u p) ≡ true) ↔ IsValid u p
  unfolding encode check_u64
  encode-is_ok p = ground (arith, encode_body-is_ok p)

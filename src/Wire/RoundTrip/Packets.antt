-- ===== src/Wire/RoundTrip/Packets.antt =====
-- decode after encode, for every packet.
use http.Common.{ℕ, ◌<◌, ◌≡◌, refl, ap, sym, ◌∙◌, true, false, List, ◌∷◌, arith, subst, ◌^◌}
use http.Wire.Types.{
  Str, Packet, Req, req_packet, data_packet, grant_packet, resend_packet, error_packet, meta_packet,
  hello_packet, data_seq_packet, resend_seq_packet, Result, ok,
}
use http.Wire.Checks.{Utf8, Utf8Laws, starts_with_bom, byte_order_mark}
use http.Wire.Encode.{encode, encode_body, encode_req, packet_rpc_id}
use http.Wire.Decode.{
  decode, decode_body, decode_req, decode_data, decode_grant, decode_resend, decode_error,
  decode_meta, decode_hello, decode_data_seq, decode_resend_seq,
}
use http.Wire.RoundTrip.Layout.{Trip, decode-head}
use http.Wire.RoundTrip.Checked.{u64_passed}
use http.Wire.RoundTrip.Fixed.{grant-Trip, resend-Trip, error-Trip, hello-Trip, resend_seq-Trip}
use http.Wire.RoundTrip.Payload.{data-Trip, data_seq-Trip, req-Trip}
use http.Wire.RoundTrip.MetaTrip.{meta-Trip}

-- The decoder of one type, behind the header.
through :
    (u : Utf8) (type rpc_id : ℕ) (decoder : List ℕ → ℕ → Result Packet) (p : Packet) (b : List ℕ)
    → type < 256
    → rpc_id < 2 ^ 64
    → ((c : List ℕ) → decode_body u c rpc_id type ≡ decoder c rpc_id)
    → Trip type rpc_id decoder p b
    → decode u b ≡ ok p
through u type rpc_id decoder p b ht hr same (body, e, h) =
    ap (decode u) e
    ∙ decode-head u type rpc_id body ht hr
    ∙ ap (λ c. decode_body u c rpc_id type) (sym e)
    ∙ same b
    ∙ h

-- No byte order mark at the front of a REQ's asset id.
abbrev pub HasNoBom : Packet → Type 0
HasNoBom (req_packet p) = starts_with_bom p.asset_id ≡ false
HasNoBom (data_packet p) = Unit
HasNoBom (grant_packet p) = Unit
HasNoBom (resend_packet p) = Unit
HasNoBom (error_packet p) = Unit
HasNoBom (meta_packet p) = Unit
HasNoBom (hello_packet p) = Unit
HasNoBom (data_seq_packet p) = Unit
HasNoBom (resend_seq_packet p) = Unit

module _ (u : Utf8) (laws : Utf8Laws u) where
  req_well_formed :
      (p : Req) (b : List ℕ) → encode_req u p ≡ ok b → u.is_well_formed p.asset_id ≡ true
  unfolding encode_req
  req_well_formed p b e = ground arith

  body_trip :
      (p : Packet) (b : List ℕ)
      → packet_rpc_id p < 2 ^ 64
      → HasNoBom p
      → encode_body u p ≡ ok b
      → decode u b ≡ ok p
  unfolding encode_body decode_body
  body_trip (req_packet p) b h n e =
      through u 1 p.rpc_id (decode_req u) _ b (omega arith) h (λ c. refl)
        (req-Trip u p p.asset_id b (laws.decode-encode p.asset_id (req_well_formed p b e) n) e)
  body_trip (data_packet p) b h n e =
      through u 2 p.rpc_id decode_data _ b (omega arith) h (λ c. refl) (data-Trip p b e)
  body_trip (grant_packet p) b h n e =
      through u 3 p.rpc_id decode_grant _ b (omega arith) h (λ c. refl) (grant-Trip p b e)
  body_trip (resend_packet p) b h n e =
      through u 4 p.rpc_id decode_resend _ b (omega arith) h (λ c. refl) (resend-Trip p b e)
  body_trip (error_packet p) b h n e =
      through u 5 p.rpc_id decode_error _ b (omega arith) h (λ c. refl) (error-Trip p b e)
  body_trip (meta_packet p) b h n e =
      through u 6 p.rpc_id decode_meta _ b (omega arith) h (λ c. refl) (meta-Trip p b e)
  body_trip (hello_packet p) b h n e =
      through u 7 p.rpc_id decode_hello _ b (omega arith) h (λ c. refl) (hello-Trip p b e)
  body_trip (data_seq_packet p) b h n e =
      through u 8 p.rpc_id decode_data_seq _ b (omega arith) h (λ c. refl) (data_seq-Trip p b e)
  body_trip (resend_seq_packet p) b h n e =
      through u 9 p.rpc_id decode_resend_seq _ b (omega arith) h (λ c. refl) (resend_seq-Trip p b e)

  -- Every packet that encode accepts is read back by decode as it was, if a REQ's asset id does
  -- not begin with a byte order mark. So encode refuses whatever decode would reject.
  pub decode-encode : (p : Packet) (b : List ℕ) → HasNoBom p → encode u p ≡ ok b → decode u b ≡ ok p
  unfolding encode
  decode-encode p b n e = let (h, e1) = u64_passed _ (packet_rpc_id p) e in body_trip p b h n e1

  -- A REQ whose asset id begins with a byte order mark is encoded, and is read back as a REQ for
  -- the asset id without it.
  pub decode-encode_bom :
      (p : Req) (s : Str) (b : List ℕ)
      → p.asset_id ≡ byte_order_mark ∷ s
      → encode u (req_packet p) ≡ ok b
      → decode u b ≡ ok (req_packet (record p { asset_id = s }))
  unfolding encode encode_body decode_body
  decode-encode_bom p s b h e =
      let (r, e1) = u64_passed _ p.rpc_id e in
      through u 1 p.rpc_id (decode_req u) _ b (omega arith) r (λ c. refl)
        (req-Trip u p s b
          (ap (λ t. u.decode_text (u.encode_text t)) h
            ∙ laws.decode-encode_bom s
                (subst (λ t. u.is_well_formed t ≡ true) h (req_well_formed p b e1)))
          e1)

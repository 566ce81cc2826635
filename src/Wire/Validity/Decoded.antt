-- ===== src/Wire/Validity/Decoded.antt =====
-- The packets that decode yields keep the layout's rules.
use http.Common.{
  ℕ, zero, suc, ◌+◌, ◌^◌, ◌≤◌, ◌<◌, ◌≡◌, refl, Bool, true, false, not, List, Option, none, some,
  subst, Bool-cases, inl, inr, [], ◌∷◌, arith, length, All, ltb, leb, ◌==◌, if◌then◌else◌,
}
use http.Wire.Types.{
  Str, Packet, req_packet, data_packet, grant_packet, resend_packet, error_packet, meta_packet,
  hello_packet, data_seq_packet, resend_seq_packet, Result, ok, err, ◌>>=◌, ◌>>◌, Malformed,
  bad_length, data_bounds, empty_range, empty_asset_id, trailing_meta,
}
use http.Wire.Bytes.{get_u8, get_u16, get_u32, get_u64, sub_from}
use http.Wire.Checks.{Utf8, check, check_data_bounds, check_resend_range, check_meta}
use http.Wire.MetaRules.{IsMeta, check_meta_lem}
use http.Wire.Encode.{packet_rpc_id}
use http.Wire.Decode.{
  decode, decode_body, decode_req, decode_data, decode_grant, decode_resend, decode_error,
  decode_meta, decode_hello, decode_data_seq, decode_resend_seq, decoded_id, meta_result, meta_loop,
}
use http.Wire.Validity.{IsByte, IsBody, IsValid}

get_u8-lt : (b : List ℕ) (i : ℕ) → All IsByte b → get_u8 b i < 256
get_u8-lt [] i h = omega arith
get_u8-lt (x ∷ b) zero h = h.0
get_u8-lt (x ∷ b) (suc i) h = get_u8-lt b i h.1

get_u16-lt : (b : List ℕ) (i : ℕ) → All IsByte b → get_u16 b i < 2 ^ 16
unfolding get_u16
get_u16-lt b i h = omega (arith, get_u8-lt b i h, get_u8-lt b (i + 1) h)

get_u32-lt : (b : List ℕ) (i : ℕ) → All IsByte b → get_u32 b i < 2 ^ 32
unfolding get_u32
get_u32-lt b i h = omega (arith, get_u16-lt b i h, get_u16-lt b (i + 2) h)

get_u64-lt : (b : List ℕ) (i : ℕ) → All IsByte b → get_u64 b i < 2 ^ 64
unfolding get_u64
get_u64-lt b i h = omega (arith, get_u32-lt b i h, get_u32-lt b (i + 4) h)

-- A packet of another type than REQ, whose asset id the browser's decoder makes.
abbrev pub IsNotReq : Packet → Type 0
IsNotReq (req_packet p) = ⊥
IsNotReq (data_packet p) = Unit
IsNotReq (grant_packet p) = Unit
IsNotReq (resend_packet p) = Unit
IsNotReq (error_packet p) = Unit
IsNotReq (meta_packet p) = Unit
IsNotReq (hello_packet p) = Unit
IsNotReq (data_seq_packet p) = Unit
IsNotReq (resend_seq_packet p) = Unit

-- What one case of decode yields, for the given rpc id.
data Yields (u : Utf8) (r : ℕ) : Result Packet → Type 0 where
  yields : {p : Packet} → (IsNotReq p → (packet_rpc_id p ≡ r) × IsBody u p) → Yields u r (ok p)
  fails : {e : Malformed} → Yields u r (err e)

module _ (u : Utf8) (r : ℕ) where
  check-Yields :
      (c : Bool) (e : Malformed) (m : Result Packet)
      → (c ≡ false → Yields u r m)
      → Yields u r (check c (err e) >> m)
  check-Yields true e m h = fails
  check-Yields false e m h = h refl

  decoded_id-Yields : (g : ℕ) (id : Option Str) → Yields u r (decoded_id r g id)
  decoded_id-Yields g none = fails
  decoded_id-Yields g (some id) = yields (λ n. absurd n)

  meta_check-Yields :
      (fields : List (Str × Str)) (c : Result (Unit {0}))
      → (c ≡ ok tt → IsMeta fields)
      → Yields u r (c >> ok (meta_packet (record { rpc_id = r; fields = fields })))
  meta_check-Yields fields (ok tt) h =
      yields {p = meta_packet (record { rpc_id = r; fields = fields })} (λ n. (refl, h refl))
  meta_check-Yields fields (err e) h = fails

  meta_loop-Yields :
      (b : List ℕ) (m : Result (ℕ × List (Str × Str))) → Yields u r (m >>= meta_result b r)
  meta_loop-Yields b (ok (at, fields)) =
      check-Yields (not (at == length b)) trailing_meta _
        (λ _. meta_check-Yields fields (check_meta fields) (check_meta_lem fields).0)
  meta_loop-Yields b (err e) = fails

  module _ (b : List ℕ) (h : All IsByte b) where
    range-Yields :
        (p : Packet)
        → ((get_u32 b 9 < get_u32 b 13) → (packet_rpc_id p ≡ r) × IsBody u p)
        → Yields u r (check_resend_range (get_u32 b 9) (get_u32 b 13) >> ok p)
    unfolding check_resend_range
    range-Yields p k =
        check-Yields (leb (get_u32 b 13) (get_u32 b 9)) empty_range (ok p)
          (λ c. yields {p = p} (λ _. k (ground arith)))

    bounds-Yields :
        (p : Packet) (payload : List ℕ)
        → ((get_u32 b 13 + length payload ≤ get_u32 b 9) → (packet_rpc_id p ≡ r) × IsBody u p)
        → Yields u r (check_data_bounds (get_u32 b 13) payload (get_u32 b 9) >> ok p)
    unfolding check_data_bounds
    bounds-Yields p payload k =
        check-Yields (ltb (get_u32 b 9) (get_u32 b 13 + length payload)) data_bounds (ok p)
          (λ c. yields {p = p} (λ _. k (ground arith)))

    length-Yields :
        (n : ℕ) (m : Result Packet)
        → Yields u r m
        → Yields u r (check (not (length b == n)) (err bad_length) >> m)
    length-Yields n m y = check-Yields (not (length b == n)) bad_length m (λ _. y)

    least-Yields :
        (n : ℕ) (m : Result Packet)
        → Yields u r m
        → Yields u r (check (ltb (length b) n) (err bad_length) >> m)
    least-Yields n m y = check-Yields (ltb (length b) n) bad_length m (λ _. y)

    abbrev data_at : Packet
    data_at = data_packet (record {
      rpc_id = r;
      total_size = get_u32 b 9;
      offset = get_u32 b 13;
      payload = sub_from b 17;
    })

    data-Yields : Yields u r (decode_data b r)
    unfolding decode_data
    data-Yields =
        least-Yields 17 _
          (bounds-Yields data_at _ λ h'. (refl, (get_u32-lt b 9 h, get_u32-lt b 13 h, h')))

    abbrev data_seq_at : Packet
    data_seq_at = data_seq_packet (record {
      rpc_id = r;
      total_size = get_u32 b 9;
      offset = get_u32 b 13;
      seq = get_u32 b 17;
      payload = sub_from b 21;
    })

    data_seq-Yields : Yields u r (decode_data_seq b r)
    unfolding decode_data_seq
    data_seq-Yields = least-Yields 21 _ (
        bounds-Yields data_seq_at _
          λ h'. (refl, (get_u32-lt b 9 h, get_u32-lt b 13 h, get_u32-lt b 17 h, h')))

    abbrev grant_at : Packet
    grant_at =
        grant_packet (record { rpc_id = r; max_offset = get_u32 b 9; priority = get_u8 b 13 })

    grant-Yields : Yields u r (decode_grant b r)
    unfolding decode_grant
    grant-Yields =
        length-Yields 14 _
          (yields {p = grant_at} (λ n. (refl, (get_u32-lt b 9 h, get_u8-lt b 13 h))))

    abbrev resend_at : Packet
    resend_at = resend_packet (record { rpc_id = r; start = get_u32 b 9; stop = get_u32 b 13 })

    resend-Yields : Yields u r (decode_resend b r)
    unfolding decode_resend
    resend-Yields =
        length-Yields 17 _
          (range-Yields resend_at λ h'. (refl, (get_u32-lt b 9 h, get_u32-lt b 13 h, h')))

    abbrev resend_seq_at : Packet
    resend_seq_at =
        resend_seq_packet (record { rpc_id = r; start = get_u32 b 9; stop = get_u32 b 13 })

    resend_seq-Yields : Yields u r (decode_resend_seq b r)
    unfolding decode_resend_seq
    resend_seq-Yields =
        length-Yields 17 _
          (range-Yields resend_seq_at λ h'. (refl, (get_u32-lt b 9 h, get_u32-lt b 13 h, h')))

    abbrev error_at : Packet
    error_at = error_packet (record { rpc_id = r; code = get_u8 b 9 })

    error-Yields : Yields u r (decode_error b r)
    unfolding decode_error
    error-Yields = length-Yields 10 _ (yields {p = error_at} (λ n. (refl, get_u8-lt b 9 h)))

    abbrev hello_at : Packet
    hello_at = hello_packet (record { rpc_id = r; caps = get_u32 b 9 })

    hello-Yields : Yields u r (decode_hello b r)
    unfolding decode_hello
    hello-Yields = length-Yields 13 _ (yields {p = hello_at} (λ n. (refl, get_u32-lt b 9 h)))

    meta-Yields : Yields u r (decode_meta b r)
    unfolding decode_meta
    meta-Yields = least-Yields 10 _ (meta_loop-Yields b (meta_loop (get_u8 b 9) b 10 []))

    req-Yields : Yields u r (decode_req u b r)
    unfolding decode_req
    req-Yields = least-Yields 15 _ (
        check-Yields (get_u16 b 13 == 0) empty_asset_id _ (λ _.
          length-Yields (15 + get_u16 b 13) _
            (decoded_id-Yields (get_u32 b 9) (u.decode_text (sub_from b 15)))))

    if-Yields :
        (c : Bool) (x y : Result Packet)
        → Yields u r x
        → Yields u r y
        → Yields u r (if c then x else y)
    if-Yields true x y p q = p
    if-Yields false x y p q = q

    body-Yields : (type : ℕ) → Yields u r (decode_body u b r type)
    unfolding decode_body
    body-Yields type = if-Yields (type == 1) _ _ req-Yields (
        if-Yields (type == 2) _ _ data-Yields (
          if-Yields (type == 3) _ _ grant-Yields (
            if-Yields (type == 4) _ _ resend-Yields (
              if-Yields (type == 5) _ _ error-Yields (
                if-Yields (type == 6) _ _ meta-Yields (
                  if-Yields (type == 7) _ _ hello-Yields (
                    if-Yields (type == 8) _ _ data_seq-Yields
                      (if-Yields (type == 9) _ _ resend_seq-Yields fails))))))))

abbrev Yielded : Utf8 → ℕ → Result Packet → Type 0
Yielded u r (ok p) = IsNotReq p → (packet_rpc_id p ≡ r) × IsBody u p
Yielded u r (err e) = Unit

Yields-Yielded : (u : Utf8) (r : ℕ) {m : Result Packet} → Yields u r m → Yielded u r m
Yields-Yielded u r (yields h) = h
Yields-Yielded u r fails = tt

-- A datagram of bytes that decode accepts as another packet than a REQ is within the layout's
-- rules, so encode accepts the packet.
pub decode-IsValid :
    (u : Utf8) (b : List ℕ) (p : Packet)
    → All IsByte b
    → IsNotReq p
    → decode u b ≡ ok p
    → IsValid u p
unfolding decode
decode-IsValid u b p h n e =
    let y : Yields u (get_u64 b 1) (decode u b) = elim (Bool-cases (ltb (length b) 9)) [
      | inl c ↦ rw c fails
      | inr c ↦ rw c (body-Yields u (get_u64 b 1) b h (get_u8 b 0))
    ] in
    let (id, body) = subst (Yielded u (get_u64 b 1)) e (Yields-Yielded u (get_u64 b 1) y) n in
    (omega (arith, id, get_u64-lt b 1 h), body)

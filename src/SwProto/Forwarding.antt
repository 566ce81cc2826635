-- ===== src/SwProto/Forwarding.antt =====
-- client/src/swproto.ts: the requests that go to the tab, and the body that reaches the worker.
use http.Common.{
  ℕ, ◌≡◌, ◌↔◌, ◌≤◌, refl, true, false, ◌&&◌, Option, none, some, List, str_eq, if_cases, arith,
  take, drop, length, take_all, ap, sym, ◌∙◌, ◌==◌,
}
use http.Wire.Types.{Str}
use http.Fetcher.{Url, http4, Served, View}
use http.SwProto.{
  UrlParser, InterceptInput, forward, leave_to_network, leave_url, is_bootstrap, is_read, is_empty,
  navigate_mode, http4_reply, serve_reply, view_bytes, body_buffer, map_body, buffers,
}

-- A parsed URL that the worker may take from the network.
abbrev pub IsOurs : Str → Option Url → Type 0
IsOurs origin none = ⊥
IsOurs origin (some url) = (str_eq url.origin origin ≡ true) × (is_bootstrap url.pathname ≡ false)

leave_url-forward :
    (o : Option Url) (r : InterceptInput) (origin : Str)
    → (leave_url o r origin ≡ forward)
      ↔ (IsOurs origin o × (r.has_range ≡ false) × (is_empty r.client_id ≡ false))
unfolding leave_url
leave_url-forward none r origin = (λ e. absurd (cc e), λ h. absurd h.0)
leave_url-forward (some url) r origin = ground arith

-- The worker forwards a request to its tab exactly when it is a GET or HEAD of a client, no
-- navigation and no range request, for a URL of this origin that is no file of the client itself.
pub leave_to_network_iff :
    (parse : UrlParser) (r : InterceptInput) (origin : Str)
    → (leave_to_network parse r origin ≡ forward) ↔ (
        (str_eq r.mode navigate_mode ≡ false)
        × (is_read r.method ≡ true)
        × IsOurs origin (parse r.url)
        × (r.has_range ≡ false)
        × (is_empty r.client_id ≡ false))
unfolding leave_to_network
leave_to_network_iff parse r origin = ground (arith, leave_url-forward (parse r.url) r origin)

body_buffer-view_bytes : (v : View) → body_buffer v ≡ view_bytes v
body_buffer-view_bytes v =
    if_cases (λ (b : List ℕ). b ≡ view_bytes v)
      (v.byte_offset == 0 && (v.byte_length == length v.buffer)) _ _
      (λ e.
        let start : v.byte_offset ≡ 0 = ground arith in
        let whole : length v.buffer ≤ v.byte_length = ground arith in
        sym (
          ap (λ k. take v.byte_length (drop k v.buffer)) start
          ∙ take_all v.byte_length v.buffer whole))
      (λ e. refl)

abbrev pub bytes_of : Option View → Option (List ℕ)
bytes_of none = none
bytes_of (some v) = some (view_bytes v)

map_body-bytes_of : (o : Option View) → map_body o ≡ bytes_of o
map_body-bytes_of none = refl
map_body-bytes_of (some v) = ap some (body_buffer-view_bytes v)

-- The reply for a buffered outcome carries exactly its bytes, whether the view is its whole buffer
-- or a part of it, and transfers exactly the buffer it carries.
pub serve_reply-bytes :
    (o : Served)
    → o.stream ≡ none
    → serve_reply (http4 o) ≡ (
      http4_reply (record {
        status = o.status;
        headers = o.headers;
        body = bytes_of o.body;
        stream = none;
        length = o.length;
      }),
      buffers (bytes_of o.body),
    )
unfolding serve_reply
serve_reply-bytes o e = rw e rw (map_body-bytes_of o.body) refl

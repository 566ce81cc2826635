-- ===== src/SwProto.antt =====
-- client/src/swproto.ts: which requests the service worker leaves to the network, how long one waits,
-- and the reply that carries an outcome. Strings are lists of code units.
pub mod Forwarding
use http.Common.{
  ℕ, ◌+◌, Bool, true, false, not, ◌&&◌, ◌||◌, Option, none, some, List, [], ◌∷◌, if◌then◌else◌,
  str_eq, length, ◌==◌, take, drop,
}
use http.Wire.Types.{Str}
use http.Priority.{starts_with, one_of, style_dest, script_dest, image_dest, video_dest, audio_dest}
use http.Fetcher.{
  Url, View, Served, Http4Outcome, http4, fallback, platform, Reason, get_method, head_method,
}

-- "/http4-sw.js", "/http4/" and "/config.json".
abbrev pub sw_url : Str
sw_url = 47 ∷ 104 ∷ 116 ∷ 116 ∷ 112 ∷ 52 ∷ 45 ∷ 115 ∷ 119 ∷ 46 ∷ 106 ∷ 115 ∷ []

abbrev pub client_dir : Str
client_dir = 47 ∷ 104 ∷ 116 ∷ 116 ∷ 112 ∷ 52 ∷ 47 ∷ []

abbrev pub bootstrap_paths : List Str
bootstrap_paths =
    sw_url ∷ (47 ∷ 99 ∷ 111 ∷ 110 ∷ 102 ∷ 105 ∷ 103 ∷ 46 ∷ 106 ∷ 115 ∷ 111 ∷ 110 ∷ []) ∷ []

-- "navigate".
abbrev pub navigate_mode : Str
navigate_mode = 110 ∷ 97 ∷ 118 ∷ 105 ∷ 103 ∷ 97 ∷ 116 ∷ 101 ∷ []

-- `new URL(s)`, which throws on what is not a URL.
abbrev pub UrlParser : Type 0
UrlParser = Str → Option Url

pub record InterceptInput : Type 0 where
  pub url : Str
  pub method : Str
  pub mode : Str
  pub has_range : Bool
  pub client_id : Str

-- Why a request is left to the network; `forward` stands for null, `bad_url` for the TypeError.
pub data Decision : Type 0 where
  forward navigation cross_origin bootstrap_file range_request no_client bad_url : Decision
  wrong_method : Str → Decision

abbrev pub is_empty : Str → Bool
is_empty [] = true
is_empty (c ∷ s) = false

abbrev pub is_bootstrap : Str → Bool
is_bootstrap pathname = starts_with pathname client_dir || one_of pathname bootstrap_paths

abbrev pub is_read : Str → Bool
is_read method = str_eq method get_method || str_eq method head_method

-- The tests from `new URL` on.
unfoldable pub leave_url : Option Url → InterceptInput → Str → Decision
leave_url none r origin = bad_url
leave_url (some url) r origin =
    if not (str_eq url.origin origin)
    then cross_origin
    else (if is_bootstrap url.pathname
        then bootstrap_file
        else (if r.has_range
            then range_request
            else (if is_empty r.client_id then no_client else forward)))

unfoldable pub leave_to_network : UrlParser → InterceptInput → Str → Decision
leave_to_network parse r origin =
    if str_eq r.mode navigate_mode
    then navigation
    else (if not (is_read r.method)
        then wrong_method r.method
        else leave_url (parse r.url) r origin)

abbrev pub ready_timeout : ℕ
ready_timeout = 2000

abbrev pub ready_timeout_blocking : ℕ
ready_timeout_blocking = 400

abbrev pub ready_timeout_bulk : ℕ
ready_timeout_bulk = 6000

unfoldable pub ready_timeout_ms : Str → ℕ
ready_timeout_ms destination =
    if one_of destination (style_dest ∷ script_dest ∷ [])
    then ready_timeout_blocking
    else (if one_of destination (image_dest ∷ video_dest ∷ audio_dest ∷ [])
        then ready_timeout_bulk
        else ready_timeout)

-- The bytes of a view on a buffer.
abbrev pub view_bytes : View → List ℕ
view_bytes v = take v.byte_length (drop v.byte_offset v.buffer)

pub record ServedReply : Type 0 where
  pub status : ℕ
  pub headers : List (Str × Str)
  pub body : Option (List ℕ)
  pub stream : Option ℕ
  pub length : Option ℕ

pub data ServeReply : Type 0 where
  http4_reply : ServedReply → ServeReply
  fallback_reply platform_reply : Reason → ServeReply

-- What postMessage transfers.
pub data Transferable : Type 0 where
  buffer : List ℕ → Transferable
  readable : ℕ → Transferable

-- The buffer of a whole view, else a copy of its bytes.
abbrev pub body_buffer : View → List ℕ
body_buffer v =
    if v.byte_offset == 0 && (v.byte_length == length v.buffer) then v.buffer else view_bytes v

abbrev pub map_body : Option View → Option (List ℕ)
map_body none = none
map_body (some v) = some (body_buffer v)

abbrev pub buffers : Option (List ℕ) → List Transferable
buffers none = []
buffers (some b) = buffer b ∷ []

abbrev pub reply_of : Option ℕ → Served → ServeReply × List Transferable
reply_of (some s) o = (
  http4_reply (record {
    status = o.status;
    headers = o.headers;
    body = none;
    stream = some s;
    length = o.length;
  }),
  readable s ∷ [],
)
reply_of none o = (
  http4_reply (record {
    status = o.status;
    headers = o.headers;
    body = map_body o.body;
    stream = none;
    length = o.length;
  }),
  buffers (map_body o.body),
)

unfoldable pub serve_reply : Http4Outcome → ServeReply × List Transferable
serve_reply (http4 o) = reply_of o.stream o
serve_reply (fallback reason) = (fallback_reply reason, [])
serve_reply (platform reason) = (platform_reply reason, [])

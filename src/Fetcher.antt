-- ===== src/Fetcher.antt =====
-- client/src/fetcher.ts, class Http4Fetcher: how one request is served, and its report. A promise is
-- what it settles to; the clock and the onRequest callback are left out of a report.
pub mod Fetching
pub mod Reports
pub mod Mapping
use http.Common.{
  ℕ, ◌+◌, ◌/◌, ◌%◌, zero, suc, Bool, true, false, not, ◌&&◌, ◌||◌, Option, none, some, List, [],
  ◌∷◌, ◌++◌, if◌then◌else◌, str_eq, ◌==◌, length, ltb, drop,
}
use http.Wire.Types.{Str, not_found, bad_request, unknown_rpc}
use http.Priority.{PriorityClass, ClassMap, class_for}

-- What the code reads of a parsed URL.
pub record Url : Type 0 where
  pub origin : Str
  pub pathname : Str

-- A Uint8Array: a view on a buffer.
pub record View : Type 0 where
  pub buffer : List ℕ
  pub byte_offset : ℕ
  pub byte_length : ℕ

-- What a failed HTTP4 request throws: an Http4Error with its code, or another value.
pub data Failure : Type 0 where
  http4_error : Option ℕ → Str → Failure
  other_error : Str → Failure

-- `reason` strings, one constructor for each text.
pub data Reason : Type 0 where
  not_asset_path session_closed no_session cross_origin has_body range_request : Reason
  unavailable : Str → Reason
  wrong_method : Str → Reason
  http4_failed : ℕ → Str → Reason
  platform_failed : Reason → Reason

-- Http4Outcome; a stream is named by a number.
pub record Served : Type 0 where
  pub status : ℕ
  pub headers : List (Str × Str)
  pub body : Option View
  pub stream : Option ℕ
  pub length : Option ℕ

pub data Http4Outcome : Type 0 where
  http4 : Served → Http4Outcome
  fallback platform : Reason → Http4Outcome

pub record Http4Response : Type 0 where
  pub body : View
  pub headers : List (Str × Str)

pub record Http4Stream : Type 0 where
  pub body : ℕ
  pub size : ℕ
  pub headers : List (Str × Str)

-- What `abortable(p, signal)` settles to; `aborted` is a rejection with the signal's reason.
pub data Settled (A : Type 0) : Type 0 where
  fulfilled : A → Settled A
  rejected : Failure → Settled A
  aborted : Settled A

-- An AssetRequester, with what its requests settle to; without `request_stream` it cannot stream.
pub record Session : Type 0 where
  pub is_open : Bool
  pub request : Str → PriorityClass → Settled Http4Response
  pub request_stream : Option (Str → PriorityClass → Settled Http4Stream)

pub record Fetcher : Type 0 where
  pub session : Option Session
  pub unavailable_reason : Option Str
  pub base_origin : Str
  pub path_to_asset_id : Url → Option Str
  pub report_limit : ℕ
  pub streams : Bool
  pub classes : ClassMap

-- `httpStatusFor` of transport.ts.
abbrev pub status_for_code : ℕ → ℕ
status_for_code code =
    if code == not_found
    then 404
    else (if code == bad_request then 400 else (if code == unknown_rpc then 503 else 502))

unfoldable pub http_status_for : Failure → ℕ
http_status_for (http4_error none msg) = 502
http_status_for (http4_error (some code) msg) = status_for_code code
http_status_for (other_error msg) = 502

abbrev pub message : Failure → Str
message (http4_error code msg) = msg
message (other_error msg) = msg

-- `e instanceof Http4Error && e.code === ErrorCode.NOT_FOUND`.
abbrev pub is_not_found : Failure → Bool
is_not_found (http4_error none msg) = false
is_not_found (http4_error (some code) msg) = code == not_found
is_not_found (other_error msg) = false

-- `String(n)`: decimal digits; the fuel is more than there are.
abbrev pub decimal_from : ℕ → ℕ → Str → Str
decimal_from zero n acc = acc
decimal_from (suc fuel) n acc =
    let rest = decimal_from fuel (n / 10) ((48 + n % 10) ∷ acc) in
    if ltb n 10 then (48 + n) ∷ acc else rest

unfoldable pub decimal : ℕ → Str
decimal n = decimal_from (suc n) n []

-- "content-length".
abbrev pub content_length : Str
content_length =
    99 ∷ 111 ∷ 110 ∷ 116 ∷ 101 ∷ 110 ∷ 116 ∷ 45 ∷ 108 ∷ 101 ∷ 110 ∷ 103 ∷ 116 ∷ 104 ∷ []

unfoldable pub meta_headers : List (Str × Str) → ℕ → List (Str × Str)
meta_headers meta size = meta ++ ((content_length, decimal size) ∷ [])

unfoldable pub headers_for : Http4Response → List (Str × Str)
headers_for r = meta_headers r.headers r.body.byte_length

-- "GET" and "HEAD".
abbrev pub get_method : Str
get_method = 71 ∷ 69 ∷ 84 ∷ []

abbrev pub head_method : Str
head_method = 72 ∷ 69 ∷ 65 ∷ 68 ∷ []

-- `session?.isOpen ?? false`.
abbrev pub session_open : Option Session → Bool
session_open none = false
session_open (some s) = s.is_open

unfoldable pub available : Fetcher → Bool
available f = session_open f.session

-- What `outcome` gives: an outcome, or the signal's reason thrown.
pub data Tried : Type 0 where
  tried : Http4Outcome → Tried
  threw : Tried

-- The catch block.
abbrev pub caught : Failure → Http4Outcome
caught e =
    if is_not_found e
    then http4 (record { status = 404; headers = []; body = none; stream = none; length = none })
    else fallback (http4_failed (http_status_for e) (message e))

abbrev pub after_stream : Settled Http4Stream → Tried
after_stream (fulfilled s) = tried (
    http4 (record {
      status = 200;
      headers = meta_headers s.headers s.size;
      body = none;
      stream = some s.body;
      length = some s.size;
    }))
after_stream (rejected e) = tried (caught e)
after_stream aborted = threw

abbrev pub after_request : Bool → Settled Http4Response → Tried
after_request is_head (fulfilled r) = tried (
    http4 (record {
      status = 200;
      headers = headers_for r;
      body = if is_head then none else some r.body;
      stream = none;
      length = none;
    }))
after_request is_head (rejected e) = tried (caught e)
after_request is_head aborted = threw

-- The try block, on an open session.
unfoldable pub try_session :
    Bool
    → Option (Str → PriorityClass → Settled Http4Stream)
    → Session
    → Str
    → Str
    → PriorityClass
    → Tried
try_session streams none s id method cls =
    after_request (str_eq method head_method) (s.request id cls)
try_session streams (some request_stream) s id method cls =
    if streams && not (str_eq method head_method)
    then after_stream (request_stream id cls)
    else after_request (str_eq method head_method) (s.request id cls)

-- `unavailableReason` without a session.
abbrev pub closed_reason : Option Str → Reason
closed_reason none = no_session
closed_reason (some why) = unavailable why

unfoldable pub try_open : Fetcher → Option Session → Url → Str → Bool → Str → Str → Tried
try_open f none url method signal_aborted destination id =
    tried (fallback (closed_reason f.unavailable_reason))
try_open f (some s) url method signal_aborted destination id =
    let cls = class_for url.pathname destination f.classes in
    if not s.is_open
    then tried (fallback session_closed)
    else (if signal_aborted then threw else try_session f.streams s.request_stream s id method cls)

abbrev pub try_asset : Fetcher → Option Str → Url → Str → Bool → Str → Tried
try_asset f none url method signal_aborted destination = tried (platform not_asset_path)
try_asset f (some id) url method signal_aborted destination =
    try_open f f.session url method signal_aborted destination id

unfoldable pub outcome : Fetcher → Url → Str → Bool → Str → Tried
outcome f url method signal_aborted destination =
    try_asset f (f.path_to_asset_id url) url method signal_aborted destination

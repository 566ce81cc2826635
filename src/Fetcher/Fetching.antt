-- ===== src/Fetcher/Fetching.antt =====
-- client/src/fetcher.ts: `fetch`, with the platform fetch behind it and the log of reports.
use http.Common.{
  ℕ, Bool, not, ◌&&◌, Option, none, some, List, [], ◌∷◌, ◌++◌, if◌then◌else◌, str_eq, length, ltb,
  drop,
}
use http.Wire.Types.{Str}
use http.Fetcher.{
  Url, View, Served, http4, fallback, platform, Reason, wrong_method, cross_origin, has_body,
  range_request, platform_failed, get_method, head_method, Fetcher, Tried, tried, threw, outcome,
}

-- What `fetch` reads of its arguments.
pub record Request : Type 0 where
  pub method : Str
  pub url : Url
  pub body_given : Bool
  pub range_given : Bool
  pub signal_aborted : Bool

unfoldable pub ineligible : Fetcher → Request → Option Reason
ineligible f r =
    if not (str_eq r.method get_method) && not (str_eq r.method head_method)
    then some (wrong_method r.method)
    else (if not (str_eq r.url.origin f.base_origin)
        then some cross_origin
        else (if r.body_given
            then some has_body
            else (if r.range_given then some range_request else none)))

pub data Transport : Type 0 where
  by_http4 by_fallback by_platform : Transport

pub record RequestReport : Type 0 where
  pub url : Url
  pub method : Str
  pub transport : Transport
  pub status : ℕ
  pub bytes : Option ℕ
  pub reason : Option Reason

-- What the platform fetch settles to: a status and content-length, or it throws.
pub data PlatformReply : Type 0 where
  answered : ℕ → Option ℕ → PlatformReply
  failed : PlatformReply

pub data Response : Type 0 where
  from_http4 : Served → Response
  from_platform : ℕ → Response
  platform_threw abort_thrown : Response

-- `record`: the report joins the log, and the oldest one goes if there are too many.
unfoldable pub push_report : ℕ → List RequestReport → RequestReport → List RequestReport
push_report limit log r =
    let longer = log ++ (r ∷ []) in if ltb limit (length longer) then drop 1 longer else longer

abbrev pub platform_report : Request → Transport → Reason → PlatformReply → RequestReport
platform_report r transport reason (answered status len) = record {
  url = r.url;
  method = r.method;
  transport = transport;
  status = status;
  bytes = len;
  reason = some reason;
}
platform_report r transport reason failed = record {
  url = r.url;
  method = r.method;
  transport = transport;
  status = 0;
  bytes = none;
  reason = some (platform_failed reason);
}

abbrev pub platform_response : PlatformReply → Response
platform_response (answered status len) = from_platform status
platform_response failed = platform_threw

-- `o.stream ? (o.length ?? null) : (o.body?.length ?? 0)`.
abbrev pub report_bytes : Option ℕ → Option ℕ → Option View → Option ℕ
report_bytes (some s) len body = len
report_bytes none len none = some 0
report_bytes none len (some v) = some v.byte_length

abbrev pub http4_report : Request → Served → RequestReport
http4_report r o = record {
  url = r.url;
  method = r.method;
  transport = by_http4;
  status = o.status;
  bytes = report_bytes o.stream o.length o.body;
  reason = none;
}

-- The end of `fetch`, by what `outcome` gave.
unfoldable pub settle :
    ℕ → List RequestReport → Request → PlatformReply → Tried → Response × List RequestReport
settle limit log r reply (tried (http4 o)) =
    (from_http4 o, push_report limit log (http4_report r o))
settle limit log r reply (tried (fallback reason)) =
    (platform_response reply, push_report limit log (platform_report r by_fallback reason reply))
settle limit log r reply (tried (platform reason)) =
    (platform_response reply, push_report limit log (platform_report r by_platform reason reply))
settle limit log r reply threw = (abort_thrown, log)

abbrev pub fetch_after :
    Option Reason
    → Fetcher
    → List RequestReport
    → Request
    → PlatformReply
    → Response × List RequestReport
fetch_after (some skip) f log r reply = settle f.report_limit log r reply (tried (platform skip))
fetch_after none f log r reply =
    settle f.report_limit log r reply (outcome f r.url r.method r.signal_aborted [])

unfoldable pub fetch :
    Fetcher → List RequestReport → Request → PlatformReply → Response × List RequestReport
fetch f log r reply = fetch_after (ineligible f r) f log r reply

-- ===== src/Worker.antt =====
-- client/src/sw.ts: how the service worker serves one request, what it remembers of the request's tab,
-- and its log. What the worker awaits is an argument: whether the tab exists and answers hello, what
-- the wait for its session gives, what the forwarded request and the network give. The clock and the
-- copy of the log that goes to the tab are left out.
pub mod Waits
use http.Common.{
  ℕ, ◌+◌, Bool, true, false, not, ◌&&◌, ◌||◌, Option, none, some, List, [], ◌∷◌, ◌++◌, ltb,
  if◌then◌else◌, length, drop,
}
use http.Wire.Types.{Str}
use http.Priority.{starts_with}
use http.Fetcher.{Url, Reason}
use http.SwProto.{
  UrlParser, InterceptInput, Decision, forward, bad_url, leave_to_network, ready_timeout_ms,
  ServedReply, ServeReply, http4_reply, fallback_reply, platform_reply,
}

abbrev pub worker_report_limit : ℕ
worker_report_limit = 2000

-- A tab's answer to hello, once its session is open or has failed.
pub record Ready : Type 0 where
  pub available : Bool
  pub reason : Option Str
  pub asset_prefix : Option Str

pub record TabState : Type 0 where
  pub info : Option Ready
  pub gave_up : Bool

pub data Carrier : Type 0 where
  over_http4 by_fallback by_platform : Carrier

-- Why a request was not served over HTTP4, one constructor for each text.
pub data Why : Type 0 where
  tab_not_found no_bridge still_not_ready unavailable not_asset_path : Why
  not_ready_after : ℕ → Why
  unavailable_reason forwarding_failed : Str → Why
  page_reason : Reason → Why
  skipped : Decision → Why

pub record WorkerReport : Type 0 where
  pub url : Str
  pub method : Str
  pub destination : Str
  pub carrier : Carrier
  pub reason : Option Why
  pub status : ℕ
  pub bytes : Option ℕ
  pub client_id : Str

-- What `forward` settles to.
pub data Forwarded : Type 0 where
  replied : ServeReply → Forwarded
  failed : Str → Forwarded

-- A network answer's status and content-length.
pub record Network : Type 0 where
  pub status : ℕ
  pub length : Option ℕ

-- What the worker awaits for one request.
pub record Awaited : Type 0 where
  pub found : Bool
  pub acked : Bool
  pub ready : Option Ready
  pub forwarded : Forwarded
  pub network : Network

pub data Choice : Type 0 where
  leave : Carrier → Why → Choice
  take : ServedReply → Choice

-- A request's choice, the tab behind it, and how long the request was held for nothing.
pub record Served : Type 0 where
  pub choice : Choice
  pub tab : Option TabState
  pub held : ℕ

abbrev pub new_tab : TabState
new_tab = record { info = none; gave_up = false }

-- `tabs.get(clientId) ?? hello(client)`.
abbrev pub tab_or_hello : Option TabState → TabState
tab_or_hello none = new_tab
tab_or_hello (some tab) = tab

-- `info.reason ?? "HTTP4 unavailable in tab"`.
abbrev pub why_unavailable : Option Str → Why
why_unavailable none = unavailable
why_unavailable (some reason) = unavailable_reason reason

-- `info.assetPrefix !== null && !pathname.startsWith(info.assetPrefix)`.
abbrev pub is_outside : Option Str → Str → Bool
is_outside none pathname = false
is_outside (some prefix) pathname = not (starts_with pathname prefix)

abbrev pub choice_of : Forwarded → Choice
choice_of (failed message) = leave by_fallback (forwarding_failed message)
choice_of (replied (http4_reply o)) = take o
choice_of (replied (fallback_reply reason)) = leave by_fallback (page_reason reason)
choice_of (replied (platform_reply reason)) = leave by_platform (page_reason reason)

-- `serve` from its test of `info.available` on.
unfoldable pub serve_ready : Ready → Str → Forwarded → Choice
serve_ready info pathname forwarded =
    if not info.available
    then leave by_fallback (why_unavailable info.reason)
    else (if is_outside info.asset_prefix pathname
        then leave by_platform not_asset_path
        else choice_of forwarded)

-- `network("fallback", …)`, at once.
abbrev pub to_network : Why → Option TabState → Served
to_network why tab = record { choice = leave by_fallback why; tab = tab; held = 0 }

-- The wait for the tab's session, with what it gives.
unfoldable pub wait_ready : Awaited → Str → Str → Option Ready → TabState → Served
wait_ready a destination pathname none tab = record {
  choice = leave by_fallback (not_ready_after (ready_timeout_ms destination));
  tab = some (record tab { gave_up = true });
  held = ready_timeout_ms destination;
}
wait_ready a destination pathname (some info) tab = record {
  choice = serve_ready info pathname a.forwarded;
  tab = some (record tab { info = some info });
  held = 0;
}

unfoldable pub serve_tab : Awaited → Str → Str → Option Ready → TabState → Served
serve_tab a destination pathname (some info) tab = record {
  choice = serve_ready info pathname a.forwarded;
  tab = some tab;
  held = 0;
}
serve_tab a destination pathname none tab =
    if not a.acked
    then to_network no_bridge (some tab)
    else (if tab.gave_up
        then to_network still_not_ready (some tab)
        else wait_ready a destination pathname a.ready tab)

unfoldable pub serve : Awaited → Str → Str → Option TabState → Served
serve a destination pathname known =
    let tab = tab_or_hello known in
    if not a.found
    then to_network tab_not_found known
    else serve_tab a destination pathname tab.info tab

-- `reply.stream ? (reply.length ?? null) : (reply.body?.byteLength ?? 0)`.
abbrev pub body_length : Option (List ℕ) → ℕ
body_length none = 0
body_length (some b) = length b

abbrev pub reply_bytes : Option ℕ → ServedReply → Option ℕ
reply_bytes (some stream) o = o.length
reply_bytes none o = some (body_length o.body)

unfoldable pub report_of : InterceptInput → Str → Choice → Network → WorkerReport
report_of r destination (leave carrier why) net = record {
  url = r.url;
  method = r.method;
  destination = destination;
  carrier = carrier;
  reason = some why;
  status = net.status;
  bytes = net.length;
  client_id = r.client_id;
}
report_of r destination (take o) net = record {
  url = r.url;
  method = r.method;
  destination = destination;
  carrier = over_http4;
  reason = none;
  status = o.status;
  bytes = reply_bytes o.stream o;
  client_id = r.client_id;
}

-- `log.push(r)`, and `log.shift()` past the limit.
unfoldable pub record_report : WorkerReport → List WorkerReport → List WorkerReport
record_report r log =
    let longer = log ++ (r ∷ []) in
    if ltb worker_report_limit (length longer) then drop 1 longer else longer

-- What the worker remembers of one tab, and its log.
pub record WorkerState : Type 0 where
  pub tab : Option TabState
  pub log : List WorkerReport

abbrev pub heard : Ready → Option TabState → Option TabState
heard info none = none
heard info (some tab) = some (record tab { info = some info })

-- The tab's answer to hello, whenever it comes: its session is open or has failed, or, with `none`,
-- is still being opened.
unfoldable pub on_hello_reply : Option Ready → WorkerState → WorkerState
on_hello_reply none s = s
on_hello_reply (some info) s = record s { tab = heard info s.tab }

abbrev pub no_network : Network
no_network = record { status = 0; length = none }

abbrev pub pathname_of : Option Url → Str
pathname_of none = []
pathname_of (some url) = url.pathname

-- The fetch listener, for a request of one tab. Where `new URL` throws, so does the listener.
unfoldable pub on_decision :
    UrlParser → Decision → InterceptInput → Str → Awaited → WorkerState → WorkerState
on_decision parse forward r destination a s =
    let out = serve a destination (pathname_of (parse r.url)) s.tab in
    record {
      tab = out.tab;
      log = record_report (report_of r destination out.choice a.network) s.log;
    }
on_decision parse bad_url r destination a s = s
on_decision parse skip r destination a s = record s {
  log = record_report (report_of r destination (leave by_platform (skipped skip)) no_network) s.log;
}

unfoldable pub on_fetch :
    UrlParser → Str → InterceptInput → Str → Awaited → WorkerState → WorkerState
on_fetch parse origin r destination a s =
    on_decision parse (leave_to_network parse r origin) r destination a s

-- ===== src/Samples/FetcherRuns.antt =====
-- client/src/fetcher.ts with an open session that knows every asset.
use http.Common.{◌≡◌, ◌≢◌, refl, true, false, none, some, [], ◌∷◌, length}
use http.Fetcher.{
  Fetcher, Session, fulfilled, get_method, outcome, try_open, try_session, available, decimal,
}
use http.Fetcher.Fetching.{Request, fetch, ineligible, settle, answered}
use http.Fetcher.Reports.{is_http4, fetch_over_http4}

abbrev open_session : Session
open_session = record {
  is_open = true;
  request = λ id cls. fulfilled (record {
    body = record { buffer = id; byte_offset = 0; byte_length = length id };
    headers = [];
  });
  request_stream = none;
}

abbrev echo : Fetcher
echo = record {
  session = some open_session;
  unavailable_reason = none;
  base_origin = 1 ∷ [];
  path_to_asset_id = λ url. some url.pathname;
  report_limit = 1;
  streams = true;
  classes = [];
}

abbrev read : Request
read = record {
  method = get_method;
  url = record { origin = 1 ∷ []; pathname = 7 ∷ 8 ∷ [] };
  body_given = false;
  range_given = false;
  signal_aborted = false;
}

served : is_http4 (fetch echo [] read (answered 200 none)).0 ≡ true
unfolding fetch ineligible outcome try_open try_session settle
served = refl

fetch_over_http4_example :
    (ineligible echo read ≡ none)
    × (available echo ≡ true)
    × (echo.path_to_asset_id read.url ≢ none)
fetch_over_http4_example = fetch_over_http4 echo [] read (answered 200 none) served

-- "content-length" is written in decimal.
decimal_runs : decimal 1024 ≡ 49 ∷ 48 ∷ 50 ∷ 52 ∷ []
unfolding decimal
decimal_runs = refl

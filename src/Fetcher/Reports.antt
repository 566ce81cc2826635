-- ===== src/Fetcher/Reports.antt =====
-- client/src/fetcher.ts: what is served over HTTP4, and what the report says of it.
use http.Common.{
  zero, suc, ◌<◌, ◌+◌, ◌/◌, ◌%◌, ℕ, ◌≤◌, ◌≡◌, ◌≢◌, refl, sym, Bool, true, false, not, Option, none,
  some, List, [], ◌∷◌, ◌++◌, length, ltb, if_cases, ◌⊎◌, inl, inr, length-append, drop,
  if◌then◌else◌, arith, ap, subst, ◌∙◌,
}
use http.Wire.Types.{Str}
use http.Fetcher.{
  decimal_from, Fetcher, Session, Reason, not_asset_path, Tried, tried, threw, http4, fallback,
  platform, available, outcome, try_asset, try_open, session_open,
}
use http.Fetcher.Fetching.{
  Request, RequestReport, Response, PlatformReply, from_http4, from_platform, platform_threw,
  abort_thrown, answered, failed, by_http4, by_fallback, by_platform, Transport, ineligible, fetch,
  fetch_after, settle, push_report, platform_report, http4_report, platform_response,
}

abbrev pub is_http4 : Response → Bool
is_http4 (from_http4 o) = true
is_http4 (from_platform status) = false
is_http4 platform_threw = false
is_http4 abort_thrown = false

abbrev pub is_by_http4 : Transport → Bool
is_by_http4 by_http4 = true
is_by_http4 by_fallback = false
is_by_http4 by_platform = false

-- The report is the last of the log, and what stood there before stays, but for the oldest where
-- the log was full.
pub record Logged (limit : ℕ) (log : List RequestReport) (rep : RequestReport)
    (after : List RequestReport) : Type 0 where
  pub gone : List RequestReport
  pub kept : log ++ (rep ∷ []) ≡ gone ++ after
  pub oldest : length gone ≡ (if ltb (length log) limit then 0 else 1)

-- What one `fetch` does to the log: nothing when it throws the signal's reason, else it adds one
-- report, of this request, that names HTTP4 exactly when HTTP4 served it.
abbrev pub Reported : ℕ → List RequestReport → Request → Response × List RequestReport → Type 0
Reported limit log r out =
    ((out.0 ≡ abort_thrown) × (out.1 ≡ log))
    ⊎ ((rep : RequestReport) × Logged limit log rep out.1
        × (rep.url ≡ r.url)
        × (rep.method ≡ r.method)
        × (is_by_http4 rep.transport ≡ is_http4 out.0))

platform_response-is_http4 : (p : PlatformReply) → is_http4 (platform_response p) ≡ false
platform_response-is_http4 (answered status len) = refl
platform_response-is_http4 failed = refl

platform_report_lem :
    (r : Request) (t : Transport) (why : Reason) (p : PlatformReply)
    → ((platform_report r t why p).url ≡ r.url)
      × ((platform_report r t why p).method ≡ r.method)
      × ((platform_report r t why p).transport ≡ t)
platform_report_lem r t why (answered status len) = (refl, refl, refl)
platform_report_lem r t why failed = (refl, refl, refl)

drop_first :
    (log : List RequestReport) (rep : RequestReport)
    → (gone : List RequestReport) × (length gone ≡ 1)
      × (log ++ (rep ∷ []) ≡ gone ++ drop 1 (log ++ (rep ∷ [])))
drop_first [] rep = (rep ∷ [], refl, refl)
drop_first (r ∷ log) rep = (r ∷ [], refl, refl)

push_report-Logged :
    (limit : ℕ) (log : List RequestReport) (rep : RequestReport)
    → Logged limit log rep (push_report limit log rep)
unfolding push_report
push_report-Logged limit log rep =
    let n = length-append log (rep ∷ []) in
    if_cases (Logged limit log rep) (ltb limit (length (log ++ (rep ∷ [])))) _ _
      (λ e.
        let (gone, one, same) = drop_first log rep in
        record { gone = gone; kept = same; oldest = ground (arith, n) })
      (λ e. record { gone = []; kept = refl; oldest = ground (arith, n) })

settle-Reported :
    (limit : ℕ) (log : List RequestReport) (r : Request) (p : PlatformReply) (o : Tried)
    → Reported limit log r (settle limit log r p o)
unfolding settle
settle-Reported limit log r p (tried (http4 o)) =
    inr (http4_report r o, push_report-Logged limit log (http4_report r o), refl, refl, refl)
settle-Reported limit log r p (tried (fallback why)) =
    let h = platform_report_lem r by_fallback why p in
    inr (
      platform_report r by_fallback why p,
      push_report-Logged limit log (platform_report r by_fallback why p),
      h.0,
      h.1,
      ap is_by_http4 h.2 ∙ sym (platform_response-is_http4 p),
    )
settle-Reported limit log r p (tried (platform why)) =
    let h = platform_report_lem r by_platform why p in
    inr (
      platform_report r by_platform why p,
      push_report-Logged limit log (platform_report r by_platform why p),
      h.0,
      h.1,
      ap is_by_http4 h.2 ∙ sym (platform_response-is_http4 p),
    )
settle-Reported limit log r p threw = inl (refl, refl)

pub fetch-Reported :
    (f : Fetcher) (log : List RequestReport) (r : Request) (p : PlatformReply)
    → Reported f.report_limit log r (fetch f log r p)
unfolding fetch
fetch-Reported f log r p = go (ineligible f r)
  where
    go : (skip : Option Reason) → Reported f.report_limit log r (fetch_after skip f log r p)
    go none = settle-Reported f.report_limit log r p (outcome f r.url r.method r.signal_aborted [])
    go (some why) = settle-Reported f.report_limit log r p (tried (platform why))

Logged-length :
    (limit : ℕ) (log after : List RequestReport) (rep : RequestReport)
    → Logged limit log rep after
    → length log ≤ limit
    → length after ≤ limit
Logged-length limit log after rep l h =
    ground
      (arith, l.oldest, length-append log (rep ∷ []), length-append l.gone after, ap length l.kept)

-- The log stays within its limit.
pub fetch-log_within :
    (f : Fetcher) (log : List RequestReport) (r : Request) (p : PlatformReply)
    → length log ≤ f.report_limit
    → length (fetch f log r p).1 ≤ f.report_limit
fetch-log_within f log r p h = elim (fetch-Reported f log r p) [
  | inl same ↦ subst (λ l. length l ≤ f.report_limit) (sym same.1) h
  | inr rep ↦ Logged-length f.report_limit log (fetch f log r p).1 rep.0 rep.1 h
]

settle-is_http4 :
    (limit : ℕ) (log : List RequestReport) (r : Request) (p : PlatformReply) (why : Reason)
    → is_http4 (settle limit log r p (tried (platform why))).0 ≡ false
unfolding settle
settle-is_http4 limit log r p why = platform_response-is_http4 p

settle-session_open :
    (limit : ℕ) (log : List RequestReport) (r : Request) (p : PlatformReply) (f : Fetcher)
    (o : Option Session) (id : Str)
    → is_http4 (settle limit log r p (try_open f o r.url r.method r.signal_aborted [] id)).0 ≡ true
    → session_open o ≡ true
unfolding settle try_open
settle-session_open limit log r p f none id e = absurd (cc (e, platform_response-is_http4 p))
settle-session_open limit log r p f (some s) id e =
    if_cases (λ (o : Tried). is_http4 (settle limit log r p o).0 ≡ true → s.is_open ≡ true)
      (not s.is_open) _ _ (λ h k. absurd (cc (k, platform_response-is_http4 p)))
      (λ h k. ground arith) e

settle-asset :
    (log : List RequestReport) (r : Request) (p : PlatformReply) (f : Fetcher) (o : Option Str)
    → is_http4 (settle f.report_limit log r p (try_asset f o r.url r.method r.signal_aborted [])).0
      ≡ true
    → (available f ≡ true) × (o ≢ none)
unfolding available
settle-asset log r p f none e =
    absurd (cc (e, settle-is_http4 f.report_limit log r p not_asset_path))
settle-asset log r p f (some id) e =
    (settle-session_open f.report_limit log r p f f.session id e, λ k. absurd (cc k))

-- Only a request that is eligible and has an asset id, with the session open, is served over HTTP4.
pub fetch_over_http4 :
    (f : Fetcher) (log : List RequestReport) (r : Request) (p : PlatformReply)
    → is_http4 (fetch f log r p).0 ≡ true
    → (ineligible f r ≡ none) × (available f ≡ true) × (f.path_to_asset_id r.url ≢ none)
unfolding fetch outcome
fetch_over_http4 f log r p e = go (ineligible f r) e
  where
    go :
        (skip : Option Reason)
        → is_http4 (fetch_after skip f log r p).0 ≡ true
        → (skip ≡ none) × (available f ≡ true) × (f.path_to_asset_id r.url ≢ none)
    go none k = let h = settle-asset log r p f (f.path_to_asset_id r.url) k in (refl, h.0, h.1)
    go (some why) k = absurd (cc (k, settle-is_http4 f.report_limit log r p why))

-- The fuel of `decimal` is enough: more gives the same digits.
decimal_from_enough :
    (fuel n : ℕ) (acc : List ℕ) → n < fuel → decimal_from (suc fuel) n acc ≡ decimal_from fuel n acc
decimal_from_enough zero n acc h = absurd (omega arith)
decimal_from_enough (suc fuel) n acc h =
    let rest = decimal_from_enough fuel (n / 10) ((48 + n % 10) ∷ acc) in
    if_cases (λ (s : List ℕ). s ≡ decimal_from (suc fuel) n acc) (ltb n 10) _ _ (λ e. rw e refl)
      (λ e. rw e (rest (ground arith)))

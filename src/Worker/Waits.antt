-- ===== src/Worker/Waits.antt =====
-- client/src/sw.ts: what a request that goes over HTTP4 had to pass, and how long requests of one tab
-- are held for a session that does not come.
use http.Common.{
  ℕ, ◌+◌, ◌≤◌, ◌≡◌, ◌⊎◌, inl, inr, refl, sym, subst, Bool, true, false, not, Option, none, some,
  List, [], ◌∷◌, if_cases, arith, All,
}
use http.Wire.Types.{Str}
use http.SwProto.{
  ready_timeout_ms, ready_timeout_bulk, ServedReply, http4_reply, fallback_reply, platform_reply,
}
use http.Worker.{
  to_network, no_bridge, still_not_ready, tab_not_found, Ready, TabState, Forwarded, replied,
  failed, Awaited, take, Served, new_tab, tab_or_hello, is_outside, choice_of, serve_ready,
  wait_ready, serve_tab, serve,
}

-- What the tab said, for a request that is served over HTTP4.
pub record Passed (pathname : Str) (forwarded : Forwarded) (o : ServedReply) (info : Ready)
    : Type 0 where
  pub available : info.available ≡ true
  pub inside : is_outside info.asset_prefix pathname ≡ false
  pub reply : forwarded ≡ replied (http4_reply o)

choice_of-replied :
    (g : Forwarded) (o : ServedReply) → choice_of g ≡ take o → g ≡ replied (http4_reply o)
choice_of-replied (failed message) o e = cc e
choice_of-replied (replied (http4_reply p)) o e = cc e
choice_of-replied (replied (fallback_reply reason)) o e = cc e
choice_of-replied (replied (platform_reply reason)) o e = cc e

serve_ready-Passed :
    (info : Ready) (pathname : Str) (g : Forwarded) (o : ServedReply)
    → serve_ready info pathname g ≡ take o
    → Passed pathname g o info
unfolding serve_ready
serve_ready-Passed info pathname g o e =
    if_cases (λ c. c ≡ take o → Passed pathname g o info) (not info.available) _ _ (λ b k. cc k)
      (λ b.
        if_cases (λ c. c ≡ take o → Passed pathname g o info)
          (is_outside info.asset_prefix pathname) _ _ (λ d k. cc k)
          (λ d k. record { available = ground arith; inside = d; reply = choice_of-replied g o k }))
      e

serve_tab-Passed :
    (a : Awaited) (destination pathname : Str) (known : Option Ready) (tab : TabState)
    (o : ServedReply)
    → (serve_tab a destination pathname known tab).choice ≡ take o
    → (info : Ready) × Passed pathname a.forwarded o info
      × ((known ≡ some info) ⊎ ((a.acked ≡ true) × (a.ready ≡ some info)))
unfolding serve_tab wait_ready
serve_tab-Passed a destination pathname (some info) tab o e =
    (info, serve_ready-Passed info pathname a.forwarded o e, inl refl)
serve_tab-Passed a destination pathname none tab o e =
    if_cases
      (λ (s : Served).
        s.choice ≡ take o
        → (info : Ready) × Passed pathname a.forwarded o info
          × ((none ≡ some info) ⊎ ((a.acked ≡ true) × (a.ready ≡ some info))))
      (not a.acked) (to_network no_bridge (some tab)) _ (λ b k. cc k)
      (λ b.
        if_cases
          (λ (s : Served).
            s.choice ≡ take o
            → (info : Ready) × Passed pathname a.forwarded o info
              × ((none ≡ some info) ⊎ ((a.acked ≡ true) × (a.ready ≡ some info))))
          tab.gave_up (to_network still_not_ready (some tab)) _ (λ d k. cc k)
          (λ d k. waited a.ready refl (ground arith) k))
      e
  where
    waited :
        (r : Option Ready)
        → a.ready ≡ r
        → a.acked ≡ true
        → (wait_ready a destination pathname r tab).choice ≡ take o
        → (info : Ready) × Passed pathname a.forwarded o info
          × ((none ≡ some info) ⊎ ((a.acked ≡ true) × (a.ready ≡ some info)))
    waited none n acked k = cc k
    waited (some info) n acked k =
        (info, serve_ready-Passed info pathname a.forwarded o k, inr (acked, n))

-- A request is served over HTTP4 only if its tab exists and has said, before or during the wait, that
-- its session is open, for a path under the tab's prefix, and the page's reply carries the answer.
pub serve_over_http4 :
    (a : Awaited) (destination pathname : Str) (known : Option TabState) (o : ServedReply)
    → (serve a destination pathname known).choice ≡ take o
    → (a.found ≡ true)
      × ((info : Ready) × Passed pathname a.forwarded o info
          × (((tab_or_hello known).info ≡ some info) ⊎ ((a.acked ≡ true) × (a.ready ≡ some info))))
unfolding serve
serve_over_http4 a destination pathname known o e =
    if_cases
      (λ (s : Served).
        s.choice ≡ take o
        → (a.found ≡ true)
          × ((info : Ready) × Passed pathname a.forwarded o info
              × (((tab_or_hello known).info ≡ some info)
                  ⊎ ((a.acked ≡ true) × (a.ready ≡ some info)))))
      (not a.found) (to_network tab_not_found known) _ (λ b k. cc k)
      (λ b k. (
        ground arith,
        serve_tab-Passed a destination pathname (tab_or_hello known).info (tab_or_hello known) o k,
      ))
      e

-- Requests of one tab, one after the other, and how long they were held for nothing in all.
pub record Asked : Type 0 where
  pub destination : Str
  pub pathname : Str
  pub awaited : Awaited

unfoldable pub total_held : List Asked → Option TabState → ℕ
total_held [] known = 0
total_held (r ∷ rs) known =
    let s = serve r.awaited r.destination r.pathname known in s.held + total_held rs s.tab

-- What a tab can still cost.
abbrev cost_of : Option Ready → Bool → ℕ
cost_of (some info) gave_up = 0
cost_of none true = 0
cost_of none false = ready_timeout_bulk

abbrev cost : Option TabState → ℕ
cost none = ready_timeout_bulk
cost (some tab) = cost_of tab.info tab.gave_up

timeout_bound : (destination : Str) → ready_timeout_ms destination ≤ ready_timeout_bulk
unfolding ready_timeout_ms
timeout_bound destination = ground arith

serve_tab-cost :
    (a : Awaited) (destination pathname : Str) (known : Option Ready) (gave_up : Bool)
    → a.ready ≡ none
    → let s = serve_tab a destination pathname known (record { info = known; gave_up = gave_up }) in
      s.held + cost s.tab ≤ cost_of known gave_up
unfolding serve_tab wait_ready
serve_tab-cost a destination pathname (some info) gave_up e = omega arith
serve_tab-cost a destination pathname none true e =
    if_cases (λ (s : Served). s.held + cost s.tab ≤ 0) (not a.acked)
      (to_network no_bridge (some (record { info = none; gave_up = true }))) _ (λ b. omega arith)
      (λ b. omega arith)
serve_tab-cost a destination pathname none false e =
    if_cases (λ (s : Served). s.held + cost s.tab ≤ ready_timeout_bulk) (not a.acked)
      (to_network no_bridge (some new_tab)) _ (λ b. omega arith)
      (λ b.
        subst
          (λ r.
            let s = wait_ready a destination pathname r new_tab in
            s.held + cost s.tab ≤ ready_timeout_bulk)
          (sym e) (omega (arith, timeout_bound destination)))

cost_of_tab :
    (known : Option TabState)
    → cost_of (tab_or_hello known).info (tab_or_hello known).gave_up ≡ cost known
cost_of_tab none = refl
cost_of_tab (some tab) = refl

serve-cost :
    (a : Awaited) (destination pathname : Str) (known : Option TabState)
    → a.ready ≡ none
    → let s = serve a destination pathname known in s.held + cost s.tab ≤ cost known
unfolding serve
serve-cost a destination pathname known e =
    if_cases (λ (s : Served). s.held + cost s.tab ≤ cost known) (not a.found)
      (to_network tab_not_found known) _ (λ b. omega arith)
      (λ b.
        let tab = tab_or_hello known in
        omega
          (arith, serve_tab-cost a destination pathname tab.info tab.gave_up e, cost_of_tab known))

total_held-cost :
    (rs : List Asked) (known : Option TabState)
    → All (λ r. r.awaited.ready ≡ none) rs
    → total_held rs known ≤ cost known
unfolding total_held
total_held-cost [] known h = omega arith
total_held-cost (r ∷ rs) known h =
    let s = serve r.awaited r.destination r.pathname known in
    omega
      (arith, serve-cost r.awaited r.destination r.pathname known h.0, total_held-cost rs s.tab h.1)

cost_bound : (known : Option TabState) → cost known ≤ ready_timeout_bulk
cost_bound none = omega arith
cost_bound (some tab) = go tab.info tab.gave_up
  where
    go : (info : Option Ready) (gave_up : Bool) → cost_of info gave_up ≤ ready_timeout_bulk
    go (some info) gave_up = omega arith
    go none true = omega arith
    go none false = omega arith

-- Requests of one tab, one after the other, whose waits for its session all end without it, are held
-- for the longest of the timeouts at most, all together, however many they are.
pub total_held_bound :
    (rs : List Asked) (known : Option TabState)
    → All (λ r. r.awaited.ready ≡ none) rs
    → total_held rs known ≤ ready_timeout_bulk
total_held_bound rs known h = omega (arith, total_held-cost rs known h, cost_bound known)

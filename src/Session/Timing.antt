-- ===== src/Session/Timing.antt =====
-- client/src/transport.ts: the timeouts and windows, and what a round-trip sample or a spurious repair
-- changes.
use http.Common.{ℕ, ◌+◌, ◌*◌, min, max, Bool, true, Option, none, some, leb, ◌==◌, if◌then◌else◌}
use http.Budget
use http.Budget.{Rates, Budget}
use http.Scheduler
use http.Session.State.{
  Floats, Session, count, max_initial_rto_ms, max_rto_ms, min_reorder_window_ms, max_reorder_steps,
  min_repair_delay_ms, server_send_queue_packets, default_payload, max_drain_ms,
}

-- `a ?? b`, and `now - at >= wait` for a time that may be -Infinity.
abbrev pub or_else : Option ℕ → ℕ → ℕ
or_else none d = d
or_else (some a) d = a

abbrev pub first_of : Option ℕ → Option ℕ → Option ℕ
first_of none b = b
first_of (some a) b = some a

abbrev pub has_passed : Option ℕ → ℕ → ℕ → Bool
has_passed none now wait = true
has_passed (some at) now wait = leb (at + wait) now

-- `this.payloadSeen || DEFAULT_PAYLOAD`.
abbrev pub payload_or : ℕ → ℕ
payload_or seen = if seen == 0 then default_payload else seen

module _ (f : Floats) where
  -- Before the first sample of srtt, and after it.
  abbrev pub rto_of : Option ℕ → Option ℕ → ℕ → ℕ → ℕ → ℕ
  rto_of none none rto_floor initial_rto rttvar = max rto_floor initial_rto
  rto_of none (some m) rto_floor initial_rto rttvar = max rto_floor (min max_initial_rto_ms (3 * m))
  rto_of (some v) min_rtt rto_floor initial_rto rttvar =
      min max_rto_ms (max rto_floor (v + 4 * rttvar))

  unfoldable pub rto : Session f → ℕ
  rto s = rto_of s.srtt s.budget.min_rtt s.cfg.rto_floor s.initial_rto s.rttvar

  abbrev pub var_of : Option ℕ → ℕ → ℕ → ℕ
  var_of none rttvar r = f.half r
  var_of (some v) rttvar r = f.smooth_var rttvar v r

  abbrev pub rtt_of : Option ℕ → ℕ → ℕ
  rtt_of none r = r
  rtt_of (some v) r = f.smooth_rtt v r

  -- `budget.onRttSample`, with the counter that shows its result.
  unfoldable pub sample_min_rtt : Session f → ℕ → ℕ → Session f
  sample_min_rtt s r now =
      let b = Budget.on_rtt_sample f.rates s.budget r now in
      count f (λ c. record c { min_rtt_ms = b.min_rtt }) (record s { budget = b })

  unfoldable pub sample_rtt : Session f → ℕ → ℕ → Session f
  sample_rtt s r now =
      let t = sample_min_rtt s r now in
      let u : Session f = record t {
        srtt = some (rtt_of s.srtt r);
        rttvar = var_of s.srtt s.rttvar r;
      } in
      count f (λ c. record c { srtt_ms = u.srtt; rto_ms = rto u }) u

  -- `Math.min(quarter * reorderSteps, Math.max(quarter, this.srtt ?? quarter))`.
  abbrev pub window_of : ℕ → ℕ → Option ℕ → ℕ
  window_of quarter steps srtt = min (quarter * steps) (max quarter (or_else srtt quarter))

  unfoldable pub reorder_window : Session f → ℕ
  reorder_window s =
      let rtt = or_else (first_of s.budget.min_rtt s.srtt) 0 in
      window_of (max min_reorder_window_ms (f.quarter rtt)) s.reorder_steps s.srtt

  unfoldable pub repair_delay : Session f → ℕ
  repair_delay s =
      let rtt = or_else (first_of s.srtt s.budget.min_rtt) (rto s) in
      let rate = Budget.max_rate f.rates s.budget in
      let queued = server_send_queue_packets * payload_or s.payload_seen in
      let drain = if f.is_positive rate then f.drain queued rate else rto s in
      min max_rto_ms (max min_repair_delay_ms (f.half_more rtt + drain))

  unfoldable pub drain_ms : Session f → ℕ
  drain_ms s =
      let rate = Budget.max_rate f.rates s.budget in
      if f.is_positive rate
      then min max_drain_ms (f.drain (Scheduler.outstanding s.scheduler.rpcs) rate)
      else 0

  -- A repaired range arrived twice: the window widens, at most once in a round trip.
  unfoldable pub note_spurious : Session f → ℕ → Session f
  note_spurious s now =
      let counted = count f (λ c. record c { spurious_repairs = c.spurious_repairs + 1 }) s in
      let wider : Session f = record counted {
        last_spurious_at = some now;
        reorder_steps = min max_reorder_steps (s.reorder_steps * 2);
      } in
      if has_passed s.last_spurious_at now (or_else s.srtt min_reorder_window_ms)
      then count f (λ c. record c { reorder_window_ms = reorder_window wider }) wider
      else counted

  -- A loss shrinks the budget, at most once in a round trip.
  unfoldable pub loss_backoff : Session f → ℕ → Session f
  loss_backoff s now =
      let wait = max min_reorder_window_ms (or_else (first_of s.srtt s.budget.min_rtt) 0) in
      let smaller : Session f = record s {
        last_loss_backoff_at = some now;
        budget = Budget.on_loss f.rates s.budget now;
      } in
      if has_passed s.last_loss_backoff_at now wait
      then count f (λ c. record c { reorder_window_ms = reorder_window smaller }) smaller
      else s

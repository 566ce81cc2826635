-- ===== src/Session/Recovery.antt =====
-- client/src/transport.ts: the ticker, which probes the tail of a transfer and recovers a stalled one.
use http.Common.{
  ℕ, ◌+◌, ◌-◌, ◌*◌, ◌^◌, min, max, Bool, true, false, not, ◌&&◌, ◌||◌, Option, none, some, List, [],
  ◌∷◌, ◌++◌, ltb, leb, if◌then◌else◌, lookup, take,
}
use http.Wire.Types.{req_packet, grant_packet}
use http.Reassembly.{Reassembly, frontier, missing}
use http.Reassembly.Ranges.{Range}
use http.RepairTracker
use http.Scheduler
use http.Stream.{StreamState}
use http.Session.State.{
  Floats, Session, Transfer, Body, count, put_transfer, max_initial_rto_ms, max_rto_ms,
  max_resend_ranges, min_repair_delay_ms, no_progress,
}
use http.Session.Timing.{or_else, has_passed, payload_or, rto, repair_delay, drain_ms, loss_backoff}
use http.Session.Sending.{send}
use http.Session.Finishing.{fail}
use http.Session.Losses.{send_resends, count_resend, count_tail_probe, detect_loss, detect_seq_loss}

abbrev pub is_some {ℓ} : {A : Type ℓ} → Option A → Bool
is_some none = false
is_some (some a) = true

abbrev pub is_paused : Option StreamState → Bool
is_paused none = false
is_paused (some st) = st.paused

-- `t.asm ? (this.scheduler.granted(t.rpcId) ?? 0) : 0`.
abbrev pub granted_or_0 : Option Body → Option ℕ → ℕ
granted_or_0 none granted = 0
granted_or_0 (some b) granted = or_else granted 0

-- All that was granted has arrived, or the reader is behind: the transfer waits, and is not stalled.
abbrev pub has_received : Option Body → ℕ → Bool
has_received none granted = false
has_received (some b) granted = leb granted b.asm.received

unfoldable pub is_waiting : Transfer → ℕ → Bool
is_waiting t granted = (is_some t.headers && has_received t.body granted) || is_paused t.stream

abbrev pub range_to : ℕ → ℕ → Range
range_to start stop = record { start = start; stop = stop }

-- The first and the last packet of the tail past the frontier.
abbrev pub tail_ranges : ℕ → ℕ → ℕ → List Range
tail_ranges frontier granted p =
    let first_stop = min granted (frontier + p) in
    let last_start = max first_stop (granted - p) in
    if ltb frontier granted
    then range_to frontier first_stop
      ∷ (if ltb last_start granted then range_to last_start granted ∷ [] else [])
    else []

-- The ranges that a recovery asks for.
unfoldable pub recovery_ranges : Reassembly → ℕ → ℕ → List Range
recovery_ranges asm granted p =
    take max_resend_ranges (missing asm (min (frontier asm) granted))
    ++ tail_ranges (frontier asm) granted p

module _ (f : Floats) where
  abbrev pub base_of : Option ℕ → ℕ → ℕ → ℕ
  base_of none base_rto rto = min base_rto rto
  base_of (some srtt) base_rto rto = rto

  -- How long a transfer may go without progress.
  unfoldable pub timeout_of : Transfer → Session f → ℕ
  timeout_of t s =
      max (min max_rto_ms (base_of s.srtt t.base_rto (rto f s) * 2 ^ t.recoveries)) (drain_ms f s)

  unfoldable pub send_tail_probe : ℕ → ℕ → Transfer → Body → Session f → Transfer × Session f
  send_tail_probe now granted t b s =
      let start = max (frontier b.asm) (granted - payload_or s.payload_seen) in
      let c =
        RepairTracker.claim b.repair b.asm (range_to start granted ∷ []) now (repair_delay f s) in
      (
        record t { tail_probed = true; body = some (record b { repair = c.1 }) },
        send_resends f count_tail_probe t.rpc_id c.0 s,
      )

  -- `t.asm.frontier < granted && now - t.lastProgress >= pto`.
  unfoldable pub is_overdue : ℕ → ℕ → Transfer → Body → ℕ → Session f → Bool
  is_overdue now granted t b srtt s =
      let pto = max min_repair_delay_ms (2 * srtt) + drain_ms f s in
      ltb (frontier b.asm) granted && leb (t.last_progress + pto) now

  unfoldable pub probe_body :
      ℕ → ℕ → Transfer → Option Body → Option ℕ → Session f → Transfer × Session f
  probe_body now granted t none srtt s = (t, s)
  probe_body now granted t (some b) none s = (t, s)
  probe_body now granted t (some b) (some srtt) s =
      if is_overdue now granted t b srtt s then send_tail_probe now granted t b s else (t, s)

  -- The tail loss probe.
  unfoldable pub probe_tail : ℕ → ℕ → Transfer → Session f → Transfer × Session f
  probe_tail now granted t s =
      let r = probe_body now granted t t.body s.srtt s in
      if s.cfg.early_resend && not t.tail_probed then r else (t, s)

  -- A timeout before any RTT sample backs the initial RTO off, for later transfers too.
  unfoldable pub back_off : ℕ → Session f → Session f
  back_off now s =
      if not (is_some s.srtt) && has_passed s.last_backoff_at now s.initial_rto
      then record s {
        initial_rto = min max_initial_rto_ms (s.initial_rto * 2);
        last_backoff_at = some now;
      }
      else s

  -- The REQ again, while the size or the META is missing.
  unfoldable pub resend_req : Transfer → Session f → Session f
  resend_req t s =
      if is_some t.body && is_some t.headers
      then s
      else send f (count f (λ c. record c { req_retransmits = c.req_retransmits + 1 }) s) (
          req_packet
            (record { rpc_id = t.rpc_id; initial_grant = t.initial_grant; asset_id = t.asset_id }))

  unfoldable pub resend_grant : Transfer → ℕ → Session f → Session f
  resend_grant t granted s =
      if ltb t.initial_grant granted
      then send f s
          (grant_packet (record { rpc_id = t.rpc_id; max_offset = granted; priority = 0 }))
      else s

  -- The GRANT again, and the RESENDs.
  unfoldable pub recover_body : ℕ → ℕ → Transfer → Option Body → Session f → Session f
  recover_body now granted t none s = put_transfer f t.rpc_id t s
  recover_body now granted t (some b) s =
      let told : Session f = resend_grant t granted s in
      let asks = recovery_ranges b.asm granted (payload_or told.payload_seen) in
      let c = RepairTracker.claim b.repair b.asm asks now (repair_delay f told) in
      send_resends f count_resend t.rpc_id c.0
        (put_transfer f t.rpc_id (record t { body = some (record b { repair = c.1 }) }) told)

  unfoldable pub recover : ℕ → ℕ → Transfer → Session f → Session f
  recover now granted t s =
      let tries = t.recoveries + 1 in
      let u : Transfer = record t {
        recoveries = tries;
        probe = none;
        last_progress = now;
        req_retransmitted = t.req_retransmitted || not (is_some t.body && is_some t.headers);
      } in
      let counted : Session f = count f (λ c. record c { recoveries = c.recoveries + 1 }) s in
      let slower = back_off now (loss_backoff f counted now) in
      if ltb s.cfg.max_recoveries tries
      then fail f now t no_progress s
      else recover_body now granted u u.body (resend_req u slower)

  unfoldable pub detect_if : ℕ → Transfer → Option Body → Session f → Transfer × Session f
  detect_if now t none s = (t, s)
  detect_if now t (some b) s = detect_loss f now t s

  unfoldable pub check_progress : ℕ → ℕ → Transfer → Session f → Session f
  check_progress now granted t s =
      if leb (t.last_progress + timeout_of t s) now
      then recover now granted t s
      else put_transfer f t.rpc_id t s

  -- The body of the loop of `tick`.
  unfoldable pub tick_transfer : ℕ → Transfer → Session f → Session f
  tick_transfer now t s =
      let d = detect_if now t t.body s in
      let granted = granted_or_0 d.0.body (Scheduler.granted d.1.scheduler t.rpc_id) in
      let r = probe_tail now granted d.0 d.1 in
      if is_waiting d.0 granted
      then put_transfer f d.0.rpc_id (record d.0 { last_progress = now }) d.1
      else check_progress now granted r.0 r.1

  -- The loop over the transfers of its start: none ends another one's transfer.
  unfoldable pub tick_found : ℕ → Option Transfer → Session f → Session f
  tick_found now none s = s
  tick_found now (some t) s = tick_transfer now t s

  unfoldable pub tick_each : ℕ → List (ℕ × Transfer) → Session f → Session f
  tick_each now [] s = s
  tick_each now ((id, old) ∷ rest) s = tick_each now rest (tick_found now (lookup id s.transfers) s)

  unfoldable pub stop_if_idle : List (ℕ × Transfer) → Session f → Session f
  stop_if_idle [] s = record s { ticking = false }
  stop_if_idle (t ∷ ts) s = s

  unfoldable pub detect_seqs : ℕ → Session f → Session f
  detect_seqs now s = if s.stats.seq_negotiated then detect_seq_loss f now s else s

  unfoldable pub tick : ℕ → Session f → Session f
  tick now s =
      let seen = detect_seqs now s in
      let done = tick_each now seen.transfers seen in stop_if_idle done.transfers done

-- ===== src/Session/Noting.antt =====
-- client/src/transport.ts: what a reply and its payload change besides the transfer's bytes.
use http.Common.{
  ℕ, ◌+◌, ◌-◌, max, false, ◌&&◌, ◌||◌, Option, none, some, ltb, if◌then◌else◌, length,
}
use http.Wire.Types.{Data}
use http.RepairTracker
use http.Scheduler
use http.Budget
use http.Session.State.{Floats, Session, Transfer, Body, Probe, count}
use http.Session.Timing.{sample_min_rtt, sample_rtt, note_spurious}

-- Bytes past what the probe started from show its round trip.
abbrev pub probe_hit : Option Probe → ℕ → Option Probe
probe_hit none stop = none
probe_hit (some p) stop = if ltb p.from stop then some p else none

abbrev pub probe_left : Option Probe → ℕ → Option Probe
probe_left none stop = none
probe_left (some p) stop = if ltb p.from stop then none else some p

-- The transfer's part of an arrival of `new` fresh bytes.
unfoldable pub note_arrival : ℕ → Data → ℕ → Body → Transfer → Transfer
note_arrival now p new b t =
    let u : Transfer = record t {
      body = some b;
      probe = probe_left t.probe (p.offset + length p.payload);
    } in
    if ltb 0 new then record u { last_progress = now; recoveries = 0; tail_probed = false } else u

module _ (f : Floats) where
  -- The first reply to a request is a sample of the round trip, unless the REQ went out twice.
  unfoldable pub note_reply : ℕ → Transfer → Session f → Session f
  note_reply now t s =
      if t.replied || t.req_retransmitted then s else sample_rtt f s (now - t.req_sent_at) now

  unfoldable pub probed : ℕ → Option Probe → Session f → Session f
  probed now none s = s
  probed now (some p) s = sample_min_rtt f s (now - p.at) now

  -- A payload is counted; one that repeats bytes of a repair is a spurious one.
  unfoldable pub count_payload : ℕ → Data → ℕ → Body → Session f → Session f
  count_payload now p new b s =
      let n = length p.payload in
      let counted : Session f =
        count f
          (λ c. record c {
            data_bytes_in = c.data_bytes_in + n;
            duplicate_bytes_in = c.duplicate_bytes_in + (n - new);
          })
          (record s { payload_seen = max s.payload_seen n }) in
      if ltb new n && RepairTracker.was_requested b.repair
      then note_spurious f counted now
      else counted

  unfoldable pub note_delivered : ℕ → ℕ → Session f → Session f
  note_delivered now new s =
      if ltb 0 new then record s { budget = Budget.on_delivered f.rates s.budget new now } else s

  -- The counters, the scheduler, the probe and the budget take note of a payload.
  unfoldable pub note_payload : ℕ → Data → ℕ → Body → Transfer → Session f → Session f
  note_payload now p new b t s =
      let warned = count_payload now p new b s in
      let told : Session f = record warned {
        scheduler = Scheduler.on_data warned.scheduler t.rpc_id new;
      } in
      note_delivered now new (probed now (probe_hit t.probe (p.offset + length p.payload)) told)

-- ===== src/Session/Losses.antt =====
-- client/src/transport.ts: early loss detection for one transfer (detectLoss) and for the session
-- (detectSeqLoss), with what it sends.
use http.Common.{
  ℕ, ◌+◌, ◌-◌, ◌*◌, Bool, not, ◌||◌, Option, none, some, List, [], ◌∷◌, ltb, ◌==◌, if◌then◌else◌,
  lookup,
}
use http.Wire.Types.{resend_packet, resend_seq_packet}
use http.Reassembly
use http.Reassembly.{Reassembly}
use http.Reassembly.Ranges.{Range}
use http.RepairTracker
use http.RepairTracker.{RepairTracker}
use http.SeqTracker
use http.SeqTracker.{SeqHint, SeqTracker}
use http.Scheduler
use http.Stream.{repaired}
use http.Session.State.{Floats, Session, ClientStats, Transfer, Body, count, seq_resend_tries}
use http.Session.Timing.{or_else, first_of, payload_or, rto, reorder_window, repair_delay}
use http.Session.Sending.{send}

-- The default of SeqTracker's `maxRange`.
abbrev pub max_range : ℕ
max_range = 1024

-- The RESENDs of a loop, by what it counts of each.
abbrev pub count_resend : ClientStats → ClientStats
count_resend c = record c { resends_sent = c.resends_sent + 1 }

abbrev pub count_early_resend : ClientStats → ClientStats
count_early_resend c = record c {
  resends_sent = c.resends_sent + 1;
  early_resends = c.early_resends + 1;
}

abbrev pub count_tail_probe : ClientStats → ClientStats
count_tail_probe c = record c { resends_sent = c.resends_sent + 1; tail_probes = c.tail_probes + 1 }

-- How far detection looks: below the frontier, less some packets while more data is expected.
abbrev pub loss_limit : ℕ → ℕ → ℕ → ℕ
loss_limit frontier granted allowance =
    if ltb frontier granted then frontier - allowance else frontier

abbrev pub asm_of : Option Body → Option Reassembly
asm_of none = none
asm_of (some b) = some b.asm

-- The reassembly that a hint's transfer has, for `repaired`.
abbrev pub hinted : Option Transfer → Option (Option Reassembly)
hinted none = none
hinted (some t) = some (asm_of t.body)

module _ (f : Floats) where
  unfoldable pub send_resends : (ClientStats → ClientStats) → ℕ → List Range → Session f → Session f
  send_resends g id [] s = s
  send_resends g id (r ∷ rs) s = send_resends g id rs (
      send f (count f g s) (resend_packet (record { rpc_id = id; start = r.start; stop = r.stop })))

  abbrev pub allowance_of : Session f → ℕ
  allowance_of s = s.cfg.reorder_packets * payload_or s.payload_seen

  -- `detectLoss` from its test of the limit on: the lost ranges and the tracker behind them.
  unfoldable pub lost_ranges : Session f → ℕ → ℕ → Body → List Range × RepairTracker
  lost_ranges s now granted b =
      let limit = loss_limit (Reassembly.frontier b.asm) granted (allowance_of s) in
      if limit == 0
      then ([], b.repair)
      else RepairTracker.detect b.repair b.asm limit now (reorder_window f s) (repair_delay f s)

  unfoldable pub detect_in : ℕ → Transfer → Option Body → Session f → Transfer × Session f
  detect_in now t none s = (t, s)
  detect_in now t (some b) s =
      let granted = or_else (Scheduler.granted s.scheduler t.rpc_id) b.asm.size in
      let r = lost_ranges s now granted b in
      if not s.cfg.early_resend || s.stats.seq_negotiated then (t, s) else (
        record t { body = some (record b { repair = r.1 }) },
        send_resends count_early_resend t.rpc_id r.0 s,
      )

  unfoldable pub detect_loss : ℕ → Transfer → Session f → Transfer × Session f
  detect_loss now t s = detect_in now (record t { last_detect = some now }) t.body s

  unfoldable pub send_resend_seq : (ClientStats → ClientStats) → Range → Session f → Session f
  send_resend_seq g r s =
      send f
        (count f
          (λ c. record c {
            seq_resends_sent = c.seq_resends_sent + 1;
            resends_sent = c.resends_sent + 1;
          })
          (count f g s))
        (resend_seq_packet (record { rpc_id = 0; start = r.start; stop = r.stop }))

  unfoldable pub send_resend_seqs :
      (Range → ClientStats → ClientStats) → List Range → Session f → Session f
  send_resend_seqs g [] s = s
  send_resend_seqs g (r ∷ rs) s = send_resend_seqs g rs (send_resend_seq (g r) r s)

  abbrev pub count_lost_seq : Range → ClientStats → ClientStats
  count_lost_seq r c = record c {
    seq_lost = c.seq_lost + (r.stop - r.start);
    early_resends = c.early_resends + 1;
  }

  -- `this.repaired(h)`.
  abbrev pub is_repaired : Session f → SeqHint → Bool
  is_repaired s h = repaired (hinted (lookup h.rpc_id s.transfers)) h

  unfoldable pub repair_seqs : ℕ → Session f → Session f
  repair_seqs now s =
      let window = reorder_window f s in
      let tail = window + or_else (first_of s.srtt s.budget.min_rtt) (rto f s) in
      let d = SeqTracker.detect s.seq now s.cfg.reorder_packets window (some tail) max_range in
      let asked : Session f = send_resend_seqs count_lost_seq d.0 (record s { seq = d.1 }) in
      let r =
        SeqTracker.repeats asked.seq now (2 * repair_delay f asked) seq_resend_tries
          (is_repaired asked) max_range in
      send_resend_seqs (λ g c. c) r.0 (record asked { seq = r.1 })

  unfoldable pub detect_seq_loss : ℕ → Session f → Session f
  detect_seq_loss now s =
      let seen : Session f = record s { last_seq_detect = some now } in
      if s.cfg.early_resend then repair_seqs now seen else seen

-- ===== src/Session/Opening.antt =====
-- client/src/transport.ts: ClientOptions and the constructor; the reader and the session's end are
-- events.
use http.Common.{ℕ, Bool, true, false, Option, none, some, List, [], if◌then◌else◌}
use http.Wire.Types.{Packet}
use http.SeqTracker
use http.Scheduler
use http.Scheduler.{GrantTrace}
use http.Budget
use http.Session.State.{
  Floats, Config, ClientStats, Session, count, default_budget_floor, default_budget_cap,
  default_min_increment, default_rto_floor_ms, default_max_recoveries, default_reorder_packets,
  initial_rto_ms,
}
use http.Session.Timing.{or_else, rto, reorder_window}
use http.Session.Sending.{send_hello, sync_queue_limit}

-- ClientOptions, as far as the session reads them; `k` is in the rates.
pub record ClientOptions : Type 0 where
  pub budget : Option ℕ
  pub budget_floor : Option ℕ
  pub budget_cap : Option ℕ
  pub min_increment : Option ℕ
  pub initial_grant : Option ℕ
  pub rto_floor_ms : Option ℕ
  pub max_recoveries : Option ℕ
  pub early_resend : Option Bool
  pub reorder_packets : Option ℕ
  pub session_seq : Option Bool
  pub drop_outgoing : Option (Packet → Bool)
  pub trace : Bool

abbrev pub bool_or : Option Bool → Bool → Bool
bool_or none b = b
bool_or (some a) b = a

abbrev pub drops_of : Option (Packet → Bool) → Packet → Bool
drops_of none p = false
drops_of (some drops) p = drops p

-- `opts.budget ?? opts.budgetFloor ?? DEFAULT_BUDGET_FLOOR`.
abbrev pub budget_bound : Option ℕ → Option ℕ → ℕ → ℕ
budget_bound (some fixed) bound d = fixed
budget_bound none bound d = or_else bound d

unfoldable pub config_of : ClientOptions → ℕ → Config
config_of o max_datagram_size = record {
  initial_grant = o.initial_grant;
  rto_floor = or_else o.rto_floor_ms default_rto_floor_ms;
  max_recoveries = or_else o.max_recoveries default_max_recoveries;
  early_resend = bool_or o.early_resend true;
  reorder_packets = or_else o.reorder_packets default_reorder_packets;
  session_seq = bool_or o.session_seq true;
  drops = drops_of o.drop_outgoing;
  max_datagram_size = max_datagram_size;
}

unfoldable pub no_stats : ClientStats
no_stats = record {
  packets_in = 0;
  malformed_in = 0;
  data_bytes_in = 0;
  duplicate_bytes_in = 0;
  grants_sent = 0;
  reqs_sent = 0;
  req_retransmits = 0;
  resends_sent = 0;
  early_resends = 0;
  tail_probes = 0;
  spurious_repairs = 0;
  reorder_window_ms = 0;
  hellos_sent = 0;
  seq_negotiated = false;
  data_seq_in = 0;
  seq_lost = 0;
  seq_resends_sent = 0;
  meta_in = 0;
  stream_pauses = 0;
  recoveries = 0;
  dropped_outgoing = 0;
  srtt_ms = none;
  rto_ms = 0;
  budget = 0;
  bdp_bytes = 0;
  min_rtt_ms = none;
  budget_min = 0;
  grants_at_floor = 0;
}

module _ (f : Floats) where
  -- The fields of a new client.
  unfoldable pub new_session : ClientOptions → ℕ → ℕ → Session f
  new_session o max_datagram_size queue_limit =
      let floor = budget_bound o.budget o.budget_floor default_budget_floor in
      let cap = budget_bound o.budget o.budget_cap default_budget_cap in
      let b = Budget.init f.rates floor cap in
      let trace : Option (List GrantTrace) = if o.trace then some [] else none in
      record {
        cfg = config_of o max_datagram_size;
        transfers = [];
        scheduler = Scheduler.init b.current (or_else o.min_increment default_min_increment) trace;
        budget = b;
        seq = SeqTracker.init;
        last_seq_detect = none;
        payload_seen = 0;
        reorder_steps = 1;
        last_spurious_at = none;
        last_loss_backoff_at = none;
        srtt = none;
        rttvar = 0;
        initial_rto = initial_rto_ms;
        last_backoff_at = none;
        ticking = false;
        closed = false;
        session_closed = false;
        queue_limit = some queue_limit;
        stats = no_stats;
        sent = [];
        answers = [];
        ended = [];
        thrown = [];
      }

  -- The constructor; the reader and the session's end are events.
  unfoldable pub connect : ClientOptions → ℕ → ℕ → Session f
  connect o max_datagram_size queue_limit =
      let s = sync_queue_limit f (new_session o max_datagram_size queue_limit) in
      send_hello f (
        count f
          (λ c. record c {
            rto_ms = rto f s;
            budget = s.budget.current;
            reorder_window_ms = reorder_window f s;
          })
          s)

-- ===== src/Session/State.antt =====
-- client/src/transport.ts: the constants, ClientOptions, ClientStats, a Transfer and the fields of
-- Http4Client. Times are natural numbers; `none` for a time stands for -Infinity, and for a queue
-- limit for Infinity. A handler reads
-- the clock once.
use http.Common.{ℕ, ◌*◌, Bool, Option, List, assign}
use http.Wire.Types.{Str, Packet, Malformed}
use http.Priority.{PriorityClass}
use http.Reassembly.{Reassembly}
use http.RepairTracker.{RepairTracker}
use http.SeqTracker.{SeqTracker}
use http.Scheduler.{Scheduler}
use http.Budget.{Rates, Budget}
use http.Stream.{StreamState}

abbrev pub default_budget_floor : ℕ
default_budget_floor = 128 * 1024

abbrev pub default_budget_cap : ℕ
default_budget_cap = 16 * 1024 * 1024

abbrev pub min_initial_grant : ℕ
min_initial_grant = 4096

abbrev pub max_initial_grant : ℕ
max_initial_grant = 64 * 1024

abbrev pub default_min_increment : ℕ
default_min_increment = 16 * 1024

abbrev pub default_rto_floor_ms : ℕ
default_rto_floor_ms = 20

abbrev pub default_max_recoveries : ℕ
default_max_recoveries = 10

abbrev pub default_reorder_packets : ℕ
default_reorder_packets = 3

abbrev pub initial_rto_ms : ℕ
initial_rto_ms = 100

abbrev pub max_initial_rto_ms : ℕ
max_initial_rto_ms = 1000

abbrev pub max_rto_ms : ℕ
max_rto_ms = 2000

abbrev pub max_resend_ranges : ℕ
max_resend_ranges = 16

abbrev pub default_payload : ℕ
default_payload = 1183

abbrev pub min_reorder_window_ms : ℕ
min_reorder_window_ms = 1

abbrev pub max_reorder_steps : ℕ
max_reorder_steps = 16

abbrev pub detect_interval_ms : ℕ
detect_interval_ms = 1

abbrev pub min_repair_delay_ms : ℕ
min_repair_delay_ms = 2

abbrev pub server_send_queue_packets : ℕ
server_send_queue_packets = 32

abbrev pub max_drain_ms : ℕ
max_drain_ms = 10_000

abbrev pub hello_repeats : ℕ
hello_repeats = 3

abbrev pub seq_resend_tries : ℕ
seq_resend_tries = 3

-- The floating-point steps, each with its result as a whole number.
pub record Floats : Type 1 where
  pub rates : Rates
  -- r / 2, rtt / 4 and 1.5 * rtt.
  pub half : ℕ → ℕ
  pub quarter : ℕ → ℕ
  pub half_more : ℕ → ℕ
  -- 0.75 * rttvar + 0.25 * |srtt - r|.
  pub smooth_var : ℕ → ℕ → ℕ → ℕ
  -- 0.875 * srtt + 0.125 * r.
  pub smooth_rtt : ℕ → ℕ → ℕ
  -- rate > 0, and bytes / rate.
  pub is_positive : rates.Rate → Bool
  pub drain : ℕ → rates.Rate → ℕ
  -- Math.floor and Math.round of maxRate * minRtt.
  pub bdp_floor : rates.Rate → ℕ → ℕ
  pub bdp_round : rates.Rate → ℕ → ℕ

-- The options in force, with their defaults filled in.
pub record Config : Type 0 where
  pub initial_grant : Option ℕ
  pub rto_floor : ℕ
  pub max_recoveries : ℕ
  pub early_resend : Bool
  pub reorder_packets : ℕ
  pub session_seq : Bool
  pub drops : Packet → Bool
  pub max_datagram_size : ℕ

pub record ClientStats : Type 0 where
  pub packets_in : ℕ
  pub malformed_in : ℕ
  pub data_bytes_in : ℕ
  pub duplicate_bytes_in : ℕ
  pub grants_sent : ℕ
  pub reqs_sent : ℕ
  pub req_retransmits : ℕ
  pub resends_sent : ℕ
  pub early_resends : ℕ
  pub tail_probes : ℕ
  pub spurious_repairs : ℕ
  pub reorder_window_ms : ℕ
  pub hellos_sent : ℕ
  pub seq_negotiated : Bool
  pub data_seq_in : ℕ
  pub seq_lost : ℕ
  pub seq_resends_sent : ℕ
  pub meta_in : ℕ
  pub stream_pauses : ℕ
  pub recoveries : ℕ
  pub dropped_outgoing : ℕ
  pub srtt_ms : Option ℕ
  pub rto_ms : ℕ
  pub budget : ℕ
  pub bdp_bytes : ℕ
  pub min_rtt_ms : Option ℕ
  pub budget_min : ℕ
  pub grants_at_floor : ℕ

-- `asm` and `repair`, which are set together.
pub record Body : Type 0 where
  pub asm : Reassembly
  pub repair : RepairTracker

pub record Probe : Type 0 where
  pub from : ℕ
  pub at : ℕ

pub record Transfer : Type 0 where
  pub rpc_id : ℕ
  pub asset_id : Str
  pub cls : PriorityClass
  pub initial_grant : ℕ
  pub body : Option Body
  pub last_detect : Option ℕ
  pub tail_probed : Bool
  pub headers : Option (List (Str × Str))
  pub replied : Bool
  pub stream : Option StreamState
  pub settled : Bool
  pub req_sent_at : ℕ
  pub req_retransmitted : Bool
  pub base_rto : ℕ
  pub ceiling : ℕ
  pub probe : Option Probe
  pub last_progress : ℕ
  pub recoveries : ℕ

-- Why a transfer fails, one constructor for each error.
pub data Failure : Type 0 where
  client_closed session_over asset_id_too_long outside_asset read_failed : Failure
  total_size_changed : ℕ → ℕ → Failure
  failure_code : ℕ → Failure
  no_progress : Failure

-- What a request's promise settles with: the whole body, a stream, or an error.
pub data Answer : Type 0 where
  response : List ℕ → List (Str × Str) → Answer
  streaming : ℕ → List (Str × Str) → Answer
  failure : Failure → Answer

-- How a body stream ended, with what its reader was given.
pub data StreamEnd : Type 0 where
  closes : List ℕ → StreamEnd
  errors : List ℕ → Failure → StreamEnd

module _ (f : Floats) where
  -- Http4Client, with what it has sent (newest last), the promises that it settled and the streams
  -- that it ended (newest first), and the calls that threw because encode refused their REQ.
  pub record Session : Type 0 where
    pub cfg : Config
    pub transfers : List (ℕ × Transfer)
    pub scheduler : Scheduler
    pub budget : Budget f.rates
    pub seq : SeqTracker
    pub last_seq_detect : Option ℕ
    pub payload_seen : ℕ
    pub reorder_steps : ℕ
    pub last_spurious_at : Option ℕ
    pub last_loss_backoff_at : Option ℕ
    pub srtt : Option ℕ
    pub rttvar : ℕ
    pub initial_rto : ℕ
    pub last_backoff_at : Option ℕ
    pub ticking : Bool
    pub closed : Bool
    pub session_closed : Bool
    pub queue_limit : Option ℕ
    pub stats : ClientStats
    pub sent : List Packet
    pub answers : List (ℕ × Answer)
    pub ended : List (ℕ × StreamEnd)
    pub thrown : List (ℕ × Malformed)

  -- A change of the counters.
  abbrev pub count : (ClientStats → ClientStats) → Session → Session
  count g s = record s { stats = g s.stats }

  -- A Transfer is an object that the Map shares: a change of it is written back.
  abbrev pub put_transfer : ℕ → Transfer → Session → Session
  put_transfer id t s = record s { transfers = assign id t s.transfers }

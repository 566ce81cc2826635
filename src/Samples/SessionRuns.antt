-- ===== src/Samples/SessionRuns.antt =====
-- client/src/transport.ts: one request for an asset of two bytes, from the connection to the answer.
use http.Common.{
  ℕ, ◌+◌, ◌-◌, ◌*◌, ◌/◌, ◌≤◌, ◌<◌, ◌≡◌, ◌⊎◌, refl, sym, ◌∙◌, subst, true, false, none, some, List,
  [], ◌∷◌, ltb, lookup, assign, erase, has, arith, Distinct,
}
use http.Wire.Types.{Data}
use http.Wire.Decode.{decode}
use http.Priority.{normal}
use http.Budget
use http.Reassembly
use http.Reassembly.Ranges
use http.RepairTracker
use http.Scheduler
use http.Session.Events
use http.Session.Opening
use http.Session.Handling
use http.Session.Noting
use http.Session.Losses
use http.Session.Sending
use http.Session.Timing
use http.Stream
use http.Wire.Bytes
use http.Wire.Checks
use http.Wire.Decode
use http.Wire.Encode
use http.Session.State.{
  Floats, Session, Transfer, response, streaming, closes, session_over, failure, no_progress,
}
use http.Session.Finishing
use http.Session.Recovery
use http.Session.Opening.{ClientOptions, connect}
use http.Session.Events.{Input, starts, reads, step}
use http.Session.Responding.{data_in}
use http.Session.Advancing.{IsPieceOf}
use http.Session.Reaching.{Reachable, connected, stepped}
use http.Session.Ending.{fail_all-settles}
use http.Session.Stalling.{recover_lem}
use http.Session.Sound.{IsAnswer, IsEnd, IsStream}
use http.Scheduler.{set_budget, grants}
use http.Session.Pumping.{Pumped}
use http.Session.Outcomes.{
  answer-IsAnswer, ended-IsEnd, settles_once, in_flight, pump_grants-Pumped,
}
use http.Samples.WireRuns.{ascii_utf8}
use http.Samples.BudgetRuns.{whole_rates}

abbrev whole_floats : Floats
whole_floats = record {
  rates = whole_rates;
  half = λ r. r / 2;
  quarter = λ r. r / 4;
  half_more = λ r. r * 3 / 2;
  smooth_var = λ rttvar srtt r. (3 * rttvar + (srtt - r) + (r - srtt)) / 4;
  smooth_rtt = λ srtt r. (7 * srtt + r) / 8;
  is_positive = λ rate. ltb 0 rate;
  drain = λ bytes rate. bytes * 1000 / rate;
  bdp_floor = λ rate rtt. rate * rtt / 1000;
  bdp_round = λ rate rtt. (rate * rtt + 500) / 1000;
}

abbrev no_options : ClientOptions
no_options = record {
  budget = none;
  budget_floor = none;
  budget_cap = none;
  min_increment = none;
  initial_grant = none;
  rto_floor_ms = none;
  max_recoveries = none;
  early_resend = none;
  reorder_packets = none;
  session_seq = none;
  drop_outgoing = none;
  trace = false;
}

abbrev two_bytes : ℕ → List ℕ
two_bytes id = 7 ∷ 9 ∷ []

abbrev first : Session whole_floats
first = connect whole_floats no_options 1200 64

abbrev ask : Input
ask = record { now = 10; behind = λ id. false; event = starts 5 (97 ∷ []) false normal }

abbrev data_datagram : List ℕ
data_datagram = 2 ∷ 0 ∷ 0 ∷ 0 ∷ 0 ∷ 0 ∷ 0 ∷ 0 ∷ 5 ∷ 0 ∷ 0 ∷ 0 ∷ 2 ∷ 0 ∷ 0 ∷ 0 ∷ 0 ∷ 7 ∷ 9 ∷ []

abbrev meta_datagram : List ℕ
meta_datagram = 6 ∷ 0 ∷ 0 ∷ 0 ∷ 0 ∷ 0 ∷ 0 ∷ 0 ∷ 5 ∷ 0 ∷ []

abbrev take_in : ℕ → List ℕ → Input
take_in now value = record { now = now; behind = λ id. false; event = reads value }

abbrev asked : Session whole_floats
asked = step whole_floats ascii_utf8 first ask

abbrev half_in : Session whole_floats
half_in = step whole_floats ascii_utf8 asked (take_in 30 data_datagram)

abbrev all_in : Session whole_floats
all_in = step whole_floats ascii_utf8 half_in (take_in 31 meta_datagram)

abbrev two_data : Data
two_data = record { rpc_id = 5; total_size = 2; offset = 0; payload = 7 ∷ 9 ∷ [] }

-- The same with a stream.
abbrev ask_stream : Input
ask_stream = record ask { event = starts 5 (97 ∷ []) true normal }

abbrev stream_asked : Session whole_floats
stream_asked = step whole_floats ascii_utf8 first ask_stream

abbrev stream_half : Session whole_floats
stream_half = step whole_floats ascii_utf8 stream_asked (take_in 30 data_datagram)

abbrev stream_in : Session whole_floats
stream_in = step whole_floats ascii_utf8 stream_half (take_in 31 meta_datagram)

-- What the code does in these runs.
two_bytes_arrive :
    ((has 5 first.transfers ≡ false) × (has 5 first.answers ≡ false) × (has 5 first.ended ≡ false))
    × (data_in (decode ascii_utf8 data_datagram) ≡ some two_data)
    × (data_in (decode ascii_utf8 meta_datagram) ≡ none)
    × (lookup 5 all_in.answers ≡ some (response (7 ∷ 9 ∷ []) []))
    × (lookup 5 stream_in.answers ≡ some (streaming 2 []))
    × (lookup 5 stream_in.ended ≡ some (closes (7 ∷ 9 ∷ [])))
    × (has 5 half_in.transfers ≡ true)
    × ((t : Transfer) × (lookup 5 stream_half.transfers ≡ some t))
unfolding lookup assign erase Decode.decode_data Decode.meta_loop Decode.decode_meta
    Decode.decode_body Decode.decode Encode.header Encode.encode_req Encode.encode_body
    Encode.encode Checks.check_data_bounds Checks.check_u64 Checks.check_u32 Checks.check_fields
    Checks.check_meta Bytes.get_u16 Bytes.get_u32 Bytes.get_u64 Bytes.write Reassembly.init
    Reassembly.complete Reassembly.frontier Reassembly.add Reassembly.missing Ranges.skip
    Ranges.absorb Ranges.insert_range Ranges.gaps_from RepairTracker.suspect_loop
    RepairTracker.uncovered RepairTracker.claim RepairTracker.detect Scheduler.find Scheduler.put
    Scheduler.delete Scheduler.modify Scheduler.init Scheduler.set_budget Scheduler.add
    Scheduler.remove Scheduler.on_data Scheduler.granted Scheduler.outstanding
    Scheduler.sort_candidates Scheduler.filter_wants Scheduler.candidates Scheduler.grant_loop
    Scheduler.grants Budget.init Budget.on_rtt_sample Budget.delivered_since Budget.on_delivered
    Timing.sample_min_rtt Timing.sample_rtt Sending.reserved_in Sending.send Sending.send_hello
    Sending.reserved Sending.next_initial_grant Sending.sync_queue_limit Sending.send_grants
    Sending.note_budget Sending.pump_grants Finishing.flush Finishing.started Finishing.note_pause
    Finishing.note_start Finishing.settle Finishing.forget Finishing.finish Losses.send_resends
    Losses.lost_ranges Losses.detect_in Losses.detect_loss Noting.note_arrival Noting.note_reply
    Noting.probed Noting.count_payload Noting.note_delivered Noting.note_payload
    Handling.look_for_losses Handling.advance Handling.stored Handling.store Handling.take_data
    Handling.handle_data Handling.take_meta Handling.handle_meta Handling.handle_for
    Handling.handle_found Handling.handle_packet Handling.handle Handling.handle_decoded
    Handling.read Opening.config_of Opening.no_stats Opening.new_session Opening.connect
    Events.is_open Events.new_transfer Events.begin Events.start Events.step_on Stream.make_stream
    Stream.flush_stream Reassembly.contiguous
two_bytes_arrive = ((refl, refl, refl), refl, refl, refl, refl, refl, refl, (_, refl))

data_IsPieceOf :
    (d : Data)
    → data_in (decode ascii_utf8 data_datagram) ≡ some d
    → IsPieceOf (two_bytes d.rpc_id) d
data_IsPieceOf d e =
    let same : two_data ≡ d = let p = sym two_bytes_arrive.1 ∙ e in cc p in
    subst (λ p. IsPieceOf (two_bytes p.rpc_id) p) same
      (record { whole = refl; inside = omega arith; same = refl })

meta_IsPieceOf :
    (d : Data)
    → data_in (decode ascii_utf8 meta_datagram) ≡ some d
    → IsPieceOf (two_bytes d.rpc_id) d
meta_IsPieceOf d e = let p = sym two_bytes_arrive.2 ∙ e in cc p

abbrev Reached : Session whole_floats → Type 1
Reached = Reachable two_bytes whole_floats ascii_utf8 no_options 1200 64

half_in-Reached : Reached half_in
half_in-Reached =
    stepped asked (take_in 30 data_datagram) (stepped first ask connected two_bytes_arrive.0)
      data_IsPieceOf

all_in-Reached : Reached all_in
all_in-Reached = stepped half_in (take_in 31 meta_datagram) half_in-Reached meta_IsPieceOf

stream_half-Reached : Reached stream_half
stream_half-Reached =
    stepped stream_asked (take_in 30 data_datagram)
      (stepped first ask_stream connected two_bytes_arrive.0) data_IsPieceOf

stream_in-Reached : Reached stream_in
stream_in-Reached =
    stepped stream_half (take_in 31 meta_datagram) stream_half-Reached meta_IsPieceOf

answer-IsAnswer_example : IsAnswer (two_bytes 5) (response (7 ∷ 9 ∷ []) [])
answer-IsAnswer_example =
    answer-IsAnswer two_bytes whole_floats ascii_utf8 no_options 1200 64 all_in all_in-Reached 5
      (response (7 ∷ 9 ∷ []) []) two_bytes_arrive.3

ended-IsEnd_example : IsEnd (two_bytes 5) (closes (7 ∷ 9 ∷ []))
ended-IsEnd_example =
    ended-IsEnd two_bytes whole_floats ascii_utf8 no_options 1200 64 stream_in stream_in-Reached 5
      (closes (7 ∷ 9 ∷ [])) two_bytes_arrive.5

settles_once_example :
    Distinct stream_in.answers × Distinct stream_in.ended × Distinct stream_in.transfers
settles_once_example =
    settles_once two_bytes whole_floats ascii_utf8 no_options 1200 64 stream_in stream_in-Reached

in_flight_example :
    (has 5 stream_half.answers ≡ two_bytes_arrive.7.0.settled)
    × (has 5 stream_half.ended ≡ false)
    × IsStream (two_bytes 5) two_bytes_arrive.7.0.stream
in_flight_example =
    in_flight two_bytes whole_floats ascii_utf8 no_options 1200 64 stream_half stream_half-Reached 5
      two_bytes_arrive.7.0 two_bytes_arrive.7.1

pump_grants-Pumped_example :
    Pumped whole_floats half_in (Sending.pump_grants whole_floats 35 half_in)
pump_grants-Pumped_example =
    pump_grants-Pumped two_bytes whole_floats ascii_utf8 no_options 1200 64 half_in half_in-Reached
      35

-- The session ends while the request of two bytes waits for its META.
fail_all-settles_example :
    let r = Finishing.fail_all whole_floats 40 session_over half_in in
    (r.transfers ≡ []) × (r.ticking ≡ false) × (has 5 r.answers ≡ true)
fail_all-settles_example =
    fail_all-settles two_bytes whole_floats ascii_utf8 no_options 1200 64 40 5 session_over half_in
      half_in-Reached two_bytes_arrive.6

abbrev waiting : Transfer
waiting = record {
  rpc_id = 5;
  asset_id = 97 ∷ [];
  cls = normal;
  initial_grant = 4096;
  body = none;
  last_detect = none;
  tail_probed = false;
  headers = none;
  replied = false;
  stream = none;
  settled = false;
  req_sent_at = 10;
  req_retransmitted = false;
  base_rto = 100;
  ceiling = 4096;
  probe = none;
  last_progress = 10;
  recoveries = 0;
}

-- The first timeout of a request that had no reply.
recover_lem_example :
    let s : Session whole_floats = record first { transfers = (5, waiting) ∷ [] } in
    let r = Recovery.recover whole_floats 200 0 waiting s in
    ((u : Transfer) × (lookup 5 r.transfers ≡ some u)
      × (u.last_progress ≡ 200)
      × (s.cfg.max_recoveries - u.recoveries < s.cfg.max_recoveries - 0))
    ⊎ ((s.cfg.max_recoveries ≤ 0)
        × (has 5 r.transfers ≡ false)
        × (lookup 5 r.answers ≡ some (failure no_progress)))
recover_lem_example =
    recover_lem whole_floats 200 0 waiting (record first { transfers = (5, waiting) ∷ [] })
      (refl, tt) refl

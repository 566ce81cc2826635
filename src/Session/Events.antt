-- ===== src/Session/Events.antt =====
-- client/src/transport.ts: the calls of the client's users and the events that the session, its ticker
-- and its readers bring. A request's random rpc ID comes with the event.
use http.Common.{
  ℕ, ◌+◌, Bool, true, false, not, ◌&&◌, none, some, List, ◌∷◌, ltb, if◌then◌else◌, length, assign,
}
use http.Wire.Types.{Str, Packet, req_packet, Result, ok, err}
use http.Wire.Checks.{Utf8}
use http.Wire.Encode.{encode}
use http.Priority.{PriorityClass}
use http.Stream.{make_stream}
use http.Session.State.{
  Floats, Session, Transfer, Failure, failure, count, client_closed, session_over,
  asset_id_too_long, read_failed,
}
use http.Session.Timing.{rto}
use http.Session.Sending.{send, send_hello, next_initial_grant}
use http.Session.Finishing.{fail_all, pull, cancel}
use http.Session.Handling.{read}
use http.Session.Recovery.{tick}

module _ (f : Floats) where
  unfoldable pub is_open : Session f → Bool
  is_open s = not s.closed && not s.session_closed

  -- A request that ends before it begins.
  unfoldable pub reject : ℕ → Failure → Session f → Session f
  reject rpc_id why s = record s { answers = (rpc_id, failure why) ∷ s.answers }

  unfoldable pub new_transfer : ℕ → ℕ → ℕ → Str → Bool → PriorityClass → Session f → Transfer
  new_transfer now rpc_id initial_grant asset_id streams cls s = record {
    rpc_id = rpc_id;
    asset_id = asset_id;
    cls = cls;
    initial_grant = initial_grant;
    body = none;
    last_detect = none;
    tail_probed = false;
    headers = none;
    replied = false;
    stream = if streams then some make_stream else none;
    settled = false;
    req_sent_at = now;
    req_retransmitted = false;
    base_rto = rto f s;
    ceiling = initial_grant;
    probe = none;
    last_progress = now;
    recoveries = 0;
  }

  -- The REQ of a new transfer, if it fits a datagram. Where encode refuses it, the call throws.
  unfoldable pub begin : Transfer → Packet → Result (List ℕ) → Session f → Session f
  begin t req (err why) s = record s { thrown = (t.rpc_id, why) ∷ s.thrown }
  begin t req (ok bytes) s =
      let started : Session f =
        count f (λ c. record c { reqs_sent = c.reqs_sent + 1 })
          (record s { transfers = assign t.rpc_id t s.transfers; ticking = true }) in
      if ltb s.cfg.max_datagram_size (length bytes)
      then reject t.rpc_id asset_id_too_long s
      else send f (send_hello f started) req

  unfoldable pub start : Utf8 → ℕ → ℕ → Str → Bool → PriorityClass → Session f → Session f
  start u now rpc_id asset_id streams cls s =
      let initial_grant = next_initial_grant f s in
      let req =
        req_packet
          (record { rpc_id = rpc_id; initial_grant = initial_grant; asset_id = asset_id }) in
      let t = new_transfer now rpc_id initial_grant asset_id streams cls s in
      if is_open s
      then begin t req (encode u req) s
      else reject rpc_id (if s.closed then client_closed else session_over) s

  -- `close`, and the session's end, which follows it.
  unfoldable pub close : Session f → Session f
  close s = record s { closed = true }

  unfoldable pub end_session : ℕ → Session f → Session f
  end_session now s = fail_all f now session_over (record s { session_closed = true })

pub data Event : Type 0 where
  starts : ℕ → Str → Bool → PriorityClass → Event
  reads : List ℕ → Event
  read_fails : Event
  ticks : Event
  pulls : ℕ → Event
  cancels : ℕ → Event
  closes_client : Event
  ends : Event

-- An event, the clock, and whether the reader of each transfer's stream is behind.
pub record Input : Type 0 where
  pub now : ℕ
  pub behind : ℕ → Bool
  pub event : Event

module _ (f : Floats) (u : Utf8) where
  unfoldable pub step_on : ℕ → (ℕ → Bool) → Event → Session f → Session f
  step_on now behind (starts id asset_id streams cls) s = start f u now id asset_id streams cls s
  step_on now behind (reads value) s = read f u now behind value s
  step_on now behind read_fails s = fail_all f now read_failed s
  step_on now behind ticks s = if s.ticking then tick f now s else s
  step_on now behind (pulls id) s = pull f now id s
  step_on now behind (cancels id) s = cancel f now id s
  step_on now behind closes_client s = close f s
  step_on now behind ends s = end_session f now s

  abbrev pub step : Session f → Input → Session f
  step s i = step_on i.now i.behind i.event s

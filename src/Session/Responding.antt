-- ===== src/Session/Responding.antt =====
-- client/src/transport.ts: a decoded datagram, and a reader that takes bytes or cancels, keep a
-- session sound.
use http.Common.{ℕ, ◌≡◌, refl, Bool, false, Option, none, some, List, lookup, if_cases, subst}
use http.Wire.Types.{
  Packet, Data, Result, ok, err, req_packet, data_packet, grant_packet, resend_packet, error_packet,
  meta_packet, hello_packet, data_seq_packet, resend_seq_packet,
}
use http.Scheduler
use http.Scheduler.{grants}
use http.Scheduler.History.{pauses, step, step-IsCapped}
use http.Stream.{StreamState}
use http.Session.State.{Floats, Session, Transfer}
use http.Session.Finishing
use http.Session.Handling
use http.Session.Sound.{IsSound, IsStream}
use http.Session.Views.{note_seq-Holds}
use http.Session.Keeping.{with_rpcs, pump_grants-Good}
use http.Session.Settling.{Good, Hand, take_found, put_found, drop-Good}
use http.Session.Advancing.{IsPieceOf, handle_packet-Good}

-- The DATA that a packet brings.
abbrev pub data_of : Packet → Option Data
data_of (data_packet p) = some p
data_of (data_seq_packet p) = some (record {
  rpc_id = p.rpc_id;
  total_size = p.total_size;
  offset = p.offset;
  payload = p.payload;
})
data_of (req_packet p) = none
data_of (grant_packet p) = none
data_of (resend_packet p) = none
data_of (error_packet p) = none
data_of (meta_packet p) = none
data_of (hello_packet p) = none
data_of (resend_seq_packet p) = none

abbrev pub data_in : Result Packet → Option Data
data_in (err why) = none
data_in (ok p) = data_of p

module _ (assets : ℕ → List ℕ) (f : Floats) where
  handle-Good :
      (now : ℕ) (behind : ℕ → Bool) (p : Packet) (s : Session f)
      → ((d : Data) → data_of p ≡ some d → IsPieceOf (assets d.rpc_id) d)
      → Good assets f s
      → Good assets f (Handling.handle f now behind p s)
  unfolding Handling.handle
  handle-Good now behind (data_seq_packet p) s a h =
      handle_packet-Good assets f now behind _ _ (λ d e. a d (cc e))
        (note_seq-Holds f (IsSound assets) now p s h)
  handle-Good now behind (data_packet p) s a h =
      handle_packet-Good assets f now behind _ s (λ d e. a d (cc e)) h
  handle-Good now behind (meta_packet p) s a h =
      handle_packet-Good assets f now behind _ s (λ d e. cc e) h
  handle-Good now behind (error_packet p) s a h =
      handle_packet-Good assets f now behind _ s (λ d e. cc e) h
  handle-Good now behind (req_packet p) s a h =
      handle_packet-Good assets f now behind _ s (λ d e. cc e) h
  handle-Good now behind (grant_packet p) s a h =
      handle_packet-Good assets f now behind _ s (λ d e. cc e) h
  handle-Good now behind (resend_packet p) s a h =
      handle_packet-Good assets f now behind _ s (λ d e. cc e) h
  handle-Good now behind (hello_packet p) s a h =
      handle_packet-Good assets f now behind _ s (λ d e. cc e) h
  handle-Good now behind (resend_seq_packet p) s a h =
      handle_packet-Good assets f now behind _ s (λ d e. cc e) h

  pub handle_decoded-Good :
      (now : ℕ) (behind : ℕ → Bool) (r : Result Packet) (s : Session f)
      → ((d : Data) → data_in r ≡ some d → IsPieceOf (assets d.rpc_id) d)
      → Good assets f s
      → Good assets f (Handling.handle_decoded f now behind r s)
  unfolding Handling.handle_decoded Handling.malformed
  handle_decoded-Good now behind (err why) s a h = record { holds = h.holds }
  handle_decoded-Good now behind (ok p) s a h =
      pump_grants-Good assets f now _ (handle-Good now behind p s a h)

  resume-Good :
      (now : ℕ) (t : Transfer) (o : Option StreamState) (s : Session f)
      → t.stream ≡ o
      → Hand assets f t s
      → Good assets f s
      → Good assets f (Finishing.resume f now t o s)
  unfolding Finishing.resume Scheduler.set_paused step
  resume-Good now t none s e h g = g
  resume-Good now t (some st) s e h g =
      let p = subst (IsStream (assets t.rpc_id)) e h.holds.1.stream_agrees in
      let u : Transfer = record t { stream = some (record st { paused = false }) } in
      let k : Hand assets f u s = record {
        holds = (
          h.holds.0,
          record {
            body_agrees = h.holds.1.body_agrees;
            stream_agrees = (record { same = p.0.same; inside = p.0.inside }, p.1);
            answered = h.holds.1.answered;
            runs = h.holds.1.runs;
          },
        );
      } in
      if_cases (Good assets f) st.paused _ _
        (λ _. pump_grants-Good assets f now _ (record {
          holds =
              with_rpcs assets _ s.answers s.ended s.scheduler.rpcs _
                (step-IsCapped s.scheduler (pauses t.rpc_id false))
                (put_found assets f u s k).holds;
        }))
        (λ _. g)

  pub pull_found-Good :
      (now id : ℕ) (o : Option Transfer) (s : Session f)
      → lookup id s.transfers ≡ o
      → Good assets f s
      → Good assets f (Finishing.pull_found f now o s)
  unfolding Finishing.pull_found
  pull_found-Good now id none s e h = h
  pull_found-Good now id (some t) s e h =
      resume-Good now t t.stream s refl (take_found assets f id t s e h).1 h

  cancel_stream-Good :
      (now : ℕ) (t : Transfer) (o : Option StreamState) (s : Session f)
      → Hand assets f t s
      → Good assets f s
      → Good assets f (Finishing.cancel_stream f now t o s)
  unfolding Finishing.cancel_stream
  cancel_stream-Good now t none s h g = g
  cancel_stream-Good now t (some st) s h g = drop-Good assets f now t s h

  pub cancel_found-Good :
      (now id : ℕ) (o : Option Transfer) (s : Session f)
      → lookup id s.transfers ≡ o
      → Good assets f s
      → Good assets f (Finishing.cancel_found f now o s)
  unfolding Finishing.cancel_found
  cancel_found-Good now id none s e h = pump_grants-Good assets f now s h
  cancel_found-Good now id (some t) s e h =
      cancel_stream-Good now t t.stream s (take_found assets f id t s e h).1 h

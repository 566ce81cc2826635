-- ===== src/Session/Handling.antt =====
-- client/src/transport.ts: what a datagram does (readLoop and handle). A handler works on the value
-- of its transfer, and writes it back where the handler ends.
use http.Common.{
  ℕ, ◌+◌, Bool, true, false, Option, none, some, List, ◌==◌, if◌then◌else◌, length, lookup,
}
use http.Wire.Types.{
  Str, Packet, Data, DataSeq, Meta, Result, ok, err, req_packet, data_packet, grant_packet,
  resend_packet, error_packet, meta_packet, hello_packet, data_seq_packet, resend_seq_packet,
}
use http.Wire.Decode.{decode}
use http.Wire.Checks.{Utf8}
use http.Wire.Encode.{packet_rpc_id}
use http.Reassembly
use http.Reassembly.{Reassembly, complete}
use http.RepairTracker
use http.SeqTracker
use http.SeqTracker.{SeqArrival, fresh, reordered, spurious, duplicate}
use http.Scheduler
use http.Session.State.{
  Floats, Session, Transfer, Body, count, put_transfer, detect_interval_ms, total_size_changed,
  outside_asset, failure_code,
}
use http.Session.Timing.{has_passed, note_spurious}
use http.Session.Sending.{pump_grants}
use http.Session.Finishing.{flush, note_pause, started, note_start, finish, fail}
use http.Session.Losses.{detect_loss, detect_seq_loss}
use http.Session.Noting.{note_arrival, note_reply, note_payload}

-- `t.asm?.complete`, and `t.asm.complete && t.headers`.
abbrev pub is_whole : Option Body → Bool
is_whole none = false
is_whole (some b) = complete b.asm

abbrev pub is_ready : Option Body → Option (List (Str × Str)) → Bool
is_ready b none = false
is_ready b (some fields) = is_whole b

module _ (f : Floats) where
  -- The transfer is not finished yet: it is looked at for losses, and written back.
  unfoldable pub look_for_losses : ℕ → Transfer → Session f → Session f
  look_for_losses now t s =
      let r = detect_loss f now t s in
      if has_passed t.last_detect now detect_interval_ms
      then put_transfer f r.0.rpc_id r.0 r.1
      else put_transfer f t.rpc_id t s

  -- `maybeStart`, `flushStream` and the end of the DATA case.
  unfoldable pub advance : ℕ → Bool → Transfer → Session f → Session f
  advance now behind t s =
      let u = started t in
      let v = flush u behind in
      let told : Session f = note_pause f u behind (note_start f t s) in
      if is_ready v.body v.headers then finish f now behind v told else look_for_losses now v told

  -- A payload for a transfer that has its reassembly.
  unfoldable pub stored :
      ℕ → Bool → Data → Body → Option (ℕ × Reassembly) → Transfer → Session f → Session f
  stored now behind p b none t s = fail f now t outside_asset s
  stored now behind p b (some (new, asm)) t s =
      let c : Body = record b { asm = asm } in
      advance now behind (note_arrival now p new c t) (note_payload f now p new c t s)

  unfoldable pub store : ℕ → Bool → Data → Body → Transfer → Session f → Session f
  store now behind p b t s = stored now behind p b (Reassembly.add b.asm p.offset p.payload) t s

  -- The first DATA reveals the size; the others have to repeat it.
  unfoldable pub take_data : ℕ → Bool → Data → Option Body → Transfer → Session f → Session f
  take_data now behind p none t s =
      let b : Body = record { asm = Reassembly.init p.total_size; repair = RepairTracker.init } in
      store now behind p b t (record s {
        scheduler = Scheduler.add s.scheduler t.rpc_id p.total_size t.initial_grant 0 t.cls;
      })
  take_data now behind p (some b) t s =
      if p.total_size == b.asm.size
      then store now behind p b t s
      else fail f now t (total_size_changed b.asm.size p.total_size) s

  unfoldable pub handle_data : ℕ → Bool → Data → Transfer → Session f → Session f
  handle_data now behind p t s =
      take_data now behind p t.body (record t { replied = true }) (note_reply f now t s)

  unfoldable pub take_meta :
      ℕ → Bool → Meta → Option (List (Str × Str)) → Transfer → Session f → Session f
  take_meta now behind p (some fields) t s = put_transfer f t.rpc_id t s
  take_meta now behind p none t s =
      let u : Transfer = record t {
        headers = some p.fields;
        last_progress = now;
        recoveries = 0;
      } in
      let v = started u in
      let told : Session f = note_start f u s in
      if is_whole v.body then finish f now behind v told else put_transfer f t.rpc_id v told

  unfoldable pub handle_meta : ℕ → Bool → Meta → Transfer → Session f → Session f
  handle_meta now behind p t s =
      take_meta now behind p t.headers (record t { replied = true })
        (count f (λ c. record c { meta_in = c.meta_in + 1 }) (note_reply f now t s))

  unfoldable pub malformed : Session f → Session f
  malformed s = count f (λ c. record c { malformed_in = c.malformed_in + 1 }) s

  -- The switch, for the transfer that the packet names.
  unfoldable pub handle_for : ℕ → Bool → Packet → Transfer → Session f → Session f
  handle_for now behind (data_packet p) t s = handle_data now behind p t s
  handle_for now behind (meta_packet p) t s = handle_meta now behind p t s
  handle_for now behind (error_packet p) t s = fail f now t (failure_code p.code) s
  handle_for now behind (req_packet p) t s = malformed s
  handle_for now behind (grant_packet p) t s = malformed s
  handle_for now behind (resend_packet p) t s = malformed s
  handle_for now behind (hello_packet p) t s = malformed s
  handle_for now behind (data_seq_packet p) t s = malformed s
  handle_for now behind (resend_seq_packet p) t s = malformed s

  unfoldable pub handle_found : ℕ → (ℕ → Bool) → Packet → Option Transfer → Session f → Session f
  handle_found now behind p none s = s
  handle_found now behind p (some t) s = handle_for now (behind t.rpc_id) p t s

  unfoldable pub handle_packet : ℕ → (ℕ → Bool) → Packet → Session f → Session f
  handle_packet now behind p s = handle_found now behind p (lookup (packet_rpc_id p) s.transfers) s

  unfoldable pub warn_if : SeqArrival → ℕ → Session f → Session f
  warn_if spurious now s = note_spurious f s now
  warn_if fresh now s = s
  warn_if reordered now s = s
  warn_if duplicate now s = s

  unfoldable pub detect_seq_if : ℕ → Session f → Session f
  detect_seq_if now s =
      if has_passed s.last_seq_detect now detect_interval_ms then detect_seq_loss f now s else s

  -- The number of a DATA_SEQ is recorded before its transfer is looked up.
  unfoldable pub note_seq : ℕ → DataSeq → Session f → Session f
  note_seq now p s =
      let where_now =
        some (record { rpc_id = p.rpc_id; start = p.offset; stop = p.offset + length p.payload }) in
      let a = SeqTracker.arrive s.seq p.seq now where_now in
      let counted : Session f =
        count f (λ c. record c { data_seq_in = c.data_seq_in + 1; seq_negotiated = true })
          (record s { seq = a.1 }) in
      detect_seq_if now (warn_if a.0 now counted)

  unfoldable pub handle : ℕ → (ℕ → Bool) → Packet → Session f → Session f
  handle now behind (data_seq_packet p) s =
      handle_packet now behind
        (data_packet (record {
          rpc_id = p.rpc_id;
          total_size = p.total_size;
          offset = p.offset;
          payload = p.payload;
        }))
        (note_seq now p s)
  handle now behind (data_packet p) s = handle_packet now behind (data_packet p) s
  handle now behind (meta_packet p) s = handle_packet now behind (meta_packet p) s
  handle now behind (error_packet p) s = handle_packet now behind (error_packet p) s
  handle now behind (req_packet p) s = handle_packet now behind (req_packet p) s
  handle now behind (grant_packet p) s = handle_packet now behind (grant_packet p) s
  handle now behind (resend_packet p) s = handle_packet now behind (resend_packet p) s
  handle now behind (hello_packet p) s = handle_packet now behind (hello_packet p) s
  handle now behind (resend_seq_packet p) s = handle_packet now behind (resend_seq_packet p) s

  unfoldable pub handle_decoded : ℕ → (ℕ → Bool) → Result Packet → Session f → Session f
  handle_decoded now behind (err why) s = malformed s
  handle_decoded now behind (ok p) s = pump_grants f now (handle now behind p s)

  -- One turn of `readLoop`.
  unfoldable pub read : Utf8 → ℕ → (ℕ → Bool) → List ℕ → Session f → Session f
  read u now behind value s =
      handle_decoded now behind (decode u value)
        (count f (λ c. record c { packets_in = c.packets_in + 1 }) s)

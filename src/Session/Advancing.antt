-- ===== src/Session/Advancing.antt =====
-- client/src/transport.ts: what a packet does for its transfer keeps a session sound, when DATA
-- brings pieces of the assets.
use http.Common.{
  ℕ, ◌+◌, ◌≤◌, ◌≡◌, refl, sym, ◌∙◌, ap, subst, ◌==◌, Bool, true, Option, none, some, List, ltb,
  arith, lookup, length, if_cases,
}
use http.Wire.Types.{
  Str, Packet, Data, Meta, req_packet, data_packet, grant_packet, resend_packet, error_packet,
  meta_packet, hello_packet, data_seq_packet, resend_seq_packet,
}
use http.Wire.Encode.{packet_rpc_id}
use http.Reassembly
use http.Reassembly.Ranges.{Range}
use http.Reassembly.Adding.{Added, add-Added}
use http.Reassembly.Assembly.{Agrees, piece, add-Agrees}
use http.Reassembly.Delivery.{init-Agrees}
use http.Scheduler.History.{adds, receives, step, step-IsCapped}
use http.Session.State.{
  Floats, Session, Transfer, Body, outside_asset, total_size_changed, failure_code,
}
use http.Session.Finishing.{started, flush}
use http.Session.Handling
use http.Session.Noting
use http.Session.Handling.{is_whole, is_ready}
use http.Session.Noting.{note_arrival}
use http.Session.Sound.{IsBody, InHand}
use http.Session.Views.{note_reply-Holds, count_payload-Holds, note_probe-Holds}
use http.Session.Keeping.{with_rpcs}
use http.Session.Settling.{
  Good, Hand, take_found, with_body, put_found, note_start-Hand, flush-Hand, note_pause-Hand,
  finish-Good, fail-Good,
}
use http.Session.Noticing.{look_for_losses-Good}

-- A DATA packet that brings a piece of its transfer's asset.
pub record IsPieceOf (asset : List ℕ) (p : Data) : Type 0 where
  pub whole : p.total_size ≡ length asset
  pub inside : p.offset + length p.payload ≤ length asset
  pub same :
      p.payload ≡ piece asset (record { start = p.offset; stop = p.offset + length p.payload })

added-Agrees :
    (asset : List ℕ) (p : Data) (a b : Reassembly.Reassembly) (n : ℕ)
    → IsPieceOf asset p
    → Agrees asset a
    → Reassembly.add a p.offset p.payload ≡ some (n, b)
    → Agrees asset b
added-Agrees asset p a b n h g e =
    let r : Range = record { start = p.offset; stop = p.offset + length p.payload } in
    let d : Added a p.offset (piece asset r) n b =
      subst (λ l. Added a p.offset l n b) h.same (add-Added a p.offset p.payload n b g.valid e) in
    (add-Agrees asset r a b n (omega arith, h.inside) g d).0

ready-whole :
    (b : Option Body) (fields : Option (List (Str × Str)))
    → is_ready b fields ≡ true
    → is_whole b ≡ true
ready-whole b none e = cc e
ready-whole b (some fields) e = e

module _ (assets : ℕ → List ℕ) (f : Floats) where
  advance-Good :
      (now : ℕ) (behind : Bool) (t : Transfer) (s : Session f)
      → Hand assets f t s
      → Good assets f (Handling.advance f now behind t s)
  unfolding Handling.advance
  advance-Good now behind t s h =
      let u : Transfer = started t in
      let v : Transfer = flush u behind in
      let k =
        note_pause-Hand assets f u v behind _
          (flush-Hand assets f u behind _ (note_start-Hand assets f t s h)) in
      if_cases (Good assets f) (is_ready v.body v.headers) _ _
        (λ e. finish-Good assets f now behind v _ (ready-whole v.body v.headers e) k)
        (λ _. look_for_losses-Good assets f now v _ k)

  note_arrival-Hand :
      (now : ℕ) (p : Data) (new : ℕ) (b : Body) (t : Transfer) (s : Session f)
      → Agrees (assets t.rpc_id) b.asm
      → Hand assets f t s
      → Hand assets f (note_arrival now p new b t) s
  unfolding note_arrival
  note_arrival-Hand now p new b t s g h =
      let k = with_body assets f t (some b) s g h in
      if_cases (λ u. Hand assets f u s) (ltb 0 new) _ _ (λ _. record { holds = k.holds })
        (λ _. record { holds = k.holds })

  -- A payload is noted in an entry of the scheduler.
  note_payload-Hand :
      (now : ℕ) (p : Data) (new : ℕ) (b : Body) (t u : Transfer) (s : Session f)
      → Hand assets f u s
      → Hand assets f u (Noting.note_payload f now p new b t s)
  unfolding Noting.note_payload step
  note_payload-Hand now p new b t u s h =
      let w : Session f = Noting.count_payload f now p new b s in
      let k = (count_payload-Holds f (InHand assets u) now p new b s h).holds in
      note_probe-Holds f (InHand assets u) now new _ _ (record {
        holds = (
          (
            with_rpcs assets _ w.answers w.ended w.scheduler.rpcs _
                (step-IsCapped w.scheduler (receives t.rpc_id new)) k.0.0,
            k.0.1,
          ),
          k.1,
        );
      })

  stored-Good :
      (now : ℕ) (behind : Bool) (p : Data) (b : Body) (o : Option (ℕ × Reassembly.Reassembly))
      (t : Transfer) (s : Session f)
      → Reassembly.add b.asm p.offset p.payload ≡ o
      → IsPieceOf (assets t.rpc_id) p
      → Agrees (assets t.rpc_id) b.asm
      → Hand assets f t s
      → Good assets f (Handling.stored f now behind p b o t s)
  unfolding Handling.stored
  stored-Good now behind p b none t s e honest g h = fail-Good assets f now t outside_asset s h
  stored-Good now behind p b (some (new, asm)) t s e honest g h =
      let c : Body = record b { asm = asm } in
      let new_asm = added-Agrees (assets t.rpc_id) p b.asm asm new honest g e in
      advance-Good now behind (note_arrival now p new c t) _ (
        note_payload-Hand now p new c t (note_arrival now p new c t) s
          (note_arrival-Hand now p new c t s new_asm h))

  store-Good :
      (now : ℕ) (behind : Bool) (p : Data) (b : Body) (t : Transfer) (s : Session f)
      → IsPieceOf (assets t.rpc_id) p
      → Agrees (assets t.rpc_id) b.asm
      → Hand assets f t s
      → Good assets f (Handling.store f now behind p b t s)
  unfolding Handling.store
  store-Good now behind p b t s honest g h = stored-Good now behind p b _ t s refl honest g h

  take_data-Good :
      (now : ℕ) (behind : Bool) (p : Data) (b : Option Body) (t : Transfer) (s : Session f)
      → IsPieceOf (assets t.rpc_id) p
      → IsBody (assets t.rpc_id) b
      → Hand assets f t s
      → Good assets f (Handling.take_data f now behind p b t s)
  unfolding Handling.take_data step
  take_data-Good now behind p none t s honest g h =
      store-Good now behind p _ t _ honest
        (subst (λ n. Agrees (assets t.rpc_id) (Reassembly.init n)) (sym honest.whole)
          (init-Agrees (assets t.rpc_id)))
        (record {
          holds = (
            (
              with_rpcs assets _ s.answers s.ended s.scheduler.rpcs _
                  (step-IsCapped s.scheduler (adds t.rpc_id p.total_size t.initial_grant 0 t.cls))
                  h.holds.0.0,
              h.holds.0.1,
            ),
            h.holds.1,
          );
        })
  take_data-Good now behind p (some b) t s honest g h =
      if_cases (Good assets f) (p.total_size == b.asm.size) _ _
        (λ _. store-Good now behind p b t s honest g h)
        (λ _. fail-Good assets f now t (total_size_changed b.asm.size p.total_size) s h)

  take_meta-Good :
      (now : ℕ) (behind : Bool) (p : Meta) (o : Option (List (Str × Str))) (t : Transfer)
      (s : Session f)
      → Hand assets f t s
      → Good assets f (Handling.take_meta f now behind p o t s)
  unfolding Handling.take_meta started
  take_meta-Good now behind p (some fields) t s h = put_found assets f t s h
  take_meta-Good now behind p none t s h =
      let u : Transfer = record t {
        headers = some p.fields;
        last_progress = now;
        recoveries = 0;
      } in
      let k = note_start-Hand assets f u s (record { holds = h.holds }) in
      if_cases (Good assets f) (is_whole (started u).body) _ _
        (λ e. finish-Good assets f now behind (started u) _ e k)
        (λ _. put_found assets f (started u) _ k)

  -- A packet, for the transfer that it names.
  handle_for-Good :
      (now : ℕ) (behind : Bool) (p : Packet) (t : Transfer) (s : Session f)
      → ((d : Data) → p ≡ data_packet d → IsPieceOf (assets t.rpc_id) d)
      → Hand assets f t s
      → Good assets f s
      → Good assets f (Handling.handle_for f now behind p t s)
  unfolding Handling.handle_for Handling.handle_data Handling.handle_meta Handling.malformed
  handle_for-Good now behind (data_packet p) t s honest h g =
      let k = note_reply-Holds f (InHand assets t) now t s h in
      take_data-Good now behind p t.body (record t { replied = true }) _ (honest p refl)
        k.holds.1.body_agrees (record { holds = k.holds })
  handle_for-Good now behind (meta_packet p) t s honest h g =
      let k = note_reply-Holds f (InHand assets t) now t s h in
      take_meta-Good now behind p t.headers (record t { replied = true }) _
        (record { holds = k.holds })
  handle_for-Good now behind (error_packet p) t s honest h g =
      fail-Good assets f now t (failure_code p.code) s h
  handle_for-Good now behind (req_packet p) t s honest h g = record { holds = g.holds }
  handle_for-Good now behind (grant_packet p) t s honest h g = record { holds = g.holds }
  handle_for-Good now behind (resend_packet p) t s honest h g = record { holds = g.holds }
  handle_for-Good now behind (hello_packet p) t s honest h g = record { holds = g.holds }
  handle_for-Good now behind (data_seq_packet p) t s honest h g = record { holds = g.holds }
  handle_for-Good now behind (resend_seq_packet p) t s honest h g = record { holds = g.holds }

  handle_found-Good :
      (now : ℕ) (behind : ℕ → Bool) (p : Packet) (o : Option Transfer) (s : Session f)
      → lookup (packet_rpc_id p) s.transfers ≡ o
      → ((d : Data) → p ≡ data_packet d → IsPieceOf (assets d.rpc_id) d)
      → Good assets f s
      → Good assets f (Handling.handle_found f now behind p o s)
  unfolding Handling.handle_found
  handle_found-Good now behind p none s e honest h = h
  handle_found-Good now behind p (some t) s e honest h =
      let (same, k) = take_found assets f (packet_rpc_id p) t s e h in
      handle_for-Good now (behind t.rpc_id) p t s
        (λ d is.
          let key : t.rpc_id ≡ d.rpc_id = same ∙ ap packet_rpc_id is in
          subst (λ id. IsPieceOf (assets id) d) (sym key) (honest d is))
        k h

  pub handle_packet-Good :
      (now : ℕ) (behind : ℕ → Bool) (p : Packet) (s : Session f)
      → ((d : Data) → p ≡ data_packet d → IsPieceOf (assets d.rpc_id) d)
      → Good assets f s
      → Good assets f (Handling.handle_packet f now behind p s)
  unfolding Handling.handle_packet
  handle_packet-Good now behind p s honest h = handle_found-Good now behind p _ s refl honest h

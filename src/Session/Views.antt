-- ===== src/Session/Views.antt =====
-- client/src/transport.ts: the steps that leave the transfers, the answers, the ends and the
-- scheduler's entries of a session alone keep what holds of these.
use http.Common.{ℕ, max, not, ◌&&◌, ◌||◌, Option, none, some, List, [], ◌∷◌, ltb, if_cases, length}
use http.Wire.Types.{Packet, Data, DataSeq}
use http.Reassembly.Ranges.{Range}
use http.RepairTracker
use http.SeqTracker.{SeqArrival, fresh, reordered, spurious, duplicate}
use http.Session.State.{
  Floats, Session, ClientStats, Transfer, Body, Probe, hello_repeats, min_reorder_window_ms,
  detect_interval_ms,
}
use http.Session.Timing
use http.Session.Timing.{has_passed, or_else, first_of}
use http.Session.Sending
use http.Session.Losses
use http.Session.Handling
use http.Session.Noting
use http.Session.Recovery
use http.Session.Sound.{View, view}

module _ {κ} (f : Floats) (P : View → Type κ) where
  -- What holds of the parts that soundness is about.
  pub record Holds (s : Session f) : Type κ where
    pub holds : P (view f s)

  pub send-Holds : (s : Session f) (p : Packet) → Holds s → Holds (Sending.send f s p)
  unfolding Sending.send
  send-Holds s p h =
      if_cases Holds (s.cfg.drops p) _ _ (λ _. record { holds = h.holds })
        (λ _. record { holds = h.holds })

  pub send_hello-Holds : (s : Session f) → Holds s → Holds (Sending.send_hello f s)
  unfolding Sending.send_hello
  send_hello-Holds s h =
      if_cases Holds
        (not s.cfg.session_seq || (s.stats.seq_negotiated || ltb hello_repeats s.stats.hellos_sent))
        _ _ (λ _. h) (λ _. send-Holds _ _ (record { holds = h.holds }))

  pub note_budget-Holds : (s : Session f) → Holds s → Holds (Sending.note_budget f s)
  unfolding Sending.note_budget
  note_budget-Holds s h = record { holds = h.holds }

  note_spurious-Holds : (s : Session f) (now : ℕ) → Holds s → Holds (Timing.note_spurious f s now)
  unfolding Timing.note_spurious
  note_spurious-Holds s now h =
      if_cases Holds (has_passed s.last_spurious_at now (or_else s.srtt min_reorder_window_ms)) _ _
        (λ _. record { holds = h.holds }) (λ _. record { holds = h.holds })

  loss_backoff-Holds : (s : Session f) (now : ℕ) → Holds s → Holds (Timing.loss_backoff f s now)
  unfolding Timing.loss_backoff
  loss_backoff-Holds s now h =
      if_cases Holds
        (has_passed s.last_loss_backoff_at now
          (max min_reorder_window_ms (or_else (first_of s.srtt s.budget.min_rtt) 0)))
        _ _ (λ _. record { holds = h.holds }) (λ _. h)

  sample_rtt-Holds : (s : Session f) (r now : ℕ) → Holds s → Holds (Timing.sample_rtt f s r now)
  unfolding Timing.sample_rtt Timing.sample_min_rtt
  sample_rtt-Holds s r now h = record { holds = h.holds }

  pub send_resends-Holds :
      (g : ClientStats → ClientStats) (id : ℕ) (rs : List Range) (s : Session f)
      → Holds s
      → Holds (Losses.send_resends f g id rs s)
  unfolding Losses.send_resends
  send_resends-Holds g id [] s h = h
  send_resends-Holds g id (r ∷ rs) s h =
      send_resends-Holds g id rs _ (send-Holds _ _ (record { holds = h.holds }))

  send_resend_seqs-Holds :
      (g : Range → ClientStats → ClientStats) (rs : List Range) (s : Session f)
      → Holds s
      → Holds (Losses.send_resend_seqs f g rs s)
  unfolding Losses.send_resend_seqs Losses.send_resend_seq
  send_resend_seqs-Holds g [] s h = h
  send_resend_seqs-Holds g (r ∷ rs) s h =
      send_resend_seqs-Holds g rs _ (send-Holds _ _ (record { holds = h.holds }))

  repair_seqs-Holds : (now : ℕ) (s : Session f) → Holds s → Holds (Losses.repair_seqs f now s)
  unfolding Losses.repair_seqs
  repair_seqs-Holds now s h =
      let asked = send_resend_seqs-Holds _ _ _ (record { holds = h.holds }) in
      send_resend_seqs-Holds _ _ _ (record { holds = asked.holds })

  pub detect_seq_loss-Holds :
      (now : ℕ) (s : Session f) → Holds s → Holds (Losses.detect_seq_loss f now s)
  unfolding Losses.detect_seq_loss
  detect_seq_loss-Holds now s h =
      if_cases Holds s.cfg.early_resend _ _
        (λ _. repair_seqs-Holds now _ (record { holds = h.holds }))
        (λ _. record { holds = h.holds })

  pub note_reply-Holds :
      (now : ℕ) (t : Transfer) (s : Session f) → Holds s → Holds (Noting.note_reply f now t s)
  unfolding Noting.note_reply
  note_reply-Holds now t s h =
      if_cases Holds (t.replied || t.req_retransmitted) _ _ (λ _. h)
        (λ _. sample_rtt-Holds s _ now h)

  warn_if-Holds :
      (a : SeqArrival) (now : ℕ) (s : Session f) → Holds s → Holds (Handling.warn_if f a now s)
  unfolding Handling.warn_if
  warn_if-Holds spurious now s h = note_spurious-Holds s now h
  warn_if-Holds fresh now s h = h
  warn_if-Holds reordered now s h = h
  warn_if-Holds duplicate now s h = h

  detect_seq_if-Holds : (now : ℕ) (s : Session f) → Holds s → Holds (Handling.detect_seq_if f now s)
  unfolding Handling.detect_seq_if
  detect_seq_if-Holds now s h =
      if_cases Holds (has_passed s.last_seq_detect now detect_interval_ms) _ _
        (λ _. detect_seq_loss-Holds now s h) (λ _. h)

  pub note_seq-Holds :
      (now : ℕ) (p : DataSeq) (s : Session f) → Holds s → Holds (Handling.note_seq f now p s)
  unfolding Handling.note_seq
  note_seq-Holds now p s h =
      detect_seq_if-Holds now _ (warn_if-Holds _ now _ (record { holds = h.holds }))

  back_off-Holds : (now : ℕ) (s : Session f) → Holds s → Holds (Recovery.back_off f now s)
  unfolding Recovery.back_off
  back_off-Holds now s h =
      if_cases Holds
        (not (Recovery.is_some s.srtt) && has_passed s.last_backoff_at now s.initial_rto) _ _
        (λ _. record { holds = h.holds }) (λ _. h)

  resend_req-Holds : (t : Transfer) (s : Session f) → Holds s → Holds (Recovery.resend_req f t s)
  unfolding Recovery.resend_req
  resend_req-Holds t s h =
      if_cases Holds (Recovery.is_some t.body && Recovery.is_some t.headers) _ _ (λ _. h)
        (λ _. send-Holds _ _ (record { holds = h.holds }))

  pub resend_grant-Holds :
      (t : Transfer) (granted : ℕ) (s : Session f)
      → Holds s
      → Holds (Recovery.resend_grant f t granted s)
  unfolding Recovery.resend_grant
  resend_grant-Holds t granted s h =
      if_cases Holds (ltb t.initial_grant granted) _ _ (λ _. send-Holds _ _ h) (λ _. h)

  -- What a recovery does to the session before it asks for bytes again.
  pub slowed-Holds :
      (now : ℕ) (t : Transfer) (s : Session f)
      → Holds s
      → Holds (Recovery.resend_req f t (Recovery.back_off f now (Timing.loss_backoff f s now)))
  slowed-Holds now t s h = resend_req-Holds t _ (back_off-Holds now _ (loss_backoff-Holds s now h))

  probed-Holds :
      (now : ℕ) (p : Option Probe) (s : Session f) → Holds s → Holds (Noting.probed f now p s)
  unfolding Noting.probed Timing.sample_min_rtt
  probed-Holds now none s h = h
  probed-Holds now (some p) s h = record { holds = h.holds }

  pub count_payload-Holds :
      (now : ℕ) (p : Data) (new : ℕ) (b : Body) (s : Session f)
      → Holds s
      → Holds (Noting.count_payload f now p new b s)
  unfolding Noting.count_payload
  count_payload-Holds now p new b s h =
      if_cases Holds (ltb new (length p.payload) && RepairTracker.was_requested b.repair) _ _
        (λ _. note_spurious-Holds _ now (record { holds = h.holds }))
        (λ _. record { holds = h.holds })

  note_delivered-Holds :
      (now new : ℕ) (s : Session f) → Holds s → Holds (Noting.note_delivered f now new s)
  unfolding Noting.note_delivered
  note_delivered-Holds now new s h =
      if_cases Holds (ltb 0 new) _ _ (λ _. record { holds = h.holds }) (λ _. h)

  pub note_probe-Holds :
      (now new : ℕ) (p : Option Probe) (s : Session f)
      → Holds s
      → Holds (Noting.note_delivered f now new (Noting.probed f now p s))
  note_probe-Holds now new p s h = note_delivered-Holds now new _ (probed-Holds now p s h)

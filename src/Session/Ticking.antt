-- ===== src/Session/Ticking.antt =====
-- client/src/transport.ts: the ticker, a failing session and a reader keep a session sound.
use http.Common.{
  ℕ, ◌+◌, ◌≡◌, refl, not, ◌&&◌, ◌||◌, Option, none, some, List, [], ◌∷◌, ltb, leb, lookup, if_cases,
}
use http.Scheduler
use http.Session.State.{Floats, Session, Transfer, Body, Failure, no_progress}
use http.Session.Finishing
use http.Session.Recovery
use http.Session.Recovery.{is_some, is_waiting, granted_or_0}
use http.Session.Sound.{IsSound, IsBody, InHand}
use http.Session.Views.{send_resends-Holds, slowed-Holds, resend_grant-Holds, detect_seq_loss-Holds}
use http.Session.Settling.{Good, Hand, take_found, with_body, put_found, fail-Good}
use http.Session.Noticing.{detect_loss-Hand}

module _ (assets : ℕ → List ℕ) (f : Floats) where
  send_tail_probe-Hand :
      (now granted : ℕ) (t : Transfer) (b : Body) (s : Session f)
      → IsBody (assets t.rpc_id) (some b)
      → Hand assets f t s
      → let r = Recovery.send_tail_probe f now granted t b s in Hand assets f r.0 r.1
  unfolding Recovery.send_tail_probe
  send_tail_probe-Hand now granted t b s g h =
      send_resends-Holds f _ _ _ _ s (with_body assets f t (some (record b { repair = _ })) s g h)

  probe_body-Hand :
      (now granted : ℕ) (t : Transfer) (b : Option Body) (srtt : Option ℕ) (s : Session f)
      → IsBody (assets t.rpc_id) b
      → Hand assets f t s
      → let r = Recovery.probe_body f now granted t b srtt s in Hand assets f r.0 r.1
  unfolding Recovery.probe_body
  probe_body-Hand now granted t none srtt s g h = h
  probe_body-Hand now granted t (some b) none s g h = h
  probe_body-Hand now granted t (some b) (some srtt) s g h =
      if_cases (λ (r : Transfer × Session f). Hand assets f r.0 r.1)
        (Recovery.is_overdue f now granted t b srtt s) _ (t, s)
        (λ _. send_tail_probe-Hand now granted t b s g h) (λ _. h)

  probe_tail-Hand :
      (now granted : ℕ) (t : Transfer) (s : Session f)
      → Hand assets f t s
      → let r = Recovery.probe_tail f now granted t s in Hand assets f r.0 r.1
  unfolding Recovery.probe_tail
  probe_tail-Hand now granted t s h =
      if_cases (λ (r : Transfer × Session f). Hand assets f r.0 r.1)
        (s.cfg.early_resend && not t.tail_probed) _ (t, s)
        (λ _. probe_body-Hand now granted t t.body s.srtt s h.holds.1.body_agrees h) (λ _. h)

  recover_body-Good :
      (now granted : ℕ) (t : Transfer) (b : Option Body) (s : Session f)
      → IsBody (assets t.rpc_id) b
      → Hand assets f t s
      → Good assets f (Recovery.recover_body f now granted t b s)
  unfolding Recovery.recover_body
  recover_body-Good now granted t none s g h = put_found assets f t s h
  recover_body-Good now granted t (some b) s g h =
      let told = resend_grant-Holds f (InHand assets t) t granted s h in
      send_resends-Holds f (IsSound assets) _ _ _ _ (
        put_found assets f (record t { body = some (record b { repair = _ }) }) _
          (with_body assets f t (some (record b { repair = _ })) _ g told))

  recover-Good :
      (now granted : ℕ) (t : Transfer) (s : Session f)
      → Hand assets f t s
      → Good assets f (Recovery.recover f now granted t s)
  unfolding Recovery.recover
  recover-Good now granted t s h =
      let u : Transfer = record t {
        recoveries = t.recoveries + 1;
        probe = none;
        last_progress = now;
        req_retransmitted = t.req_retransmitted || not (is_some t.body && is_some t.headers);
      } in
      if_cases (Good assets f) (ltb s.cfg.max_recoveries (t.recoveries + 1)) _ _
        (λ _. fail-Good assets f now t no_progress s h)
        (λ _.
          recover_body-Good now granted u u.body _ h.holds.1.body_agrees
            (slowed-Holds f (InHand assets u) now u _ (record { holds = h.holds })))

  detect_if-Hand :
      (now : ℕ) (t : Transfer) (b : Option Body) (s : Session f)
      → Hand assets f t s
      → let r = Recovery.detect_if f now t b s in Hand assets f r.0 r.1
  unfolding Recovery.detect_if
  detect_if-Hand now t none s h = h
  detect_if-Hand now t (some b) s h = detect_loss-Hand assets f now t s h

  check_progress-Good :
      (now granted : ℕ) (t : Transfer) (s : Session f)
      → Hand assets f t s
      → Good assets f (Recovery.check_progress f now granted t s)
  unfolding Recovery.check_progress
  check_progress-Good now granted t s h =
      if_cases (Good assets f) (leb (t.last_progress + Recovery.timeout_of f t s) now) _ _
        (λ _. recover-Good now granted t s h) (λ _. put_found assets f t s h)

  tick_transfer-Good :
      (now : ℕ) (t : Transfer) (s : Session f)
      → Hand assets f t s
      → Good assets f (Recovery.tick_transfer f now t s)
  unfolding Recovery.tick_transfer
  tick_transfer-Good now t s h =
      let d = Recovery.detect_if f now t t.body s in
      let k = detect_if-Hand now t t.body s h in
      let granted = granted_or_0 d.0.body (Scheduler.granted d.1.scheduler t.rpc_id) in
      let u : Transfer = record d.0 { last_progress = now } in
      if_cases (Good assets f) (is_waiting d.0 granted) _ _
        (λ _. put_found assets f u d.1 (record { holds = k.holds }))
        (λ _. check_progress-Good now granted _ _ (probe_tail-Hand now granted d.0 d.1 k))

  tick_found-Good :
      (now id : ℕ) (o : Option Transfer) (s : Session f)
      → lookup id s.transfers ≡ o
      → Good assets f s
      → Good assets f (Recovery.tick_found f now o s)
  unfolding Recovery.tick_found
  tick_found-Good now id none s e h = h
  tick_found-Good now id (some t) s e h =
      tick_transfer-Good now t s (take_found assets f id t s e h).1

  tick_each-Good :
      (now : ℕ) (ts : List (ℕ × Transfer)) (s : Session f)
      → Good assets f s
      → Good assets f (Recovery.tick_each f now ts s)
  unfolding Recovery.tick_each
  tick_each-Good now [] s h = h
  tick_each-Good now ((id, old) ∷ rest) s h =
      tick_each-Good now rest _ (tick_found-Good now id _ s refl h)

  stop_if_idle-Good :
      (ts : List (ℕ × Transfer)) (s : Session f)
      → Good assets f s
      → Good assets f (Recovery.stop_if_idle f ts s)
  unfolding Recovery.stop_if_idle
  stop_if_idle-Good [] s h = record { holds = h.holds }
  stop_if_idle-Good (t ∷ ts) s h = h

  detect_seqs-Good :
      (now : ℕ) (s : Session f) → Good assets f s → Good assets f (Recovery.detect_seqs f now s)
  unfolding Recovery.detect_seqs
  detect_seqs-Good now s h =
      if_cases (Good assets f) s.stats.seq_negotiated _ _
        (λ _. detect_seq_loss-Holds f (IsSound assets) now s h) (λ _. h)

  -- The ticker.
  pub tick-Good :
      (now : ℕ) (s : Session f) → Good assets f s → Good assets f (Recovery.tick f now s)
  unfolding Recovery.tick
  tick-Good now s h = stop_if_idle-Good _ _ (tick_each-Good now _ _ (detect_seqs-Good now s h))

  pub fail_found-Good :
      (now id : ℕ) (why : Failure) (o : Option Transfer) (s : Session f)
      → lookup id s.transfers ≡ o
      → Good assets f s
      → Good assets f (Finishing.fail_found f now why o s)
  unfolding Finishing.fail_found
  fail_found-Good now id why none s e h = h
  fail_found-Good now id why (some t) s e h =
      fail-Good assets f now t why s (take_found assets f id t s e h).1

  fail_each-Good :
      (now : ℕ) (why : Failure) (ts : List (ℕ × Transfer)) (s : Session f)
      → Good assets f s
      → Good assets f (Finishing.fail_each f now why ts s)
  unfolding Finishing.fail_each
  fail_each-Good now why [] s h = h
  fail_each-Good now why ((id, old) ∷ rest) s h =
      fail_each-Good now why rest _ (fail_found-Good now id why _ s refl h)

  -- The end of the session.
  pub fail_all-Good :
      (now : ℕ) (why : Failure) (s : Session f)
      → Good assets f s
      → Good assets f (Finishing.fail_all f now why s)
  unfolding Finishing.fail_all
  fail_all-Good now why s h = record { holds = (fail_each-Good now why s.transfers s h).holds }

-- ===== src/Session/Noticing.antt =====
-- client/src/transport.ts: a look for losses keeps a session sound.
use http.Common.{ℕ, not, ◌||◌, Option, none, some, List, if_cases}
use http.Session.State.{Floats, Session, Transfer, Body, detect_interval_ms}
use http.Session.Timing.{has_passed}
use http.Session.Losses
use http.Session.Handling
use http.Session.Handling.{is_whole, is_ready}
use http.Session.Sound.{IsBody}
use http.Session.Views.{send_resends-Holds}
use http.Session.Settling.{Good, Hand, with_body, put_found}

module _ (assets : ℕ → List ℕ) (f : Floats) where
  detect_in-Hand :
      (now : ℕ) (t : Transfer) (b : Option Body) (s : Session f)
      → IsBody (assets t.rpc_id) b
      → Hand assets f t s
      → let r = Losses.detect_in f now t b s in Hand assets f r.0 r.1
  unfolding Losses.detect_in
  detect_in-Hand now t none s g h = h
  detect_in-Hand now t (some b) s g h =
      if_cases (λ (r : Transfer × Session f). Hand assets f r.0 r.1)
        (not s.cfg.early_resend || s.stats.seq_negotiated) (t, s) _ (λ _. h)
        (λ _.
          send_resends-Holds f _ _ _ _ s
            (with_body assets f t (some (record b { repair = _ })) s g h))

  pub detect_loss-Hand :
      (now : ℕ) (t : Transfer) (s : Session f)
      → Hand assets f t s
      → let r = Losses.detect_loss f now t s in Hand assets f r.0 r.1
  unfolding Losses.detect_loss
  detect_loss-Hand now t s h =
      detect_in-Hand now (record t { last_detect = some now }) t.body s h.holds.1.body_agrees
        (record { holds = h.holds })

  pub look_for_losses-Good :
      (now : ℕ) (t : Transfer) (s : Session f)
      → Hand assets f t s
      → Good assets f (Handling.look_for_losses f now t s)
  unfolding Handling.look_for_losses
  look_for_losses-Good now t s h =
      if_cases (Good assets f) (has_passed t.last_detect now detect_interval_ms) _ _
        (λ _. put_found assets f _ _ (detect_loss-Hand now t s h)) (λ _. put_found assets f t s h)
